-- ===== src/Market/Symbol.antt =====
-- Contract symbols: golang/internal/marketdata/symbol.go. A symbol is the underlying, the
-- expiration as YYMMDD, C or P, and the strike in thousandths of a dollar (mills).
use swiftward_alpaca_options.Prelude.{
  ℕ, ◌+◌, ◌-◌, ◌*◌, ◌%◌, Bool, not, ◌&&◌, ◌||◌, Option, none, some, [], ◌∷◌, ltb, leb, ◌==◌,
  if◌then◌else◌, length, take, drop,
}
use swiftward_alpaca_options.Prelude.Text.{Text, is_digit, text_eq, trim_space}

pub data Kind : Type 0 where
  call put : Kind

pub record Date : Type 0 where
  pub year : ℕ
  pub month : ℕ
  pub day : ℕ

infixl 5 ◌>>=◌
abbrev pub ◌>>=◌ {ℓ κ} : {A : Type ℓ} {B : Type κ} → Option A → (A → Option B) → Option B
none >>= f = none
some a >>= f = f a

abbrev pub digit : ℕ → Option ℕ
digit c = if is_digit c then some (c - b'0') else none

-- Two digits, as Go's `time` reads the fields 01 and 02.
unfoldable pub two_digits : ℕ → ℕ → Option ℕ
two_digits a b = do t ← digit a; u ← digit b; some (10 * t + u)

-- The field 06 may carry a sign; from 69 on it names a year of the last century.
unfoldable pub year_of : ℕ → ℕ → Option ℕ
unfolding two_digits
year_of a b =
    if a == b'+'
    then (digit b >>= λ u. some (2000 + u))
    else if a == b'-'
    then (digit b >>= λ u. some (2000 - u))
    else (two_digits a b >>= λ y. some (if leb 69 y then 1900 + y else 2000 + y))

abbrev is_leap : ℕ → Bool
is_leap y = (y % 4 == 0) && (not (y % 100 == 0) || (y % 400 == 0))

pub days_in : ℕ → ℕ → ℕ
days_in year month =
    if month == 2
    then (if is_leap year then 29 else 28)
    else if (month == 4) || (month == 6) || (month == 9) || (month == 11)
    then 30
    else 31

pub date_of : ℕ → ℕ → ℕ → Option Date
unfolding days_in
date_of y m d =
    if leb 1 m && leb m 12 && leb 1 d && leb d (days_in y m)
    then some (record { year = y; month = m; day = d })
    else none

-- time.Parse("060102", …)
unfoldable pub parse_date : ℕ → ℕ → ℕ → ℕ → ℕ → ℕ → Option Date
unfolding two_digits year_of date_of
parse_date y₁ y₂ m₁ m₂ d₁ d₂ = do
  y ← year_of y₁ y₂
  m ← two_digits m₁ m₂
  d ← two_digits d₁ d₂
  date_of y m d

unfoldable pub digits_from : ℕ → Text → Option ℕ
digits_from acc [] = some acc
digits_from acc (c ∷ s) = if is_digit c then digits_from (10 * acc + (c - b'0')) s else none

unfoldable pub parse_digits : Text → Option ℕ
unfolding digits_from
parse_digits [] = none
parse_digits (c ∷ s) = digits_from 0 (c ∷ s)

-- strconv.ParseInt and the test that follows it: a positive number, perhaps behind a plus. What
-- stands behind a minus is refused either way.
unfoldable pub parse_strike : Text → Option ℕ
unfolding parse_digits
parse_strike [] = none
parse_strike (c ∷ s) =
    if c == b'-'
    then none
    else (parse_digits (if c == b'+' then s else c ∷ s) >>= λ n. if leb 1 n then some n else none)

abbrev pub kind_of : ℕ → Option Kind
kind_of k =
    if (k == b'C') || (k == b'c')
    then some call
    else if (k == b'P') || (k == b'p')
    then some put
    else none

pub record Contract : Type 0 where
  pub symbol : Text
  pub expiration : Date
  pub strike : ℕ
  pub kind : Kind

-- The last fifteen bytes of a symbol, read into a contract.
unfoldable pub read_tail : Text → Text → Option Contract
unfolding parse_date parse_strike
read_tail symbol (y₁ ∷ y₂ ∷ m₁ ∷ m₂ ∷ d₁ ∷ d₂ ∷ k ∷ digits) = do
  expiration ← parse_date y₁ y₂ m₁ m₂ d₁ d₂
  kind ← kind_of k
  strike ← parse_strike digits
  some (record { symbol = symbol; expiration = expiration; strike = strike; kind = kind })
read_tail symbol _ = none

unfoldable pub contract_from : Text → Option Contract
unfolding trim_space read_tail
contract_from text =
    let symbol = trim_space text in
    if ltb (length symbol) 16 then none else read_tail symbol (drop (length symbol - 15) symbol)

-- contract.Symbol[:len(contract.Symbol)-15]
abbrev pub underlying : Contract → Text
underlying c = take (length c.symbol - 15) c.symbol

-- What positions are grouped by: one underlying, one day.
pub record Series : Type 0 where
  pub root : Text
  pub expires : Date

abbrev pub series_of : Contract → Series
series_of c = record { root = underlying c; expires = c.expiration }

abbrev pub date_eq : Date → Date → Bool
date_eq a b = (a.year == b.year) && (a.month == b.month) && (a.day == b.day)

unfoldable pub series_eq : Series → Series → Bool
unfolding text_eq
series_eq a b = text_eq a.root b.root && date_eq a.expires b.expires
