-- ===== src/Execution/Name.antt =====
-- What an order's name says: golang/internal/execution/reservation.go. Numbers in a name are in
-- plain decimal notation.
pub mod Digits
pub mod Fields
pub mod Carried
pub mod Kept
use swiftward_alpaca_options.Prelude.{
  ℕ, zero, suc, ◌+◌, ◌-◌, ◌*◌, ◌/◌, ◌%◌, Bool, true, false, not, ◌&&◌, ◌||◌, Option, none, some,
  List, [], ◌∷◌, ◌++◌, ltb, leb, ◌==◌, if◌then◌else◌, any, length,
}
use swiftward_alpaca_options.Prelude.Int.{ℤ, pos, negsuc, neg, scale, abs, ltb_ℤ}
use swiftward_alpaca_options.Prelude.Text.{Text, codes, is_digit, trim_space, cut_prefix}
use swiftward_alpaca_options.Execution.Price.{round, round_ratio}

abbrev pub worst_prefix : Text
worst_prefix = codes "worst="

-- nameLimit
abbrev pub name_limit : ℕ
name_limit = 128

-- A number in decimal, in front of more text; the fuel is more than the digits.
unfoldable pub show_from : ℕ → ℕ → Text → Text
show_from zero n rest = rest
show_from (suc fuel) n rest =
    let more = show_from fuel (n / 10) ((b'0' + n % 10) ∷ rest) in
    if ltb n 10 then (b'0' + n) ∷ rest else more

unfoldable pub show : ℕ → Text → Text
unfolding show_from
show n rest = show_from (suc n) n rest

-- %.2f of a price of so many cents.
unfoldable pub show_cents : ℕ → Text
unfolding show
show_cents cents = show (cents / 100) (b'.' ∷ (b'0' + cents % 100 / 10) ∷ (b'0' + cents % 10) ∷ [])

unfoldable pub show_price : ℤ → Text
unfolding show_cents
show_price (pos mills) = show_cents (mills / 10)
show_price (negsuc n) = b'-' ∷ show_cents (suc n / 10)

-- NameFor
unfoldable pub name_for : ℤ → Text
unfolding show_price round
name_for worst = worst_prefix ++ show_price (round worst)

abbrev pub cons_head : ℕ → List Text → List Text
cons_head c [] = (c ∷ []) ∷ []
cons_head c (field ∷ fields) = (c ∷ field) ∷ fields

-- Every field between separators, the empty ones too.
unfoldable pub split_by : (ℕ → Bool) → Text → List Text
split_by is_sep [] = [] ∷ []
split_by is_sep (c ∷ s) =
    let rest = split_by is_sep s in if is_sep c then [] ∷ rest else cons_head c rest

abbrev pub is_semicolon : ℕ → Bool
is_semicolon c = c == b';'

abbrev pub is_separator : ℕ → Bool
is_separator c = (c == b';') || (c == b',') || (c == b' ')

abbrev pub drop_empty : List Text → List Text
drop_empty [] = []
drop_empty ([] ∷ fields) = drop_empty fields
drop_empty ((c ∷ s) ∷ fields) = (c ∷ s) ∷ drop_empty fields

-- strings.Join(fields, ";")
unfoldable pub join : List Text → Text
join [] = []
join (field ∷ []) = field
join (field ∷ next ∷ fields) = field ++ (b';' ∷ join (next ∷ fields))

-- The digits behind the point, and those before it: a numerator and a denominator.
unfoldable pub read_fraction : ℕ → ℕ → Text → Option (ℕ × ℕ)
read_fraction n d [] = some (n, d)
read_fraction n d (c ∷ s) =
    if is_digit c then read_fraction (10 * n + (c - b'0')) (10 * d) s else none

unfoldable pub read_decimal : ℕ → Text → Option (ℕ × ℕ)
unfolding read_fraction
read_decimal n [] = some (n, 1)
read_decimal n (c ∷ s) =
    if c == b'.'
    then read_fraction n 1 s
    else (if is_digit c then read_decimal (10 * n + (c - b'0')) s else none)

-- A price of n / d dollars, rounded to the cent.
abbrev pub priced : Bool → Option (ℕ × ℕ) → Option ℤ
priced negative none = none
priced negative (some (n, d)) =
    some (round_ratio (if negative then neg (pos (1000 * n)) else pos (1000 * n)) d)

abbrev pub read_unsigned : Bool → Text → Option ℤ
read_unsigned negative s = if any is_digit s then priced negative (read_decimal 0 s) else none

-- strconv.ParseFloat, and `round` after it.
unfoldable pub read_price : Text → Option ℤ
unfolding read_decimal round_ratio
read_price [] = none
read_price (c ∷ s) =
    if c == b'-'
    then read_unsigned true s
    else (if c == b'+' then read_unsigned false s else read_unsigned false (c ∷ s))

abbrev pub stated_field : Option Text → Option (Option ℤ) → Option (Option ℤ)
stated_field none rest = rest
stated_field (some value) rest = some (read_price value)

-- The first field with the prefix decides, if its number can be read or not.
unfoldable pub stated_in : List Text → Option (Option ℤ)
stated_in [] = none
stated_in (field ∷ fields) = stated_field (cut_prefix worst_prefix field) (stated_in fields)

abbrev pub flatten : Option (Option ℤ) → Option ℤ
flatten none = none
flatten (some value) = value

-- Reservation, of an order with this name.
unfoldable pub reservation : Text → Option ℤ
unfolding split_by stated_in
reservation name = flatten (stated_in (drop_empty (split_by is_separator name)))

-- Digits alone, and the number that they write.
abbrev pub digits_value : ℕ → Text → Option ℕ
digits_value n [] = some n
digits_value n (c ∷ s) = if is_digit c then digits_value (10 * n + (c - b'0')) s else none

abbrev pub within : ℕ → Option ℕ → Bool
within most none = false
within most (some n) = leb n most

abbrev pub some_digits : ℕ → Text → Bool
some_digits most [] = false
some_digits most (c ∷ s) = within most (digits_value 0 (c ∷ s))

-- Whether strconv.ParseInt reads a 64-bit number.
unfoldable pub is_int64 : Text → Bool
is_int64 [] = false
is_int64 (c ∷ s) =
    if c == b'-'
    then some_digits 9223372036854775808 s
    else (if c == b'+'
        then some_digits 9223372036854775807 s
        else some_digits 9223372036854775807 (c ∷ s))

-- The stamp that the last replacement added is dropped.
unfoldable pub drop_stamp : List Text → List Text
unfolding is_int64
drop_stamp [] = []
drop_stamp (field ∷ []) = if is_int64 (trim_space field) then [] else field ∷ []
drop_stamp (field ∷ next ∷ fields) = field ∷ drop_stamp (next ∷ fields)

abbrev pub stamped : Text → Text → Text
stamped name fresh = name ++ (b';' ∷ fresh)

abbrev pub fits : Text → Text → Bool
fits name fresh = leb (length name + 1 + length fresh) name_limit

abbrev pub floor_alone : Option ℤ → Text → Text
floor_alone none fresh = fresh
floor_alone (some floor) fresh =
    if fits (name_for floor) fresh then stamped (name_for floor) fresh else fresh

abbrev pub is_empty : Text → Bool
is_empty [] = true
is_empty (c ∷ s) = false

-- NameCarrying, at a time in nanoseconds.
unfoldable pub name_carrying : Text → ℕ → Text
name_carrying name at =
    let fresh = show at [] in
    let kept = join (drop_stamp (split_by is_semicolon name)) in
    if not (is_empty kept) && fits kept fresh
    then stamped kept fresh
    else floor_alone (reservation name) fresh
