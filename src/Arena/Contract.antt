-- ===== src/Arena/Contract.antt =====
-- Contract symbols as the arena reads them: parseOCC of testbed/proxy/risk.go.
pub mod Same
use swiftward_alpaca_options.Prelude.{
  ℕ, ◌+◌, ◌-◌, ◌*◌, ◌≡◌, refl, sym, ap, ◌∙◌, Bool, true, false, ◌&&◌, ◌||◌, Option, none, some,
  List, [], ◌∷◌, ltb, leb, ◌==◌, if◌then◌else◌, all, length, take, drop, Bool-cases, inl, inr,
  Option-cases, arith,
}
use swiftward_alpaca_options.Prelude.Text.{Text, is_digit, text_eq, trim_space}
use swiftward_alpaca_options.Market.Symbol.{
  Kind, call, put, Date, ◌>>=◌, parse_date, parse_digits, parse_strike, kind_of, read_tail,
  contract_from, Contract,
}

pub record Occ : Type 0 where
  pub root : Text
  -- The six digits of the date: contracts are grouped by them.
  pub expiry : Text
  pub kind : Kind
  pub strike : ℕ
  pub expires : Date

-- A capital letter or a digit.
abbrev pub is_root_byte : ℕ → Bool
is_root_byte c = (leb b'A' c && leb c b'Z') || (leb b'0' c && leb c b'9')

abbrev pub occ_kind : ℕ → Option Kind
occ_kind k = if k == b'C' then some call else (if k == b'P' then some put else none)

abbrev pub positive : ℕ → Option ℕ
positive n = if leb 1 n then some n else none

abbrev pub occ_strike : Text → Option ℕ
occ_strike digits = if all is_digit digits then parse_digits digits >>= positive else none

unfoldable pub read_occ : Text → Text → Option Occ
read_occ root (y₁ ∷ y₂ ∷ m₁ ∷ m₂ ∷ d₁ ∷ d₂ ∷ k ∷ digits) = do
  expires ← parse_date y₁ y₂ m₁ m₂ d₁ d₂
  kind ← occ_kind k
  strike ← occ_strike digits
  some (record {
    root = root;
    expiry = y₁ ∷ y₂ ∷ m₁ ∷ m₂ ∷ d₁ ∷ d₂ ∷ [];
    kind = kind;
    strike = strike;
    expires = expires;
  })
read_occ root _ = none

-- parseOCC
unfoldable pub parse_occ : Text → Option Occ
parse_occ text =
    let s = trim_space text in
    let root = take (length s - 15) s in
    if ltb (length s) 16
    then none
    else (if all is_root_byte root then read_occ root (drop (length s - 15) s) else none)
