-- ===== src/Arena/Contract/Same.antt =====
-- The arena and the program read one symbol as one contract: parseOCC of testbed/proxy/risk.go and
-- ContractFrom of golang/internal/marketdata/symbol.go.
use swiftward_alpaca_options.Prelude.{
  ℕ, ◌-◌, ◌≡◌, refl, sym, Bool, true, false, ◌&&◌, Option, none, some, [], ◌∷◌, ltb, ◌==◌, all,
  length, take, drop, Bool-cases, inl, inr, arith,
}
use swiftward_alpaca_options.Prelude.Text.{Text, is_digit, trim_space}
use swiftward_alpaca_options.Market.Symbol.{
  Kind, ◌>>=◌, parse_date, parse_strike, kind_of, read_tail, contract_from, Contract, underlying,
}
use swiftward_alpaca_options.Arena.Contract.{
  Occ, is_root_byte, occ_kind, occ_strike, read_occ, parse_occ,
}
use mathlib.Core.Option.{some-injective}

-- What a bind that succeeds has bound.
bound {ℓ κ} :
    {A : Type ℓ} {B : Type κ} (m : Option A) (f : A → Option B) (b : B)
    → (m >>= f) ≡ some b
    → (a : A) × (m ≡ some a) × (f a ≡ some b)
bound none f b e = cc
bound (some a) f b e = (a, refl, e)

parse_strike-occ_strike :
    (digits : Text) (n : ℕ) → occ_strike digits ≡ some n → parse_strike digits ≡ some n
unfolding parse_strike
parse_strike-occ_strike [] n e = e
parse_strike-occ_strike (c ∷ s) n e = elim (Bool-cases (all is_digit (c ∷ s))) [
  | inl digits ↦
      let (minus, plus) = apart c (all is_digit s) digits in rw (minus, plus) (rw digits at e)
  | inr others ↦ absurd (contra (rw others at e))
]
  where
    apart :
        (c : ℕ) (b : Bool)
        → (is_digit c && b) ≡ true
        → ((c == b'-') ≡ false) × ((c == b'+') ≡ false)
    apart c b h = ground arith

    contra : none ≡ some n → ⊥
    contra e = cc

kind_of-occ_kind : (k : ℕ) (kind : Kind) → occ_kind k ≡ some kind → kind_of k ≡ some kind
kind_of-occ_kind k kind e = ground arith

-- The program's reading of a contract of the arena.
abbrev pub as_contract : Text → Occ → Contract
as_contract symbol c = record {
  symbol = symbol;
  expiration = c.expires;
  strike = c.strike;
  kind = c.kind;
}

read_tail-read_occ :
    (symbol root tail : Text) (c : Occ)
    → read_occ root tail ≡ some c
    → (read_tail symbol tail ≡ some (as_contract symbol c)) × (c.root ≡ root)
unfolding read_occ read_tail
read_tail-read_occ symbol root (y₁ ∷ y₂ ∷ m₁ ∷ m₂ ∷ d₁ ∷ d₂ ∷ k ∷ digits) c e =
    let (day, is_day, e1) = bound (parse_date y₁ y₂ m₁ m₂ d₁ d₂) _ c e in
    let (kind, is_kind, e2) = bound (occ_kind k) _ c e1 in
    let (strike, is_strike, e3) = bound (occ_strike digits) _ c e2 in
    let same = some-injective _ _ e3 in
    rw
      (
        is_day,
        kind_of-occ_kind k kind is_kind,
        parse_strike-occ_strike digits strike is_strike,
        ← same,
      )
      (refl, refl)
read_tail-read_occ symbol root [] c e = cc
read_tail-read_occ symbol root (y₁ ∷ []) c e = cc
read_tail-read_occ symbol root (y₁ ∷ y₂ ∷ []) c e = cc
read_tail-read_occ symbol root (y₁ ∷ y₂ ∷ m₁ ∷ []) c e = cc
read_tail-read_occ symbol root (y₁ ∷ y₂ ∷ m₁ ∷ m₂ ∷ []) c e = cc
read_tail-read_occ symbol root (y₁ ∷ y₂ ∷ m₁ ∷ m₂ ∷ d₁ ∷ []) c e = cc
read_tail-read_occ symbol root (y₁ ∷ y₂ ∷ m₁ ∷ m₂ ∷ d₁ ∷ d₂ ∷ []) c e = cc

-- A symbol that the arena reads is read by the program as the same contract: its underlying, its
-- day, its kind and its strike.
pub contract_from-parse_occ :
    (text : Text) (c : Occ)
    → parse_occ text ≡ some c
    → (contract_from text ≡ some (as_contract (trim_space text) c))
      × (underlying (as_contract (trim_space text) c) ≡ c.root)
unfolding parse_occ contract_from
contract_from-parse_occ text c e =
    let s = trim_space text in
    let root = take (length s - 15) s in
    elim (Bool-cases (ltb (length s) 16)) [
      | inl short ↦ absurd (contra (rw short at e))
      | inr long ↦ elim (Bool-cases (all is_root_byte root)) [
        | inl plain ↦
            let (tail, is_root) =
              read_tail-read_occ s root (drop (length s - 15) s) c (rw (long, plain) at e) in
            rw long (tail, sym is_root)
        | inr odd ↦ absurd (contra (rw (long, odd) at e))
      ]
    ]
  where
    contra : none ≡ some c → ⊥
    contra e = cc
