-- ===== src/Arena/Tools/Legs.antt =====
-- The legs that legsOf of testbed/proxy/tools.go accepts.
use swiftward_alpaca_options.Prelude.{
  ℕ, ◌≤◌, ◌≡◌, refl, ◌&&◌, Option, none, some, List, [], ◌∷◌, all, leb, inl, inr, Bool-cases, All,
  arith,
}
use swiftward_alpaca_options.Prelude.Text.{Text, is_digit, trim_space, to_lower, codes}
use swiftward_alpaca_options.Market.Symbol.{parse_digits}
use swiftward_alpaca_options.Arena.Order.{Side, Leg, counted, parse_count}
use swiftward_alpaca_options.Arena.Contract.{Occ, parse_occ}
use swiftward_alpaca_options.Arena.Tools.{
  LegArgs, OrderArgs, leg_with, side_of, or_default, symbol_of, read_leg, cons_leg, read_legs,
  single_leg, legs_of,
}
use mathlib.Core.Option.{some-injective}
use mathlib.Core.Path.{subst}

-- A leg of a contract that can be read, in a ratio of one at least.
abbrev pub IsReadable : Leg → Type 0
IsReadable leg = (1 ≤ leg.ratio) × ((c : Occ) × (parse_occ leg.symbol ≡ some c))

counted_positive : (o : Option ℕ) (n : ℕ) → counted o ≡ some n → 1 ≤ n
counted_positive none n e = cc
counted_positive (some m) n e = elim (Bool-cases (leb m 9223372036854775807 && leb 1 m)) [
  | inl fits ↦ subst (λ k. 1 ≤ k) (some-injective m n (rw fits at e)) (ground arith)
  | inr odd ↦ absurd (contra (rw odd at e))
]
  where
    contra : none ≡ some n → ⊥
    contra e = cc

pub parse_count_positive : (s : Text) (n : ℕ) → parse_count s ≡ some n → 1 ≤ n
unfolding parse_count
parse_count_positive s n e = elim (Bool-cases (all is_digit s)) [
  | inl digits ↦ counted_positive (parse_digits s) n (rw digits at e)
  | inr odd ↦ absurd (contra (rw odd at e))
]
  where
    contra : none ≡ some n → ⊥
    contra e = cc

read_leg-IsReadable : (args : LegArgs) (leg : Leg) → read_leg args ≡ some leg → IsReadable leg
unfolding read_leg
read_leg-IsReadable args leg e =
    by_parts (side_of (to_lower (trim_space args.side)))
      (parse_count (or_default args.ratio_quantity (codes "1"))) (parse_occ (symbol_of args)) refl
      refl e
  where
    by_parts :
        (side : Option Side) (n : Option ℕ) (c : Option Occ)
        → parse_count (or_default args.ratio_quantity (codes "1")) ≡ n
        → parse_occ (symbol_of args) ≡ c
        → leg_with (symbol_of args) args.position_intent side n c ≡ some leg
        → IsReadable leg
    by_parts none n c p q e = cc
    by_parts (some side) none c p q e = cc
    by_parts (some side) (some n) none p q e = cc
    by_parts (some side) (some n) (some c) p q e =
        subst IsReadable (some-injective _ leg e)
          (parse_count_positive (or_default args.ratio_quantity (codes "1")) n p, (c, q))

read_legs-IsReadable :
    (args : List LegArgs) (legs : List Leg) → read_legs args ≡ some legs → All IsReadable legs
unfolding read_legs
read_legs-IsReadable [] legs e = subst (All IsReadable) (some-injective [] legs e) tt
read_legs-IsReadable (arg ∷ args) legs e =
    by_parts (read_leg arg) (read_legs args) refl (read_legs-IsReadable args) e
  where
    by_parts :
        (one : Option Leg) (rest : Option (List Leg))
        → read_leg arg ≡ one
        → ((more : List Leg) → rest ≡ some more → All IsReadable more)
        → cons_leg one rest ≡ some legs
        → All IsReadable legs
    by_parts none rest p ih e = cc
    by_parts (some one) none p ih e = cc
    by_parts (some one) (some rest) p ih e =
        subst (All IsReadable) (some-injective _ legs e)
          (read_leg-IsReadable arg one p, ih rest refl)

pub legs_of-IsReadable :
    (args : OrderArgs) (asked : List LegArgs) (legs : List Leg)
    → legs_of args asked ≡ some legs
    → All IsReadable legs
unfolding legs_of
legs_of-IsReadable args [] legs e = by_symbol (trim_space args.symbol) e
  where
    by_symbol : (symbol : Text) → single_leg args symbol ≡ some legs → All IsReadable legs
    by_symbol [] e = cc
    by_symbol (c ∷ s) e = read_legs-IsReadable _ legs e
legs_of-IsReadable args (leg ∷ rest) legs e = read_legs-IsReadable (leg ∷ rest) legs e
