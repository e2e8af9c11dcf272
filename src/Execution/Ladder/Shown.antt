-- ===== src/Execution/Ladder/Shown.antt =====
-- What the book shows for an order: Showing of golang/internal/execution/execution.go.
use swiftward_alpaca_options.Prelude.{
  ap, ◌∙◌, ℕ, ◌≡◌, refl, sym, inl, inr, Option, none, some, List, [], ◌∷◌, arith, Bool-cases,
  Option-cases,
}
use swiftward_alpaca_options.Prelude.Int.{ℤ, pos, ◌+ℤ◌, neg, scale, ◌<ℤ◌}
use swiftward_alpaca_options.Prelude.Text.{Text}
use swiftward_alpaca_options.Market.Order.{Side, Quote, Leg}
use swiftward_alpaca_options.Execution.Price.{
  round, ratio_of, signed, two_sided, showing_legs, showing,
}
use mathlib.Core.Option.{some-injective}

-- What a leg costs in one set: the ask of what is bought, less the bid of what is sold.
abbrev pub facing : Side → ℕ → Quote → ℤ
facing Side.sell ratio quote = neg (scale ratio quote.bid)
facing Side.other ratio quote = scale ratio quote.ask

-- The quotes have both sides for every leg, and their facing sides come to so much for a set.
abbrev pub Shows : (Text → Option Quote) → List Leg → ℤ → Type 0
Shows quotes [] total = total ≡ pos 0
Shows quotes (leg ∷ legs) total =
    (quote : Quote) × (rest : ℤ) × (quotes leg.symbol ≡ some quote)
    × (pos 0 <ℤ quote.bid)
    × (pos 0 <ℤ quote.ask)
    × (total ≡ facing leg.side (ratio_of leg) quote +ℤ rest)
    × Shows quotes legs rest

showing_legs-Shows :
    (quotes : Text → Option Quote) (legs : List Leg) (total : ℤ)
    → showing_legs quotes legs ≡ some total
    → Shows quotes legs total
unfolding showing_legs
showing_legs-Shows quotes [] total e = sym (some-injective _ _ e)
showing_legs-Shows quotes (leg ∷ legs) total e = elim (Option-cases (quotes leg.symbol)) [
  | inl missing ↦ absurd (contra (rw missing at e))
  | inr (quote, here) ↦ elim (Bool-cases (two_sided quote)) [
    | inr one_sided ↦ absurd (contra (rw (here, one_sided) at e))
    | inl both ↦ elim (Option-cases (showing_legs quotes legs)) [
      | inl unpriced ↦ absurd (contra (rw (here, both, unpriced) at e))
      | inr (rest, behind) ↦
          let same = some-injective _ _ (rw (here, both, behind) at e) in
          (
            quote,
            rest,
            here,
            ground arith,
            ground arith,
            sym same ∙ ap (λ a. a +ℤ rest) (by_side leg.side (ratio_of leg) quote),
            showing_legs-Shows quotes legs rest behind,
          )
    ]
  ]
]
  where
    contra : none ≡ some total → ⊥
    contra e = cc

    by_side :
        (side : Side) (ratio : ℕ) (quote : Quote)
        → signed side ratio quote ≡ facing side ratio quote
    by_side Side.sell ratio quote = refl
    by_side Side.other ratio quote = refl

-- What is shown is the sum of the facing sides, rounded to the cent.
pub showing-Shows :
    (quotes : Text → Option Quote) (legs : List Leg) (shown : ℤ)
    → showing quotes legs ≡ some shown
    → (total : ℤ) × Shows quotes legs total × (shown ≡ round total)
unfolding showing
showing-Shows quotes legs shown = by_total (showing_legs quotes legs) refl
  where
    by_total :
        (o : Option ℤ)
        → showing_legs quotes legs ≡ o
        → elim o [ none ↦ none | some total ↦ some (round total) ] ≡ some shown
        → (total : ℤ) × Shows quotes legs total × (shown ≡ round total)
    by_total none priced e = cc
    by_total (some total) priced e =
        (total, showing_legs-Shows quotes legs total priced, sym (some-injective _ _ e))
