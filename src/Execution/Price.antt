-- ===== src/Execution/Price.antt =====
-- Prices on the ladder: round, Toward, worseThan, Showing and stride of
-- golang/internal/execution/execution.go. Prices are in mills; the broker quotes in cents, ten
-- mills. A step may be a fraction of a mill, so a step is a ratio and no division is rounded but
-- the one that `round` makes.
pub mod Round
pub mod Step
pub mod Arrival
use swiftward_alpaca_options.Prelude.{
  ℕ, suc, ◌+◌, ◌-◌, ◌*◌, ◌/◌, ◌%◌, ◌≤◌, ◌<◌, ◌≡◌, Bool, true, false, ◌&&◌, Option, none, some, List,
  [], ◌∷◌, arith, ltb, leb, ◌==◌, if◌then◌else◌,
}
use swiftward_alpaca_options.Prelude.Int.{
  ℤ, pos, negsuc, ◌+ℤ◌, ◌-ℤ◌, neg, scale, abs, ◌≤ℤ◌, ltb_ℤ, leb_ℤ, min, max,
}
use swiftward_alpaca_options.Prelude.Text.{Text}
use swiftward_alpaca_options.Market.Order.{Quote, Side, Leg}

-- How far one step moves, `length / parts` mills.
pub record Stride : Type 0 where
  pub length : ℕ
  pub parts : ℕ

-- Half a cent goes up, of a number that is n / d mills.
unfoldable pub round_ℕ : ℕ → ℕ → ℕ
round_ℕ n d = 10 * ((2 * n + 10 * d) / (20 * d))

-- math.Round(price * 100) / 100 goes away from zero at the half, for a price of n / d mills.
unfoldable pub round_ratio : ℤ → ℕ → ℤ
unfolding round_ℕ
round_ratio (pos n) d = pos (round_ℕ n d)
round_ratio (negsuc n) d = neg (pos (round_ℕ (suc n) d))

unfoldable pub round : ℤ → ℤ
unfolding round_ratio
round price = round_ratio price 1

abbrev pub worse_than : ℤ → ℤ → Bool
worse_than price than = ltb_ℤ than price

-- Toward
unfoldable pub toward : ℤ → ℤ → Stride → ℤ
unfolding round_ratio round
toward limit target step =
    if ltb (2 * (step.parts * abs (target -ℤ limit))) step.length
    then round target
    else if ltb_ℤ limit target
    then round_ratio (min (scale step.parts limit +ℤ pos step.length) (scale step.parts target))
        step.parts
    else round_ratio (max (scale step.parts limit -ℤ pos step.length) (scale step.parts target))
        step.parts

-- Where the broker names no ratio the leg is the set.
abbrev pub ratio_of : Leg → ℕ
ratio_of leg = if leg.ratio == 0 then (if leg.quantity == 0 then 1 else leg.quantity) else leg.ratio

abbrev pub signed : Side → ℕ → Quote → ℤ
signed Side.sell ratio quote = neg (scale ratio quote.bid)
signed Side.other ratio quote = scale ratio quote.ask

abbrev pub two_sided : Quote → Bool
two_sided quote = ltb_ℤ (pos 0) quote.bid && ltb_ℤ (pos 0) quote.ask

abbrev pub leg_showing : Leg → Option Quote → Option ℤ → Option ℤ
leg_showing leg none rest = none
leg_showing leg (some quote) rest =
    if two_sided quote
    then (elim rest [
      | none ↦ none
      | some total ↦ some (signed leg.side (ratio_of leg) quote +ℤ total)
    ])
    else none

unfoldable pub showing_legs : (Text → Option Quote) → List Leg → Option ℤ
showing_legs quotes [] = some (pos 0)
showing_legs quotes (leg ∷ legs) = leg_showing leg (quotes leg.symbol) (showing_legs quotes legs)

-- Showing
unfoldable pub showing : (Text → Option Quote) → List Leg → Option ℤ
unfolding showing_legs round
showing quotes legs = elim (showing_legs quotes legs) [
  | none ↦ none
  | some total ↦ some (round total)
]

-- The two ways to choose a step: StrideByTick, and StrideToArrive, which is also the default.
pub data StrideKind : Type 0 where
  by_tick to_arrive : StrideKind

-- int(left / Every), and one at least.
unfoldable pub steps_left : ℕ → ℕ → ℕ
steps_left left every = let steps = left / every in if ltb steps 1 then 1 else steps

unfoldable pub stride : StrideKind → ℕ → ℤ → ℤ → ℕ → ℕ → Stride
unfolding steps_left
stride by_tick tick limit target left every = record { length = tick; parts = 1 }
stride to_arrive tick limit target left every =
    let distance = abs (target -ℤ limit) in
    let steps = steps_left left every in
    if ltb (steps * tick) distance
    then record { length = distance; parts = steps }
    else record { length = tick; parts = 1 }
