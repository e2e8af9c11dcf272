-- ===== src/Execution/Checks.antt =====
-- What an order is checked by before it is walked: golang/internal/execution/toobig.go, and EdgeAt
-- of golang/internal/execution/execution.go.
pub mod Floor
use swiftward_alpaca_options.Prelude.{
  ℕ, suc, ◌+◌, ◌-◌, ◌*◌, Bool, true, false, not, ◌&&◌, ◌||◌, Option, none, some, List, [], ◌∷◌,
  ◌++◌, ltb, leb, ◌==◌, if◌then◌else◌, all,
}
use swiftward_alpaca_options.Prelude.Int.{ℤ, pos, ◌+ℤ◌, ◌-ℤ◌, neg, scale, abs, ltb_ℤ, leb_ℤ, min}
use swiftward_alpaca_options.Prelude.Frac.{Frac}
use swiftward_alpaca_options.Prelude.Text.{Text, codes, has_suffix}
use swiftward_alpaca_options.Market.Symbol.{Kind, call, put, Contract, contract_from}
use swiftward_alpaca_options.Market.Payoff.{Stake, payoff, least}
use swiftward_alpaca_options.Market.Order.{Quote, Side, Leg, Order}
use swiftward_alpaca_options.Market.Exposure.{strikes, highest}
use swiftward_alpaca_options.Execution.Price.{ratio_of}
use swiftward_alpaca_options.Execution.Name.{reservation}

-- Every leg says one thing, and there is a leg.
abbrev every_leg : Text → List Leg → Bool
every_leg suffix [] = false
every_leg suffix (leg ∷ legs) = all (λ one. has_suffix one.position_intent suffix) (leg ∷ legs)

unfoldable pub only_closes : Order → Bool
only_closes order = every_leg (codes "_to_close") order.legs

unfoldable pub only_opens : Order → Bool
only_opens order = every_leg (codes "_to_open") order.legs

-- What is sold counts against what is bought.
abbrev pub sided : Side → ℕ → ℤ
sided Side.sell n = neg (pos n)
sided Side.other n = pos n

-- A leg's own quantity, or the order's.
abbrev pub held_of : ℕ → Leg → ℕ
held_of quantity leg = if leg.quantity == 0 then quantity else leg.quantity

abbrev pub call_count : ℕ → Leg → Option Contract → ℤ
call_count quantity leg none = pos 0
call_count quantity leg (some c) = elim c.kind [
  | call ↦ sided leg.side (held_of quantity leg)
  | put ↦ pos 0
]

unfoldable pub net_of_legs : ℕ → List Leg → ℤ
net_of_legs quantity [] = pos 0
net_of_legs quantity (leg ∷ legs) =
    call_count quantity leg (contract_from leg.symbol) +ℤ net_of_legs quantity legs

-- Unbounded
unfoldable pub unbounded : Order → Bool
unbounded order = ltb_ℤ (net_of_legs order.quantity order.legs) (pos 0)

-- Of each leg what is still resting, times the order's quantity, so that it is a whole number.
abbrev pub leg_stake : ℕ → ℕ → Leg → Option Contract → Option (List Stake) → Option (List Stake)
leg_stake quantity resting leg none rest = none
leg_stake quantity resting leg (some c) none = none
leg_stake quantity resting leg (some c) (some stakes) = some (
    record {
      kind = c.kind;
      strike = c.strike;
      held = sided leg.side (resting * held_of quantity leg);
    }
    ∷ stakes)

unfoldable pub leg_stakes : ℕ → ℕ → List Leg → Option (List Stake)
leg_stakes quantity resting [] = some []
leg_stakes quantity resting (leg ∷ legs) =
    leg_stake quantity resting leg (contract_from leg.symbol) (leg_stakes quantity resting legs)

-- The worst price that the order may fill at.
abbrev pub or_limit : ℤ → Option ℤ → ℤ
or_limit limit none = limit
or_limit limit (some floor) = floor

unfoldable pub worst_price : Order → ℤ
worst_price order = or_limit order.limit_price (reservation order.client_id)

-- What is paid for the resting part at a price, times the order's quantity.
abbrev pub paid_at : Order → ℤ → ℤ
paid_at order price = scale (100 * (order.quantity - order.filled_quantity) * order.quantity) price

abbrev pub worst_of : ℕ → ℤ → Option (List Stake) → Option Frac
worst_of quantity settled none = none
worst_of quantity settled (some stakes) = some (record {
  num = min (pos 0) (
      least (λ price. payoff stakes price +ℤ settled) 0
        (strikes stakes ++ (highest stakes * 2) ∷ []));
  den = quantity;
})

abbrev pub no_legs : List Leg → Bool
no_legs [] = true
no_legs (leg ∷ legs) = false

-- WorstCase
unfoldable pub worst_case : Order → Option Frac
worst_case order =
    let resting = order.quantity - order.filled_quantity in
    if no_legs order.legs || (order.quantity == 0) || (resting == 0)
    then none
    else worst_of order.quantity (neg (paid_at order (worst_price order)))
        (leg_stakes order.quantity resting order.legs)

-- The two legs of a vertical, sold first.
pub record Vertical : Type 0 where
  pub short : Leg
  pub long : Leg

abbrev sides_of : Leg → Leg → Option Vertical
sides_of a b = by_side a.side b.side
  where
    by_side : Side → Side → Option Vertical
    by_side Side.sell Side.other = some (record { short = a; long = b })
    by_side Side.other Side.sell = some (record { short = b; long = a })
    by_side _ _ = none

-- A leg without a symbol is as good as no leg.
abbrev named : Option Vertical → Option Vertical
named none = none
named (some v) = if empty v.short.symbol || empty v.long.symbol then none else some v
  where
    empty : Text → Bool
    empty [] = true
    empty (c ∷ s) = false

unfoldable pub vertical_of : List Leg → Option Vertical
vertical_of (a ∷ b ∷ []) =
    if (ratio_one a == 1) && (ratio_one b == 1) then named (sides_of a b) else none
  where
    ratio_one : Leg → ℕ
    ratio_one leg = if leg.ratio == 0 then leg.quantity else leg.ratio
vertical_of _ = none

abbrev delta_of : Option Quote → Option ℤ
delta_of none = none
delta_of (some quote) = quote.delta

-- Percentage points of the width, less the sold leg's delta: a hundred times credit / width -
-- |delta|, delta in millionths.
abbrev edge_of : ℤ → Option Contract → Option Contract → Option ℤ → Option Frac
edge_of price (some sold) (some bought) (some delta) =
    let width = abs (pos sold.strike -ℤ pos bought.strike) in
    if width == 0
    then none
    else some (record {
      num = pos (100 * 1000000 * abs price) -ℤ pos (100 * width * abs delta);
      den = 1000000 * width;
    })
edge_of price _ _ _ = none

abbrev edge_vertical : (Text → Option Quote) → ℤ → Option Vertical → Option Frac
edge_vertical quotes price none = none
edge_vertical quotes price (some v) =
    edge_of price (contract_from v.short.symbol) (contract_from v.long.symbol)
      (delta_of (quotes v.short.symbol))

-- EdgeAt
unfoldable pub edge_at : (Text → Option Quote) → ℤ → List Leg → Option Frac
unfolding vertical_of
edge_at quotes price legs =
    if ltb_ℤ price (pos 0) then edge_vertical quotes price (vertical_of legs) else none
