-- ===== src/TakeProfit.antt =====
-- The sets of a structure and the order that closes it: golang/internal/takeprofit/step.go.
pub mod Closes
pub mod Group
pub mod Watch
pub mod Sets
pub mod Rest
mod Tests
use swiftward_alpaca_options.Prelude.{
  ℕ, zero, suc, ◌+◌, ◌*◌, ◌/◌, ◌%◌, Bool, true, false, ◌&&◌, ◌||◌, Option, none, some, List, [],
  ◌∷◌, map, ltb, ◌==◌, if◌then◌else◌,
}
use swiftward_alpaca_options.Prelude.Int.{ℤ, pos, negsuc, ◌+ℤ◌, ◌-ℤ◌, neg, scale, abs, ltb_ℤ, leb_ℤ}
use swiftward_alpaca_options.Prelude.Frac.{Frac}
use swiftward_alpaca_options.Prelude.Text.{Text}
use swiftward_alpaca_options.Market.Order.{Quote, Position}

-- The loop of gcd: it goes on while the second number, which gets smaller, is not zero.
unfoldable pub gcd_from : ℕ → ℕ → ℕ → ℕ
gcd_from zero a b = a
gcd_from (suc fuel) a b = let more = gcd_from fuel b (a % b) in if b == 0 then a else more

unfoldable pub gcd : ℕ → ℕ → ℕ
gcd a b = gcd_from (suc b) a b

unfoldable pub sets_from : ℕ → List Position → ℕ
sets_from sets [] = sets
sets_from sets (leg ∷ legs) =
    let more = sets_from (gcd sets (abs leg.quantity)) legs in
    if abs leg.quantity == 0 then 0 else more

-- setsIn
unfoldable pub sets_in : List Position → ℕ
sets_in legs = sets_from 0 legs

abbrev pub is_sold : Position → Bool
is_sold leg = ltb_ℤ leg.quantity (pos 0)

-- What is sold, and what is bought.
unfoldable pub sold_of : List Position → ℕ
sold_of [] = 0
sold_of (leg ∷ legs) = (if is_sold leg then abs leg.quantity else 0) + sold_of legs

unfoldable pub bought_of : List Position → ℕ
bought_of [] = 0
bought_of (leg ∷ legs) = (if is_sold leg then 0 else abs leg.quantity) + bought_of legs

-- oneForOne
unfoldable pub one_for_one : List Position → Bool
one_for_one (a ∷ b ∷ []) =
    let legs = a ∷ b ∷ [] in ltb 0 (sold_of legs) && (sold_of legs == bought_of legs)
one_for_one _ = false

-- The credit of one set: what came in for what was sold, less what went out. A leg's share of the
-- set is its quantity over the sets.
unfoldable pub taken : List Position → ℤ
taken [] = pos 0
taken (leg ∷ legs) =
    let share = scale (abs leg.quantity) leg.average_entry_price in
    if is_sold leg then share +ℤ taken legs else taken legs -ℤ share

abbrev pub credit_of : List Position → Frac
credit_of legs = record { num = taken legs; den = sets_in legs }

abbrev pub is_quoted : Quote → Bool
is_quoted quote = ltb_ℤ (pos 0) quote.bid && ltb_ℤ (pos 0) quote.ask && leb_ℤ quote.bid quote.ask

-- What is sold is bought back at the ask, and what was bought is sold at the bid.
abbrev pub leg_cost : Position → Quote → ℤ
leg_cost leg quote =
    if is_sold leg
    then scale (abs leg.quantity) quote.ask
    else neg (scale (abs leg.quantity) quote.bid)

abbrev pub cost_with : Position → Option Quote → Option ℤ → Option ℤ
cost_with leg (some quote) (some rest) =
    if is_quoted quote then some (leg_cost leg quote +ℤ rest) else none
cost_with leg _ _ = none

unfoldable pub cost_of : (Text → Option Quote) → List Position → Option ℤ
cost_of quotes [] = some (pos 0)
cost_of quotes (leg ∷ legs) = cost_with leg (quotes leg.symbol) (cost_of quotes legs)

abbrev pub per_set : ℕ → Option ℤ → Option Frac
per_set sets none = none
per_set sets (some cost) = some (record { num = cost; den = sets })

-- BuyBack
unfoldable pub buy_back : (Text → Option Quote) → List Position → Option Frac
buy_back quotes legs = per_set (sets_in legs) (cost_of quotes legs)

-- A leg of the order that closes: so many a set, bought where it was sold.
pub record Closing : Type 0 where
  pub symbol : Text
  pub ratio : ℕ
  pub buy : Bool

abbrev pub closing_leg : ℕ → Position → Closing
closing_leg sets leg = record {
  symbol = leg.symbol;
  ratio = abs leg.quantity / sets;
  buy = is_sold leg;
}

abbrev pub with_leg : Closing → Option (List Closing) → Option (List Closing)
with_leg leg none = none
with_leg leg (some legs) = if ltb leg.ratio 1 then none else some (leg ∷ legs)

-- The legs of the closing order: none where a leg has less than one contract a set.
unfoldable pub closing_of : ℕ → List Position → Option (List Closing)
closing_of sets [] = some []
closing_of sets (leg ∷ legs) = with_leg (closing_leg sets leg) (closing_of sets legs)
