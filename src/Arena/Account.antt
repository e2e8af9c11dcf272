-- ===== src/Arena/Account.antt =====
-- The positions of a book, and what an order does to them: apply, move, project and reserved of
-- testbed/proxy/book.go. The map of positions is a list, in order of first use.
use swiftward_alpaca_options.Prelude.{
  ℕ, ◌*◌, Bool, not, ◌&&◌, ◌||◌, List, [], ◌∷◌, ltb, if◌then◌else◌,
}
use swiftward_alpaca_options.Prelude.Int.{ℤ, pos, ◌+ℤ◌, ◌-ℤ◌, scale, abs, ltb_ℤ, eqb_ℤ}
use swiftward_alpaca_options.Prelude.Frac.{Frac, whole, plus, times, divide}
use swiftward_alpaca_options.Prelude.Text.{Text, text_eq}
use swiftward_alpaca_options.Arena.Order.{
  Class, option, Leg, Position, Order, multiplier, per_contract, signed, contracts_in, is_open,
  remaining,
}

-- sameSign
abbrev pub same_sign : ℤ → ℤ → Bool
same_sign a b = (ltb_ℤ (pos 0) a && ltb_ℤ (pos 0) b) || (ltb_ℤ a (pos 0) && ltb_ℤ b (pos 0))

-- The average entry price after a move: weighted when a position grows, the new price when it opens
-- or is turned round, and left alone when it shrinks.
abbrev pub average_after : Frac → ℤ → ℤ → ℤ → Frac
average_after average was moved price =
    if eqb_ℤ was (pos 0)
    then whole price
    else (if same_sign was moved
        then divide (plus (times (abs was) average) (whole (scale (abs moved) price)))
            (abs (was +ℤ moved))
        else (if ltb (abs was) (abs moved) then whole price else average))

abbrev pub moved_position : Position → ℤ → ℤ → Position
moved_position p moved price = record p {
  quantity = p.quantity +ℤ moved;
  average_price = average_after p.average_price p.quantity moved price;
  mark = price;
}

abbrev pub opened : Text → Class → Position
opened symbol class = record {
  symbol = symbol;
  quantity = pos 0;
  average_price = whole (pos 0);
  class = class;
  mark = pos 0;
}

-- A position of nothing is deleted.
abbrev pub keep : Position → List Position → List Position
keep p ps = if eqb_ℤ p.quantity (pos 0) then ps else p ∷ ps

unfoldable pub move_in : Text → Class → ℤ → ℤ → List Position → List Position
move_in symbol class moved price [] = keep (moved_position (opened symbol class) moved price) []
move_in symbol class moved price (p ∷ ps) =
    let rest = move_in symbol class moved price ps in
    if text_eq p.symbol symbol then keep (moved_position p moved price) ps else p ∷ rest

-- move
unfoldable pub move : Text → Class → ℤ → ℤ → List Position → List Position
move symbol class moved price ps =
    if eqb_ℤ moved (pos 0) then ps else move_in symbol class moved price ps

-- apply
unfoldable pub apply : List Leg → ℕ → (Text → ℤ) → List Position → List Position
apply [] sets leg_price ps = ps
apply (leg ∷ legs) sets leg_price ps =
    apply legs sets leg_price (move leg.symbol option (signed leg sets) (leg_price leg.symbol) ps)

-- What a leg adds in a projection: the price is not needed.
unfoldable pub hold : Leg → ℕ → List Position → List Position
hold leg sets [] = record (opened leg.symbol option) { quantity = signed leg sets } ∷ []
hold leg sets (p ∷ ps) =
    let rest = hold leg sets ps in
    if text_eq p.symbol leg.symbol
    then record p { symbol = leg.symbol; class = option; quantity = p.quantity +ℤ signed leg sets }
      ∷ ps
    else p ∷ rest

unfoldable pub hold_all : List Leg → ℕ → List Position → List Position
hold_all [] sets ps = ps
hold_all (leg ∷ legs) sets ps = hold_all legs sets (hold leg sets ps)

unfoldable pub held_only : List Position → List Position
held_only [] = []
held_only (p ∷ ps) = keep p (held_only ps)

-- project
unfoldable pub project : List Position → List Leg → ℕ → List Position
project ps legs sets = held_only (hold_all legs sets ps)

-- What sets of an order cost at a price, and the fees on them.
abbrev pub cost_at : ℤ → ℕ → ℤ
cost_at price sets = scale (sets * multiplier) price

abbrev pub fees_on : List Leg → ℕ → ℕ
fees_on legs sets = contracts_in legs sets * per_contract

-- The book and the cash, as they would be.
pub record Projection : Type 0 where
  pub positions : List Position
  pub cash : ℤ

abbrev pub add_order : Order → ℕ → Projection → Projection
add_order order sets after = if ltb sets 1 then after else record {
  positions = hold_all order.legs sets after.positions;
  cash = after.cash -ℤ (cost_at order.limit sets +ℤ pos (fees_on order.legs sets));
}

unfoldable pub add_standing : (Text → Bool) → List Order → Projection → Projection
add_standing skipped [] after = after
add_standing skipped (order ∷ orders) after = add_standing skipped orders (
    if is_open order && not (skipped order.id)
    then add_order order (remaining order) after
    else after)

abbrev pub settled_projection : Projection → Projection
settled_projection after = record { positions = held_only after.positions; cash = after.cash }
