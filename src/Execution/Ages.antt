-- ===== src/Execution/Ages.antt =====
-- How long an order has been walked, across the replacements that carry it: orderAge, lifeOf,
-- carried and forgetWhatIsDone of golang/internal/execution/execution.go. Times are in
-- nanoseconds.
pub mod Chain
use swiftward_alpaca_options.Prelude.{
  ℕ, ◌+◌, Bool, true, false, not, ◌&&◌, Option, none, some, List, [], ◌∷◌, ltb, if◌then◌else◌, any,
}
use swiftward_alpaca_options.Prelude.Text.{Text, text_eq}
use swiftward_alpaca_options.Market.Order.{Class, Status, Leg, Order, active}

pub record Age : Type 0 where
  pub placed : ℕ
  -- The pass that last moved the order; zero is never.
  pub moved_on : ℕ

abbrev pub Ages : Type 0
Ages = List (Text × Age)

unfoldable pub lookup : Text → Ages → Option Age
lookup id [] = none
lookup id ((key, age) ∷ ages) = if text_eq key id then some age else lookup id ages

unfoldable pub erase : Text → Ages → Ages
erase id [] = []
erase id ((key, age) ∷ ages) =
    let rest = erase id ages in if text_eq key id then rest else (key, age) ∷ rest

unfoldable pub insert : Text → Age → Ages → Ages
unfolding erase
insert id age ages = (id, age) ∷ erase id ages

abbrev pub placed_at : Option ℕ → ℕ → ℕ
placed_at none now = now
placed_at (some at) now = at

abbrev pub life_found : Order → ℕ → Ages → Option Age → Age × Ages
life_found order now ages (some age) = (age, ages)
life_found order now ages none =
    let age : Age = record { placed = placed_at order.submitted_at now; moved_on = 0 } in
    (age, insert order.id age ages)

-- lifeOf
unfoldable pub life_of : Order → ℕ → Ages → Age × Ages
life_of order now ages = life_found order now ages (lookup order.id ages)

abbrev pub or_never : Option Age → Age
or_never (some age) = age
or_never none = record { placed = 0; moved_on = 0 }

abbrev is_nothing : Text → Bool
is_nothing [] = true
is_nothing (c ∷ s) = false

-- carried: the chain moves onto the id of the replacement, if the broker named one.
unfoldable pub carried : ℕ → Text → Text → Ages → Ages
carried passes from to ages =
    let age = or_never (lookup from ages) in
    let rest = erase from ages in
    if is_nothing to
    then rest
    else insert to (record { placed = age.placed; moved_on = passes }) rest

abbrev is_mleg : Class → Bool
is_mleg Class.mleg = true
is_mleg Class.other = false

abbrev has_legs : List Leg → Bool
has_legs [] = false
has_legs (leg ∷ legs) = true

abbrev has_time : Option ℕ → Bool
has_time none = false
has_time (some at) = true

-- working
unfoldable pub working : Order → Bool
working order =
    is_mleg order.class && has_legs order.legs && has_time order.submitted_at && active order

unfoldable pub drop_done : List Order → Ages → Ages
drop_done [] ages = ages
drop_done (order ∷ orders) ages =
    drop_done orders (if working order then ages else erase order.id ages)

abbrev pub shown_working : List Order → Text → Bool
shown_working orders id = any (λ one. working one && text_eq one.id id) orders

unfoldable pub sweep : List Order → ℕ → ℕ → Ages → Ages
sweep orders now span [] = []
sweep orders now span ((id, age) ∷ ages) =
    let rest = sweep orders now span ages in
    if not (shown_working orders id) && ltb (age.placed + span) now then rest else (id, age) ∷ rest

-- forgetWhatIsDone, with the sum of patience and interval.
unfoldable pub forget_what_is_done : List Order → ℕ → ℕ → Ages → Ages
forget_what_is_done orders now span ages = sweep orders now span (drop_done orders ages)
