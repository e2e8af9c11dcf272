-- ===== src/Arena/Book.antt =====
-- A participant's book: testbed/proxy/book.go. The map of orders and the list of their identifiers
-- are one list, in order of submission. The identifier that the source draws is an argument.
-- Where a store is given the source writes the book to it after each change; the model is of a book
-- without one.
pub mod Calls
pub mod Cases
pub mod Stored
pub mod Sound
pub mod Final
pub mod Covers
pub mod Solvent
pub mod Backed
pub mod Moved
use swiftward_alpaca_options.Prelude.{
  ℕ, suc, ◌+◌, ◌-◌, ◌*◌, Bool, true, false, not, ◌&&◌, ◌||◌, Option, none, some, List, [], ◌∷◌,
  ◌++◌, map, ltb, leb, ◌==◌, if◌then◌else◌, ◌⊎◌, inl, inr,
}
use swiftward_alpaca_options.Prelude.Int.{ℤ, pos, ◌+ℤ◌, ◌-ℤ◌, scale, ltb_ℤ, eqb_ℤ}
use swiftward_alpaca_options.Prelude.Frac.{Frac, whole, plus, times, divide, ltb_frac}
use swiftward_alpaca_options.Prelude.Text.{Text, codes, text_eq}
use swiftward_alpaca_options.Arena.Order.{
  Class, option, equity, Status, Side, Leg, Position, Reason, noted, Note, Order, EventKind, Event,
  is_open, is_open_status, remaining, turn_of,
}
use swiftward_alpaca_options.Arena.Order.{Status, Reason, EventKind}
use swiftward_alpaca_options.Arena.Risk.{Demand, unreadable, endless, needs, requirement}
use swiftward_alpaca_options.Arena.Account.{
  apply, project, cost_at, fees_on, Projection, add_order, add_standing, settled_projection,
}

pub record Book : Type 0 where
  pub cash : ℤ
  pub start : ℤ
  pub last_equity : ℤ
  pub closed_on : Text
  pub positions : List Position
  pub orders : List Order
  pub events : List Event
  pub seq : ℕ

-- NewBook
abbrev pub new_book : ℤ → Book
new_book start = record {
  cash = start;
  start = start;
  last_equity = start;
  closed_on = [];
  positions = [];
  orders = [];
  events = [];
  seq = 0;
}

-- Why a call is refused.
pub data Refusal : Type 0 where
  no_order uncounted short_of_collateral bad_sets below_filled nothing_left no_position
        no_contract :
      Refusal
  closed : Status → Refusal

unfoldable pub find_order : Text → List Order → Option Order
find_order id [] = none
find_order id (order ∷ orders) =
    let rest = find_order id orders in if text_eq order.id id then some order else rest

unfoldable pub change : Text → (Order → Order) → List Order → List Order
change id f [] = []
change id f (order ∷ orders) =
    let rest = change id f orders in if text_eq order.id id then f order ∷ orders else order ∷ rest

-- reserved: everything that stands fills at its limit, and one order more; `skipped` names an order
-- to leave out.
abbrev pub with_extra : Option Order → Projection → Projection
with_extra none after = after
with_extra (some order) after = add_order order order.quantity after

unfoldable pub reserved : Book → Option Order → (Text → Bool) → Projection
reserved book extra skipped = settled_projection (
    with_extra extra
      (add_standing skipped book.orders (record { positions = book.positions; cash = book.cash })))

abbrev pub nobody : Text → Bool
nobody id = false

-- Whether cash covers a requirement.
pub data Cover : Type 0 where
  covered short unknown : Cover

abbrev pub cover : ℤ → Demand → Cover
cover cash unreadable = unknown
cover cash endless = short
cover cash (needs need) = if ltb_frac (whole cash) need then short else covered

abbrev pub cover_of : Projection → Cover
cover_of after = cover after.cash (requirement after.positions)

abbrev pub appended : Book → Order → Book
appended book order = record book { seq = suc book.seq; orders = book.orders ++ order ∷ [] }

abbrev pub named_by : Text → Text → Text
named_by [] id = id
named_by (c ∷ s) id = c ∷ s

abbrev pub submitted : Book → Order → Text → Order
submitted book order id = record order {
  turn_ref = turn_of order.client_id;
  seq = suc book.seq;
  id = named_by order.id id;
  status = Status.new;
}

abbrev pub submit_covered : Book → Order → Text → Cover → Book × (Refusal ⊎ Order)
submit_covered book order id unknown = (book, inl uncounted)
submit_covered book order id short = (book, inl short_of_collateral)
submit_covered book order id covered =
    (appended book (submitted book order id), inr (submitted book order id))

-- Submit, under a fresh identifier.
unfoldable pub submit : Book → Order → Text → Book × (Refusal ⊎ Order)
submit book order id = submit_covered book order id (cover_of (reserved book (some order) nobody))

abbrev pub fill_event : Text → ℕ → ℤ → ℕ → Event
fill_event id sets price now = record {
  order_id = id;
  kind = EventKind.fill;
  symbol = [];
  at = now;
  sets = pos sets;
  price = price;
  fees = 0;
  filled = false;
  why = Reason.no_reason;
}

-- An order with sets more filled.
abbrev pub filled_with : ℕ → ℤ → ℕ → Order → Order
filled_with sets price now order = record order {
  fees = order.fees + fees_on order.legs sets;
  filled_average =
      divide (plus (times order.filled_quantity order.filled_average) (whole (scale sets price)))
        (order.filled_quantity + sets);
  filled_quantity = order.filled_quantity + sets;
  filled_at = some now;
  why = Reason.no_reason;
  status =
      if leb order.quantity (order.filled_quantity + sets)
      then Status.filled
      else Status.partially_filled;
}

abbrev pub with_reason : Reason → Order → Order
with_reason why order = record order { why = why }

abbrev pub cash_after : Book → Order → ℕ → ℤ → ℤ
cash_after book order sets price = book.cash -ℤ cost_at price sets -ℤ pos (fees_on order.legs sets)

abbrev pub fill_covered : Book → Order → ℕ → ℤ → (Text → ℤ) → ℕ → Cover → Book × (Refusal ⊎ Event)
fill_covered book order sets price leg_price now unknown = (
  record book { orders = change order.id (with_reason Reason.uncounted) book.orders },
  inl uncounted,
)
fill_covered book order sets price leg_price now short =
    let e = record (fill_event order.id sets price now) { why = Reason.short_of_collateral } in
    (
      record book {
        orders = change order.id (with_reason Reason.short_of_collateral) book.orders;
        events = book.events ++ e ∷ [];
      },
      inr e,
    )
fill_covered book order sets price leg_price now covered =
    let e = record (fill_event order.id sets price now) {
      fees = fees_on order.legs sets;
      filled = true;
    } in
    (
      record book {
        positions = apply order.legs sets leg_price book.positions;
        cash = cash_after book order sets price;
        orders = change order.id (filled_with sets price now) book.orders;
        events = book.events ++ e ∷ [];
      },
      inr e,
    )

-- Fill, of an order that was found.
unfoldable pub fill_found : Book → Order → ℕ → ℤ → (Text → ℤ) → ℕ → Book × (Refusal ⊎ Event)
fill_found book order sets price leg_price now =
    if not (is_open order)
    then (book, inl (closed order.status))
    else (if ltb sets 1 || ltb (remaining order) sets
        then (book, inl bad_sets)
        else fill_covered book order sets price leg_price now (
            cover (cash_after book order sets price)
              (requirement (project book.positions order.legs sets))))

abbrev pub or_no_order {ℓ} :
    {A : Type ℓ} → Book → Option Order → (Order → Book × (Refusal ⊎ A)) → Book × (Refusal ⊎ A)
or_no_order book none go = (book, inl no_order)
or_no_order book (some order) go = go order

-- Fill
unfoldable pub fill : Book → Text → ℕ → ℤ → (Text → ℤ) → ℕ → Book × (Refusal ⊎ Event)
fill book id sets price leg_price now =
    or_no_order book (find_order id book.orders)
      (λ order. fill_found book order sets price leg_price now)
