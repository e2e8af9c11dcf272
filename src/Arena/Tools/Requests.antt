-- ===== src/Arena/Tools/Requests.antt =====
-- How an order is moved, cancelled and looked up: replaceOrder, cancelOrder, getOrders and touches of
-- testbed/proxy/tools.go. Where the clock cannot be read the time of the machine is taken instead.
use swiftward_alpaca_options.Prelude.{
  ℕ, Bool, true, false, not, ◌&&◌, ◌||◌, Option, none, some, List, [], ◌∷◌, any, take,
  if◌then◌else◌, ◌⊎◌, inl,
}
use swiftward_alpaca_options.Prelude.Int.{ℤ, pos, pos_part, leb_ℤ}
use swiftward_alpaca_options.Prelude.Text.{Text, codes, text_eq, trim_space, to_upper, to_lower}
use swiftward_alpaca_options.Execution.Name.{split_by}
use swiftward_alpaca_options.Arena.Order.{Order, is_open, parse_count}
use swiftward_alpaca_options.Arena.Contract.{Occ, parse_occ}
use swiftward_alpaca_options.Arena.Book.{Book, no_order}
use swiftward_alpaca_options.Arena.Amend.{replace, cancel}
use swiftward_alpaca_options.Arena.Day.{by_id, by_client_id}
use swiftward_alpaca_options.Arena.Tools.{
  Session, Rejection, bad_price, bad_quantity, taken, refused, or_default, answer_of, needing,
}
use mathlib.Core.List.{reverse}

pub record MoveArgs : Type 0 where
  pub order_id : Text
  pub limit_price : Text
  pub quantity : Text
  pub client_order_id : Text

abbrev pub time_of : ℕ → Option Session → ℕ
time_of machine none = machine
time_of machine (some session) = session.now

-- What is not said stays as it was.
abbrev pub limit_for : (Text → Option ℤ) → ℤ → Text → Option ℤ
limit_for parse_float was [] = some was
limit_for parse_float was (c ∷ s) = parse_float (c ∷ s)

abbrev pub size_for : Text → Option ℕ
size_for [] = some 0
size_for (c ∷ s) = parse_count (c ∷ s)

abbrev pub is_others : Order → Option Order → Bool
is_others was none = false
is_others was (some other) = not (text_eq other.id was.id)

module _ (machine : ℕ) (session : Option Session) where
  -- cancelOrder
  unfoldable pub cancel_order : Text → Book → Book × (Rejection ⊎ Order)
  cancel_order id book = answer_of (cancel book (trim_space id) (time_of machine session))

  -- replaceOrder, under a fresh identifier.
  unfoldable pub replace_order :
      (Text → Option ℤ) → MoveArgs → Book → Text → Book × (Rejection ⊎ Order)
  replace_order parse_float args book fresh =
      needing book (refused no_order) (by_id book (trim_space args.order_id)) (λ was.
        needing book bad_price (limit_for parse_float was.limit (trim_space args.limit_price))
          (λ limit. needing book bad_quantity (size_for (trim_space args.quantity)) (λ quantity.
            if is_others was (by_client_id book args.client_order_id)
            then (book, inl taken)
            else answer_of (
                replace book was.id limit args.client_order_id quantity fresh
                  (time_of machine session)))))

pub record Query : Type 0 where
  pub status : Text
  pub limit : ℤ
  pub direction : Text
  pub symbols : Text

abbrev pub is_comma : ℕ → Bool
is_comma c = text_eq (c ∷ []) (codes ",")

abbrev pub cons_symbol : Text → List Text → List Text
cons_symbol [] wanted = wanted
cons_symbol (c ∷ s) wanted = (c ∷ s) ∷ wanted

unfoldable pub wanted_in : List Text → List Text
wanted_in [] = []
wanted_in (field ∷ fields) = cons_symbol (trim_space (to_upper field)) (wanted_in fields)

abbrev pub is_wanted : List Text → Text → Bool
is_wanted wanted symbol = any (text_eq symbol) wanted

abbrev pub root_wanted : List Text → Option Occ → Bool
root_wanted wanted none = false
root_wanted wanted (some c) = is_wanted wanted c.root

-- touches
unfoldable pub touches : List Text → Order → Bool
touches wanted order =
    any (λ leg. is_wanted wanted leg.symbol || root_wanted wanted (parse_occ leg.symbol)) order.legs

abbrev pub has_status : Text → Order → Bool
has_status status order =
    if text_eq status (codes "open")
    then is_open order
    else (if text_eq status (codes "closed") then not (is_open order) else true)

abbrev pub any_symbol : List Text → Order → Bool
any_symbol [] order = true
any_symbol (one ∷ wanted) order = touches (one ∷ wanted) order

unfoldable pub rows_of : Text → List Text → List Order → List Order
rows_of status wanted [] = []
rows_of status wanted (order ∷ orders) =
    let rest = rows_of status wanted orders in
    if has_status status order && any_symbol wanted order then order ∷ rest else rest

-- getOrders: the orders of the answer.
unfoldable pub get_orders : Query → Book → List Order
get_orders query book =
    let rows =
      rows_of (or_default query.status (codes "open")) (wanted_in (split_by is_comma query.symbols))
        book.orders in
    let most = if leb_ℤ query.limit (pos 0) then 50 else pos_part query.limit in
    take most (if text_eq (to_lower query.direction) (codes "asc") then rows else reverse rows)
