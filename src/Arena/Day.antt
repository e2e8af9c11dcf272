-- ===== src/Arena/Day.antt =====
-- What a book does at the end of a day, and how it is read: ExpireDay, SetMarks, MarkClose,
-- AccruedFees, ByID, ByClientID and OpenOrders of testbed/proxy/book.go.
pub mod Expired
use swiftward_alpaca_options.Prelude.{
  ℕ, ◌+◌, Bool, true, false, not, ◌&&◌, ◌||◌, Option, none, some, List, [], ◌∷◌, ◌++◌, ltb,
  if◌then◌else◌,
}
use swiftward_alpaca_options.Prelude.Int.{ℤ, pos, ltb_ℤ}
use swiftward_alpaca_options.Prelude.Text.{Text, codes, text_eq}
use swiftward_alpaca_options.Arena.Order.{Status, Reason, Position, Order, is_open}
use swiftward_alpaca_options.Arena.Order.{Status, Reason}
use swiftward_alpaca_options.Arena.Book.{Book, find_order}

-- A day order whose session is over.
abbrev pub is_over : ℕ → Option ℕ → Bool
is_over now none = false
is_over now (some end) = not (ltb now end)

abbrev pub outlived : ℕ → Order → Bool
outlived now order =
    is_open order && text_eq order.time_in_force (codes "day") && is_over now order.expires_at

abbrev pub expired_at : ℕ → Order → Order
expired_at now order = record order {
  status = Status.expired;
  canceled_at = some now;
  why = Reason.session_ended;
}

unfoldable pub expire_all : ℕ → List Order → List Order
expire_all now [] = []
expire_all now (order ∷ orders) =
    (if outlived now order then expired_at now order else order) ∷ expire_all now orders

unfoldable pub gone_of : ℕ → List Order → List Order
gone_of now [] = []
gone_of now (order ∷ orders) =
    let rest = gone_of now orders in
    if outlived now order then expired_at now order ∷ rest else rest

-- ExpireDay
unfoldable pub expire_day : Book → ℕ → Book × List Order
expire_day book now = (record book { orders = expire_all now book.orders }, gone_of now book.orders)

-- SetMarks: a price that is known and more than nothing.
abbrev pub marked : Position → Option ℤ → Position
marked p none = p
marked p (some price) = if ltb_ℤ (pos 0) price then record p { mark = price } else p

unfoldable pub mark_all : (Text → Option ℤ) → List Position → List Position
mark_all marks [] = []
mark_all marks (p ∷ ps) = marked p (marks p.symbol) ∷ mark_all marks ps

unfoldable pub set_marks : Book → (Text → Option ℤ) → Book
set_marks book marks = record book { positions = mark_all marks book.positions }

-- MarkClose: once a day.
unfoldable pub mark_close : Book → Text → ℤ → Book × Bool
mark_close book day equity =
    if text_eq book.closed_on day
    then (book, false)
    else (record book { closed_on = day; last_equity = equity }, true)

unfoldable pub fees_of : List Order → ℕ
fees_of [] = 0
fees_of (order ∷ orders) = order.fees + fees_of orders

-- AccruedFees, in mills.
unfoldable pub accrued_fees : Book → ℕ
accrued_fees book = fees_of book.orders

-- ByID
unfoldable pub by_id : Book → Text → Option Order
by_id book id = find_order id book.orders

unfoldable pub find_client : Text → List Order → Option Order
find_client name [] = none
find_client name (order ∷ orders) =
    let rest = find_client name orders in if text_eq order.client_id name then some order else rest

-- ByClientID
unfoldable pub by_client_id : Book → Text → Option Order
by_client_id book [] = none
by_client_id book (c ∷ name) = find_client (c ∷ name) book.orders

unfoldable pub open_of : List Order → List Order
open_of [] = []
open_of (order ∷ orders) = let rest = open_of orders in if is_open order then order ∷ rest else rest

-- OpenOrders
unfoldable pub open_orders : Book → List Order
open_orders book = open_of book.orders
