-- ===== src/Arena/Book/Calls.antt =====
-- The calls that change a book, in any order: testbed/proxy/book.go and expiry.go.
use swiftward_alpaca_options.Prelude.{ℕ, ◌≤◌, ◌≡◌, Option, List, [], ◌∷◌}
use swiftward_alpaca_options.Prelude.Int.{ℤ}
use swiftward_alpaca_options.Prelude.Text.{Text}
use swiftward_alpaca_options.Arena.Order.{Note, Order}
use swiftward_alpaca_options.Arena.Book.{Book, submit, fill}
use swiftward_alpaca_options.Arena.Amend.{cancel, replace, note, mark_stand}
use swiftward_alpaca_options.Arena.Day.{expire_day, set_marks, mark_close}
use swiftward_alpaca_options.Arena.Expiry.{settle}

pub data Call : Type 0 where
  submits : Order → Text → Call
  fills : Text → ℕ → ℤ → (Text → ℤ) → ℕ → Call
  cancels : Text → ℕ → Call
  replaces : Text → ℤ → Text → ℕ → Text → ℕ → Call
  notes : Text → Note → Call
  stands : Text → Call
  expires : ℕ → Call
  marks : (Text → Option ℤ) → Call
  closes : Text → ℤ → Call
  settles : Text → ℕ → ℕ → Call

unfoldable pub step : Book → Call → Book
step book (submits order id) = (submit book order id).0
step book (fills id sets price leg_price now) = (fill book id sets price leg_price now).0
step book (cancels id now) = (cancel book id now).0
step book (replaces id limit client_id quantity fresh now) =
    (replace book id limit client_id quantity fresh now).0
step book (notes id why) = note book id why
step book (stands id) = mark_stand book id
step book (expires now) = (expire_day book now).0
step book (marks prices) = set_marks book prices
step book (closes day equity) = (mark_close book day equity).0
step book (settles symbol under now) = (settle book symbol under now).0

unfoldable pub run : Book → List Call → Book
run book [] = book
run book (call ∷ calls) = run (step book call) calls

-- An order is submitted with nothing filled, for a set at least.
abbrev pub IsProper : Call → Type 0
IsProper (submits order id) = (order.filled_quantity ≡ 0) × (1 ≤ order.quantity)
IsProper call = Unit
