-- ===== src/Arena/Amend.antt =====
-- How an order is changed without a fill: MarkStand, Note, Cancel and Replace of testbed/proxy/book.go.
use swiftward_alpaca_options.Prelude.{
  ℕ, suc, ◌-◌, true, false, not, ◌&&◌, none, some, [], ◌∷◌, ltb, ◌==◌, if◌then◌else◌, ◌⊎◌, inl, inr,
}
use swiftward_alpaca_options.Prelude.Int.{ℤ, pos}
use swiftward_alpaca_options.Prelude.Frac.{whole}
use swiftward_alpaca_options.Prelude.Text.{Text, text_eq}
use swiftward_alpaca_options.Arena.Order.{
  Status, Reason, noted, Note, Order, is_open, remaining, turn_of,
}
use swiftward_alpaca_options.Arena.Order.{Status, Reason}
use swiftward_alpaca_options.Arena.Book.{
  Book, Refusal, find_order, change, reserved, cover_of, appended, with_reason, or_no_order, closed,
  below_filled, nothing_left, uncounted, short_of_collateral, covered, short, unknown, Cover,
}

-- MarkStand
unfoldable pub mark_stand : Book → Text → Book
mark_stand book id = record book {
  orders = change id (λ order. record order { stand = true }) book.orders;
}

-- Note
abbrev pub noted_if_open : Note → Order → Order
noted_if_open why order = if is_open order then with_reason (noted why) order else order

unfoldable pub note : Book → Text → Note → Book
note book id why = record book { orders = change id (noted_if_open why) book.orders }

abbrev pub canceled_at_time : ℕ → Order → Order
canceled_at_time now order = record order {
  status = Status.canceled;
  canceled_at = some now;
  why = Reason.cancelled;
}

unfoldable pub cancel_found : Book → Order → ℕ → Book × (Refusal ⊎ Order)
cancel_found book order now =
    if is_open order
    then (
      record book { orders = change order.id (canceled_at_time now) book.orders },
      inr (canceled_at_time now order),
    )
    else (book, inl (closed order.status))

-- Cancel
unfoldable pub cancel : Book → Text → ℕ → Book × (Refusal ⊎ Order)
cancel book id now =
    or_no_order book (find_order id book.orders) (λ order. cancel_found book order now)

abbrev pub or_name : Text → Text → Text
or_name [] other = other
or_name (c ∷ s) other = c ∷ s

-- The order that takes the place of another, for the rest of it.
abbrev pub replacement : Book → Order → ℤ → Text → ℕ → Text → ℕ → Order
replacement book old limit client_id left id now = record {
  id = id;
  client_id = or_name client_id old.client_id;
  turn_ref = turn_of (or_name client_id old.client_id);
  status = Status.new;
  quantity = left;
  filled_quantity = 0;
  limit = limit;
  market = false;
  filled_average = whole (pos 0);
  fees = 0;
  stand = false;
  time_in_force = old.time_in_force;
  legs = old.legs;
  submitted_at = some now;
  filled_at = none;
  canceled_at = none;
  expires_at = old.expires_at;
  replaced_by = [];
  replaces = old.id;
  why = Reason.no_reason;
  seq = suc book.seq;
}

abbrev pub replaced_by_order : Text → ℕ → Order → Order
replaced_by_order id now order = record order {
  status = Status.replaced;
  canceled_at = some now;
  replaced_by = id;
  why = Reason.moved;
}

abbrev pub replace_covered : Book → Order → Order → ℕ → Cover → Book × (Refusal ⊎ Order)
replace_covered book old next now unknown = (book, inl uncounted)
replace_covered book old next now short = (book, inl short_of_collateral)
replace_covered book old next now covered = (
  appended (record book { orders = change old.id (replaced_by_order next.id now) book.orders })
      next,
  inr next,
)

-- Of the quantity asked for what is not filled; without one, what remains.
abbrev pub left_of : Order → ℕ → ℕ
left_of old quantity = if quantity == 0 then remaining old else quantity - old.filled_quantity

unfoldable pub replace_found : Book → Order → ℤ → Text → ℕ → Text → ℕ → Book × (Refusal ⊎ Order)
replace_found book old limit client_id quantity id now =
    let next = replacement book old limit client_id (left_of old quantity) id now in
    if not (is_open old)
    then (book, inl (closed old.status))
    else (if ltb 0 quantity && ltb quantity old.filled_quantity
        then (book, inl below_filled)
        else (if ltb (left_of old quantity) 1
            then (book, inl nothing_left)
            else replace_covered book old next now
                (cover_of (reserved book (some next) (text_eq old.id)))))

-- Replace; a quantity of zero is none asked for.
unfoldable pub replace : Book → Text → ℤ → Text → ℕ → Text → ℕ → Book × (Refusal ⊎ Order)
replace book id limit client_id quantity fresh now =
    or_no_order book (find_order id book.orders)
      (λ old. replace_found book old limit client_id quantity fresh now)
