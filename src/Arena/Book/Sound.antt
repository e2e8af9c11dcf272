-- ===== src/Arena/Book/Sound.antt =====
-- The invariant of a book's orders: testbed/proxy/book.go.
use swiftward_alpaca_options.Prelude.{
  ℕ, ◌+◌, ◌≤◌, ◌<◌, ◌≡◌, refl, Bool, true, false, ◌&&◌, inl, inr, Option, none, some, List, [], ◌∷◌,
  arith, ltb, leb, if◌then◌else◌, Bool-cases, All,
}
use swiftward_alpaca_options.Prelude.Int.{ℤ}
use swiftward_alpaca_options.Prelude.Text.{Text, codes, text_eq}
use swiftward_alpaca_options.Arena.Order.{
  Status, Order, Position, is_open, is_open_status, remaining,
}
use swiftward_alpaca_options.Arena.Order.{Status}
use swiftward_alpaca_options.Arena.Book.{
  Book, find_order, change, Cover, covered, short, unknown, cover_of, reserved, nobody, submitted,
  submit_covered, submit, filled_with, fill_covered, fill,
}
use swiftward_alpaca_options.Arena.Amend.{
  mark_stand, noted_if_open, note, canceled_at_time, cancel, replacement, replaced_by_order,
  replace_covered, left_of, replace,
}
use swiftward_alpaca_options.Arena.Day.{
  expire_all, expire_day, outlived, is_over, set_marks, mark_close,
}
use swiftward_alpaca_options.Arena.Expiry.{
  find_position, settle, settle_found, settle_read, settle_contract, worth_of, is_cash_settled,
}
use swiftward_alpaca_options.Arena.Contract.{Occ, parse_occ}
use swiftward_alpaca_options.Arena.Book.Cases.{fill_cases, cancel_cases, replace_cases}
use swiftward_alpaca_options.Arena.Book.Calls.{
  Call, submits, fills, cancels, replaces, notes, stands, expires, marks, closes, settles, step,
  run, IsProper,
}
use swiftward_alpaca_options.Arena.Book.Stored.{
  find_order-All, All-change, All-change_any, All-snoc,
}

-- What a status says of the sets that are filled.
abbrev pub Fits : Status → ℕ → ℕ → Type 0
Fits Status.new filled quantity = (filled ≡ 0) × (0 < quantity)
Fits Status.partially_filled filled quantity = (0 < filled) × (filled < quantity)
Fits Status.filled filled quantity = (0 < filled) × (filled ≡ quantity)
Fits _ filled quantity = filled < quantity

abbrev pub IsSound : Order → Type 0
IsSound order = Fits order.status order.filled_quantity order.quantity

-- An open order has something left.
some_left :
    (status : Status) (filled quantity : ℕ)
    → is_open_status status ≡ true
    → Fits status filled quantity
    → filled < quantity
some_left Status.new filled quantity h f = omega (arith, f)
some_left Status.partially_filled filled quantity h f = f.1
some_left Status.filled filled quantity h f = cc
some_left Status.canceled filled quantity h f = f
some_left Status.expired filled quantity h f = f
some_left Status.replaced filled quantity h f = f

abbrev pub AreSound : Book → Type 0
AreSound book = All IsSound book.orders

submit-AreSound :
    (book : Book) (order : Order) (id : Text)
    → order.filled_quantity ≡ 0
    → 1 ≤ order.quantity
    → AreSound book
    → AreSound (submit book order id).0
unfolding submit
submit-AreSound book order id e q h = by_cover (cover_of (reserved book (some order) nobody))
  where
    by_cover : (c : Cover) → AreSound (submit_covered book order id c).0
    by_cover unknown = h
    by_cover short = h
    by_cover covered = All-snoc IsSound book.orders (submitted book order id) h (e, q)

filled_with-IsSound :
    (sets : ℕ) (price : ℤ) (now : ℕ) (order : Order)
    → 0 < sets
    → sets ≤ remaining order
    → IsSound (filled_with sets price now order)
filled_with-IsSound sets price now order some_sets room =
    elim (Bool-cases (leb order.quantity (order.filled_quantity + sets))) [
      | inl all ↦ rw all (ground arith)
      | inr part ↦ rw part (ground arith)
    ]

fill-AreSound :
    (book : Book) (id : Text) (sets : ℕ) (price : ℤ) (leg_price : Text → ℤ) (now : ℕ)
    → AreSound book
    → AreSound (fill book id sets price leg_price now).0
fill-AreSound book id sets price leg_price now h =
    fill_cases AreSound book id h sets price leg_price now
      (λ order found live some_sets room c _. by_cover order found some_sets room c)
  where
    by_cover :
        (order : Order)
        → find_order order.id book.orders ≡ some order
        → 0 < sets
        → sets ≤ remaining order
        → (c : Cover) → AreSound (fill_covered book order sets price leg_price now c).0
    by_cover order found some_sets room unknown =
        All-change IsSound order.id _ book.orders order found
          (find_order-All IsSound order.id book.orders order found h) h
    by_cover order found some_sets room short =
        All-change IsSound order.id _ book.orders order found
          (find_order-All IsSound order.id book.orders order found h) h
    by_cover order found some_sets room covered =
        All-change IsSound order.id _ book.orders order found
          (filled_with-IsSound sets price now order some_sets room) h

closed-AreSound :
    (book : Book) (order : Order) (f : Order → Order)
    → find_order order.id book.orders ≡ some order
    → is_open order ≡ true
    → (order.filled_quantity < order.quantity → IsSound (f order))
    → AreSound book
    → All IsSound (change order.id f book.orders)
closed-AreSound book order f found live sound h =
    All-change IsSound order.id f book.orders order found
      (sound (
        some_left order.status order.filled_quantity order.quantity live
          (find_order-All IsSound order.id book.orders order found h)))
      h

cancel-AreSound :
    (book : Book) (id : Text) (now : ℕ) → AreSound book → AreSound (cancel book id now).0
cancel-AreSound book id now h = cancel_cases AreSound book id h now (λ order found live.
    closed-AreSound book order (canceled_at_time now) found live (λ left. left) h)

replace-AreSound :
    (book : Book) (id : Text) (limit : ℤ) (client_id : Text) (quantity : ℕ) (fresh : Text) (now : ℕ)
    → AreSound book
    → AreSound (replace book id limit client_id quantity fresh now).0
replace-AreSound book id limit client_id quantity fresh now h =
    replace_cases AreSound book id h limit client_id quantity fresh now
      (λ old found live some_sets c _. by_cover old found live some_sets c)
  where
    by_cover :
        (old : Order)
        → find_order old.id book.orders ≡ some old
        → is_open old ≡ true
        → 0 < left_of old quantity
        → (c : Cover)
        → AreSound
            (replace_covered book old
              (replacement book old limit client_id (left_of old quantity) fresh now)
              now
              c).0
    by_cover old found live some_sets unknown = h
    by_cover old found live some_sets short = h
    by_cover old found live some_sets covered =
        All-snoc IsSound _ (replacement book old limit client_id (left_of old quantity) fresh now)
          (closed-AreSound book old (replaced_by_order fresh now) found live (λ left. left) h)
          (refl, some_sets)

expire_all-All :
    (now : ℕ) (orders : List Order) → All IsSound orders → All IsSound (expire_all now orders)
unfolding expire_all
expire_all-All now [] h = tt
expire_all-All now (order ∷ orders) h = elim (Bool-cases (outlived now order)) [
  | inl gone ↦ rw gone (
    some_left order.status order.filled_quantity order.quantity
        (first (is_open order) (text_eq order.time_in_force (codes "day"))
          (is_over now order.expires_at) gone)
        h.0,
    expire_all-All now orders h.1,
  )
  | inr stays ↦ rw stays (h.0, expire_all-All now orders h.1)
]
  where
    first : (a b c : Bool) → (a && b && c) ≡ true → a ≡ true
    first a b c e = ground arith

-- Settlement leaves the orders as they are.
pub settle_orders :
    (book : Book) (symbol : Text) (under now : ℕ)
    → (settle book symbol under now).0.orders ≡ book.orders
unfolding settle settle_contract
settle_orders book symbol under now = by_position (find_position symbol book.positions)
  where
    by_contract :
        (p : Position) (o : Option Occ) → (settle_read book p under now o).0.orders ≡ book.orders
    by_contract p none = refl
    by_contract p (some c) =
        by_tests (ltb (worth_of c under) 10) (is_cash_settled c.root) _ _ _ refl refl refl
      where
        by_tests :
            {A : Type 0} (small cash : Bool) (x y z : Book × A)
            → x.0.orders ≡ book.orders
            → y.0.orders ≡ book.orders
            → z.0.orders ≡ book.orders
            → (if small then x else (if cash then y else z)).0.orders ≡ book.orders
        by_tests true cash x y z a b c = a
        by_tests false true x y z a b c = b
        by_tests false false x y z a b c = c

    by_position :
        (o : Option Position) → (settle_found book symbol under now o).0.orders ≡ book.orders
    by_position none = refl
    by_position (some p) = by_contract p (parse_occ symbol)

pub mark_close_orders :
    (book : Book) (day : Text) (equity : ℤ) → (mark_close book day equity).0.orders ≡ book.orders
unfolding mark_close
mark_close_orders book day equity = elim (Bool-cases (text_eq book.closed_on day)) [
  | inl done ↦ rw done
  | inr new ↦ rw new
]

abbrev stands_still : Order → Order
stands_still order = record order { stand = true }

-- Every call keeps every order sound: its status tells how much of it is filled.
pub step-AreSound :
    (book : Book) (call : Call) → IsProper call → AreSound book → AreSound (step book call)
unfolding step note mark_stand set_marks expire_day
step-AreSound book (submits order id) p h = submit-AreSound book order id p.0 p.1 h
step-AreSound book (fills id sets price leg_price now) p h =
    fill-AreSound book id sets price leg_price now h
step-AreSound book (cancels id now) p h = cancel-AreSound book id now h
step-AreSound book (replaces id limit client_id quantity fresh now) p h =
    replace-AreSound book id limit client_id quantity fresh now h
step-AreSound book (notes id why) p h =
    All-change_any IsSound id (noted_if_open why) book.orders noted_same h
  where
    noted_same : (order : Order) → IsSound order → IsSound (noted_if_open why order)
    noted_same order s = elim (Bool-cases (is_open order)) [
      | inl live ↦ rw live s
      | inr shut ↦ rw shut s
    ]
step-AreSound book (stands id) p h =
    All-change_any IsSound id stands_still book.orders (λ order s. s) h
step-AreSound book (expires now) p h = expire_all-All now book.orders h
step-AreSound book (marks prices) p h = h
step-AreSound book (closes day equity) p h = rw (mark_close_orders book day equity) h
step-AreSound book (settles symbol under now) p h = rw (settle_orders book symbol under now) h

-- Where the status of every order of a book tells how much of it is filled, as in a new book, it does
-- after any history of calls in which what is submitted is not empty and has nothing filled: nothing of a new one, a part of a
-- partial one, all of a filled one, and not all of one that was cancelled, has expired or was replaced.
pub run-AreSound :
    (book : Book) (calls : List Call)
    → All IsProper calls
    → AreSound book
    → AreSound (run book calls)
unfolding run
run-AreSound book [] p h = h
run-AreSound book (call ∷ calls) p h =
    run-AreSound (step book call) calls p.1 (step-AreSound book call p.0 h)
