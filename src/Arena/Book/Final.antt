-- ===== src/Arena/Book/Final.antt =====
-- An order that is closed stays as it is: testbed/proxy/book.go.
use swiftward_alpaca_options.Prelude.{
  ℕ, ◌≡◌, refl, sym, ap, ◌∙◌, Bool, true, false, ◌&&◌, ◌⊎◌, inl, inr, some, List, [], ◌∷◌, ◌++◌,
  arith, Bool-cases,
}
use swiftward_alpaca_options.Prelude.Int.{ℤ}
use swiftward_alpaca_options.Prelude.Text.{Text, codes, text_eq}
use swiftward_alpaca_options.Arena.Order.{Order, is_open, is_open_status, Note}
use swiftward_alpaca_options.Arena.Book.{
  Book, find_order, change, Cover, covered, short, unknown, cover_of, reserved, nobody,
  submit_covered, submit, fill_covered, fill,
}
use swiftward_alpaca_options.Arena.Amend.{
  mark_stand, noted_if_open, note, canceled_at_time, replacement, replaced_by_order,
  replace_covered, left_of, replace,
}
use swiftward_alpaca_options.Arena.Day.{expire_all, expire_day, outlived, is_over, set_marks}
use swiftward_alpaca_options.Arena.Book.Cases.{fill_cases, cancel_cases, replace_cases}
use swiftward_alpaca_options.Arena.Book.Sound.{settle_orders, mark_close_orders}
use swiftward_alpaca_options.Arena.Book.Calls.{
  Call, submits, fills, cancels, replaces, notes, stands, expires, marks, closes, settles, step,
  run,
}
use mathlib.Core.Option.{some-injective}

-- Two records of an order that say the same of its fate.
abbrev pub SameFate : Order → Order → Type 0
SameFate a b =
    (b.status ≡ a.status)
    × (b.quantity ≡ a.quantity)
    × (b.filled_quantity ≡ a.filled_quantity)
    × (b.filled_average ≡ a.filled_average)
    × (b.fees ≡ a.fees)
    × (b.limit ≡ a.limit)
    × (b.replaced_by ≡ a.replaced_by)

same_fate : (a : Order) → SameFate a a
same_fate a = (refl, refl, refl, refl, refl, refl, refl)

-- An order is still found, with the same fate.
abbrev pub Keeps : Text → Order → List Order → Type 0
Keeps id order orders = (later : Order) × (find_order id orders ≡ some later) × SameFate order later

-- What a change makes of an order that is found.
find-change :
    (id key : Text) (f : Order → Order) (orders : List Order) (order : Order)
    → ((o : Order) → (f o).id ≡ o.id)
    → find_order id orders ≡ some order
    → (find_order id (change key f orders) ≡ some order)
      ⊎ ((find_order id (change key f orders) ≡ some (f order))
          × (find_order key orders ≡ some order))
unfolding find_order change
find-change id key f [] order keeps e = cc
find-change id key f (one ∷ orders) order keeps e = elim (Bool-cases (text_eq one.id key)) [
  | inl hit ↦ elim (Bool-cases (text_eq one.id id)) [
    | inl same ↦
        let here = ap (λ name. text_eq name id) (keeps one) ∙ same in
        inr (
          rw (hit, here) (ap (λ o. some (f o)) (some-injective _ _ (rw same at e))),
          rw hit (rw same at e),
        )
    | inr other ↦
        let here = ap (λ name. text_eq name id) (keeps one) ∙ other in
        inl (rw (hit, here) (rw other at e))
  ]
  | inr miss ↦ elim (Bool-cases (text_eq one.id id)) [
    | inl same ↦ inl (rw (miss, same) (rw same at e))
    | inr other ↦ rw (miss, other) (find-change id key f orders order keeps (rw other at e))
  ]
]

find-append :
    (id : Text) (orders more : List Order) (order : Order)
    → find_order id orders ≡ some order
    → find_order id (orders ++ more) ≡ some order
unfolding find_order
find-append id [] more order e = cc
find-append id (one ∷ orders) more order e = elim (Bool-cases (text_eq one.id id)) [
  | inl same ↦ rw same (rw same at e)
  | inr other ↦ rw other (find-append id orders more order (rw other at e))
]

find-expire_all :
    (id : Text) (now : ℕ) (orders : List Order) (order : Order)
    → find_order id orders ≡ some order
    → is_open order ≡ false
    → find_order id (expire_all now orders) ≡ some order
unfolding find_order expire_all
find-expire_all id now [] order e shut = cc
find-expire_all id now (one ∷ orders) order e shut = elim (Bool-cases (outlived now one)) [
  | inl gone ↦ elim (Bool-cases (text_eq one.id id)) [
    | inl same ↦ absurd (
        contra (some-injective _ _ (rw same at e)) (
          first (is_open one) (text_eq one.time_in_force (codes "day")) (is_over now one.expires_at)
            gone))
    | inr other ↦ rw (gone, other) (find-expire_all id now orders order (rw other at e) shut)
  ]
  | inr stays ↦ elim (Bool-cases (text_eq one.id id)) [
    | inl same ↦ rw (stays, same) (rw same at e)
    | inr other ↦ rw (stays, other) (find-expire_all id now orders order (rw other at e) shut)
  ]
]
  where
    contra : one ≡ order → is_open one ≡ true → ⊥
    contra e live = cc (sym live ∙ ap (λ (o : Order). is_open o) e ∙ shut)

    first : (a b c : Bool) → (a && b && c) ≡ true → a ≡ true
    first a b c e = ground arith

module _ (id : Text) (order : Order) (shut : is_open order ≡ false) where
  kept : (orders : List Order) → find_order id orders ≡ some order → Keeps id order orders
  kept orders e = (order, e, same_fate order)

  -- An open order that changes is another one.
  kept_change :
      (orders : List Order) (old : Order) (f : Order → Order)
      → ((o : Order) → (f o).id ≡ o.id)
      → find_order id orders ≡ some order
      → find_order old.id orders ≡ some old
      → is_open old ≡ true
      → find_order id (change old.id f orders) ≡ some order
  kept_change orders old f keeps e found live =
      elim (find-change id old.id f orders order keeps e) [
        | inl same ↦ same
        | inr (changed, hit) ↦ absurd (contra (some-injective _ _ (sym found ∙ hit)))
      ]
    where
      contra : old ≡ order → ⊥
      contra e = cc (sym live ∙ ap (λ (o : Order). is_open o) e ∙ shut)

  fill-Keeps :
      (book : Book) (key : Text) (sets : ℕ) (price : ℤ) (leg_price : Text → ℤ) (now : ℕ)
      → find_order id book.orders ≡ some order
      → Keeps id order (fill book key sets price leg_price now).0.orders
  fill-Keeps book key sets price leg_price now e =
      fill_cases (λ b. Keeps id order b.orders) book key (kept book.orders e) sets price leg_price
        now (λ old found live some_sets room c _. by_cover old found live c)
    where
      by_cover :
          (old : Order)
          → find_order old.id book.orders ≡ some old
          → is_open old ≡ true
          → (c : Cover) → Keeps id order (fill_covered book old sets price leg_price now c).0.orders
      by_cover old found live unknown =
          kept _ (kept_change book.orders old _ (λ o. refl) e found live)
      by_cover old found live short =
          kept _ (kept_change book.orders old _ (λ o. refl) e found live)
      by_cover old found live covered =
          kept _ (kept_change book.orders old _ (λ o. refl) e found live)

  replace-Keeps :
      (book : Book) (key : Text) (limit : ℤ) (client_id : Text) (quantity : ℕ) (fresh : Text)
      (now : ℕ)
      → find_order id book.orders ≡ some order
      → Keeps id order (replace book key limit client_id quantity fresh now).0.orders
  replace-Keeps book key limit client_id quantity fresh now e =
      replace_cases (λ b. Keeps id order b.orders) book key (kept book.orders e) limit client_id
        quantity fresh now (λ old found live some_sets c _. by_cover old found live c)
    where
      by_cover :
          (old : Order)
          → find_order old.id book.orders ≡ some old
          → is_open old ≡ true
          → (c : Cover)
          → Keeps id order
              (replace_covered book old
                (replacement book old limit client_id (left_of old quantity) fresh now)
                now
                c).0.orders
      by_cover old found live unknown = kept _ e
      by_cover old found live short = kept _ e
      by_cover old found live covered = kept _ (
          find-append id _ _ order
            (kept_change book.orders old (replaced_by_order fresh now) (λ o. refl) e found live))

  submit-Keeps :
      (book : Book) (one : Order) (fresh : Text)
      → find_order id book.orders ≡ some order
      → Keeps id order (submit book one fresh).0.orders
  unfolding submit
  submit-Keeps book one fresh e = by_cover (cover_of (reserved book (some one) nobody))
    where
      by_cover : (c : Cover) → Keeps id order (submit_covered book one fresh c).0.orders
      by_cover unknown = kept _ e
      by_cover short = kept _ e
      by_cover covered = kept _ (find-append id book.orders _ order e)

  note-Keeps :
      (book : Book) (key : Text) (why : Note)
      → find_order id book.orders ≡ some order
      → Keeps id order (note book key why).orders
  unfolding note
  note-Keeps book key why e =
      elim (find-change id key (noted_if_open why) book.orders order named e) [
        | inl same ↦ kept _ same
        | inr (changed, hit) ↦ kept _ (changed ∙ ap some unchanged)
      ]
    where
      named : (o : Order) → (noted_if_open why o).id ≡ o.id
      named o = elim (Bool-cases (is_open o)) [ inl live ↦ rw live | inr closed ↦ rw closed ]

      unchanged : noted_if_open why order ≡ order
      unchanged = rw shut

  stand-Keeps :
      (book : Book) (key : Text)
      → find_order id book.orders ≡ some order
      → Keeps id order (mark_stand book key).orders
  unfolding mark_stand
  stand-Keeps book key e =
      elim (find-change id key (λ o. record o { stand = true }) book.orders order (λ o. refl) e) [
        | inl same ↦ kept _ same
        | inr (changed, hit) ↦ (record order { stand = true }, changed, same_fate order)
      ]

-- An order that is closed is closed for good: whatever is called, it is found as before, with the same
-- status, size, fills, fees, price and successor.
pub step-Keeps :
    (book : Book) (call : Call) (id : Text) (order : Order)
    → find_order id book.orders ≡ some order
    → is_open order ≡ false
    → Keeps id order (step book call).orders
unfolding step set_marks expire_day
step-Keeps book (submits one fresh) id order e shut = submit-Keeps id order shut book one fresh e
step-Keeps book (fills key sets price leg_price now) id order e shut =
    fill-Keeps id order shut book key sets price leg_price now e
step-Keeps book (cancels key now) id order e shut =
    cancel_cases (λ b. Keeps id order b.orders) book key (kept id order shut book.orders e) now
      (λ old found live.
        kept id order shut _ (
          kept_change id order shut book.orders old (canceled_at_time now) (λ o. refl) e found
            live))
step-Keeps book (replaces key limit client_id quantity fresh now) id order e shut =
    replace-Keeps id order shut book key limit client_id quantity fresh now e
step-Keeps book (notes key why) id order e shut = note-Keeps id order shut book key why e
step-Keeps book (stands key) id order e shut = stand-Keeps id order shut book key e
step-Keeps book (expires now) id order e shut =
    kept id order shut (expire_all now book.orders)
      (find-expire_all id now book.orders order e shut)
step-Keeps book (marks prices) id order e shut = kept id order shut book.orders e
step-Keeps book (closes day equity) id order e shut =
    rw (mark_close_orders book day equity) (kept id order shut book.orders e)
step-Keeps book (settles symbol under now) id order e shut =
    rw (settle_orders book symbol under now) (kept id order shut book.orders e)

Keeps-trans :
    (id : Text) (a b : Order) (orders : List Order)
    → SameFate a b
    → Keeps id b orders
    → Keeps id a orders
Keeps-trans id a b orders s (later, e, t) =
    (later, e, (t.0 ∙ s.0, t.1 ∙ s.1, t.2 ∙ s.2, t.3 ∙ s.3, t.4 ∙ s.4, t.5 ∙ s.5, t.6 ∙ s.6))

-- An order that is closed is closed for good: after any history of calls, it is found under its
-- identifier, with the same status, size, fills, average price, fees, limit and successor.
pub run-Keeps :
    (calls : List Call) (book : Book) (id : Text) (order : Order)
    → find_order id book.orders ≡ some order
    → is_open order ≡ false
    → Keeps id order (run book calls).orders
unfolding run
run-Keeps [] book id order e shut = (order, e, same_fate order)
run-Keeps (call ∷ calls) book id order e shut =
    let (later, found, same) = step-Keeps book call id order e shut in
    Keeps-trans id order later _ same
      (run-Keeps calls (step book call) id later found (ap is_open_status same.0 ∙ shut))
