-- ===== src/Arena/Book/Moved.antt =====
-- What a move of an order keeps: Replace of testbed/proxy/book.go.
use swiftward_alpaca_options.Prelude.{
  ℕ, ◌+◌, ◌-◌, ◌<◌, ◌≡◌, refl, sym, ap, ◌∙◌, true, false, ◌&&◌, some, [], ◌∷◌, ◌++◌, ltb, ◌==◌,
  if◌then◌else◌, ◌⊎◌, inl, inr, Bool-cases, Option-cases, arith,
}
use swiftward_alpaca_options.Prelude.Int.{ℤ}
use swiftward_alpaca_options.Prelude.Text.{Text, text_eq}
use swiftward_alpaca_options.Arena.Order.{Order, is_open}
use swiftward_alpaca_options.Arena.Book.{
  Book, Refusal, Cover, covered, short, unknown, cover_of, reserved, find_order, change,
}
use swiftward_alpaca_options.Arena.Amend.{
  replacement, replaced_by_order, replace_covered, left_of, replace_found, replace,
}
use swiftward_alpaca_options.Arena.Order.{Status, Reason}
use swiftward_alpaca_options.Arena.Book.Cases.{find_order_id}
use mathlib.Core.Option.{some-injective}
use mathlib.Core.List.{List, append_assoc}
use mathlib.Core.Path.{Path, subst}

abbrev accepted_by : Refusal ⊎ Order → Order → Order
accepted_by (inl why) order = order
accepted_by (inr next) order = next

inr-injective : (a b : Order) (e : Path (Refusal ⊎ Order) (inr a) (inr b)) → a ≡ b
inr-injective a b e i = accepted_by (e i) a

-- The size that is asked for: without one, that of the order that is moved.
abbrev pub size_asked : Order → ℕ → ℕ
size_asked old quantity = if quantity == 0 then old.quantity else quantity

-- An order takes the place of another: the same legs, for what is not filled of the size that is asked
-- for, at the limit that is asked for; it stands last in the book, open, and the old order stands where
-- it stood, as replaced by it.
abbrev pub IsSuccessor : Book → Book → Order → ℤ → ℕ → ℕ → Order → Type 0
IsSuccessor book after old limit quantity now next =
    (before : List Order) × (behind : List Order) × (is_open old ≡ true)
    × (is_open next ≡ true)
    × (next.legs ≡ old.legs)
    × (next.limit ≡ limit)
    × (next.replaces ≡ old.id)
    × (next.filled_quantity ≡ 0)
    × (0 < next.quantity)
    × (old.filled_quantity + next.quantity ≡ size_asked old quantity)
    × (book.orders ≡ before ++ old ∷ behind)
    × (after.orders
        ≡ before
          ++ record old {
            status = Status.replaced;
            canceled_at = some now;
            replaced_by = next.id;
            why = Reason.moved;
          }
            ∷ (behind ++ next ∷ []))

-- Where an order is found, and what a change of it leaves.
change_place :
    (id : Text) (f : Order → Order) (orders : List Order) (order : Order)
    → find_order id orders ≡ some order
    → (before : List Order) × (behind : List Order) × (orders ≡ before ++ order ∷ behind)
      × (change id f orders ≡ before ++ f order ∷ behind)
unfolding find_order change
change_place id f [] order e = cc
change_place id f (one ∷ orders) order e = elim (Bool-cases (text_eq one.id id)) [
  | inl same ↦
      let here : one ≡ order = some-injective _ _ (rw same at e) in
      ([], orders, ap (λ o. o ∷ orders) here, rw same (ap (λ o. f o ∷ orders) here))
  | inr other ↦
      let (before, behind, all, changed) = change_place id f orders order (rw other at e) in
      (one ∷ before, behind, ap (λ os. one ∷ os) all, rw other (ap (λ os. one ∷ os) changed))
]

module _ (book : Book) (limit : ℤ) (client_id : Text) (quantity : ℕ) (fresh : Text) (now : ℕ)
    (next : Order) where
  refused : (why : Refusal) → ¬ (inl why ≡ inr next)
  refused why e = cc

  found_moved :
      (old : Order)
      → find_order old.id book.orders ≡ some old
      → (replace_found book old limit client_id quantity fresh now).1 ≡ inr next
      → IsSuccessor book
          (replace_found book old limit client_id quantity fresh now).0
          old
          limit
          quantity
          now
          next
  unfolding replace_found
  found_moved old found e = elim (Bool-cases (is_open old)) [
    | inr shut ↦ absurd (refused _ (rw shut at e))
    | inl live ↦ elim (Bool-cases (ltb 0 quantity && ltb quantity old.filled_quantity)) [
      | inl below ↦ absurd (refused _ (rw (live, below) at e))
      | inr above ↦ elim (Bool-cases (ltb (left_of old quantity) 1)) [
        | inl nothing ↦ absurd (refused _ (rw (live, above, nothing) at e))
        | inr something ↦
            let same : replace_found book old limit client_id quantity fresh now
                ≡ replace_covered book old one now judged =
              rw (live, above, something) refl in
            subst (λ r. r.1 ≡ inr next → IsSuccessor book r.0 old limit quantity now next)
              (sym same)
              (by_cover live (left_adds quantity old.quantity old.filled_quantity above something)
                judged)
              e
      ]
    ]
  ]
    where
      one : Order
      one = replacement book old limit client_id (left_of old quantity) fresh now

      judged : Cover
      judged = cover_of (reserved book (some one) (text_eq old.id))

      left_adds :
          (asked whole filled : ℕ)
          → (ltb 0 asked && ltb asked filled) ≡ false
          → ltb (if asked == 0 then whole - filled else asked - filled) 1 ≡ false
          → (0 < (if asked == 0 then whole - filled else asked - filled))
            × (filled + (if asked == 0 then whole - filled else asked - filled)
                ≡ (if asked == 0 then whole else asked))
      left_adds asked whole filled h k = (ground arith, ground arith)

      by_cover :
          is_open old ≡ true
          → (0 < left_of old quantity)
            × (old.filled_quantity + left_of old quantity ≡ size_asked old quantity)
          → (c : Cover) → (replace_covered book old one now c).1 ≡ inr next
          → IsSuccessor book (replace_covered book old one now c).0 old limit quantity now next
      by_cover live sizes unknown e = absurd (refused _ e)
      by_cover live sizes short e = absurd (refused _ e)
      by_cover live sizes covered e =
          let (before, behind, all, changed) =
            change_place old.id (replaced_by_order one.id now) book.orders old found in
          subst
            (IsSuccessor book (replace_covered book old one now covered).0 old limit quantity now)
            (inr-injective one next e)
            (
              before,
              behind,
              live,
              refl,
              refl,
              refl,
              refl,
              refl,
              sizes.0,
              sizes.1,
              all,
              ap (λ os. os ++ one ∷ []) changed
                  ∙ append_assoc before (replaced_by_order one.id now old ∷ behind) (one ∷ []),
            )

  -- Where a move is accepted there was an open order of that identifier, and the order that takes its
  -- place is open, at the limit that was asked for, with its legs, nothing filled, and a size that makes
  -- up, with what the old order had filled, exactly the size that was asked for, or the old size where
  -- none was. It stands last in the book; the old order stands where it stood, closed as replaced by
  -- it at the moment of the move; and no other order is touched.
  pub replace-IsSuccessor :
      (id : Text)
      → (replace book id limit client_id quantity fresh now).1 ≡ inr next
      → (old : Order) × (find_order id book.orders ≡ some old)
        × IsSuccessor book
            (replace book id limit client_id quantity fresh now).0
            old
            limit
            quantity
            now
            next
  unfolding replace
  replace-IsSuccessor id e = elim (Option-cases (find_order id book.orders)) [
    | inl missing ↦ absurd (refused _ (rw missing at e))
    | inr (old, found) ↦
        rw found
          (old, refl, found_moved old (find_order_id id book.orders old found) (rw found at e))
  ]
