-- ===== src/Arena/Round/Queue.antt =====
-- Whose turn it is: the order in which once of testbed/proxy/match.go fills what stands.
use swiftward_alpaca_options.Prelude.{
  ℕ, zero, suc, ◌+◌, ◌<◌, ◌≤◌, ◌≡◌, refl, ap, ◌∙◌, Bool, true, false, inl, inr, Option, none, some,
  List, [], ◌∷◌, ◌++◌, ◌==◌, if◌then◌else◌, arith, Bool-cases, All,
}
use swiftward_alpaca_options.Arena.Order.{Order, is_open}
use swiftward_alpaca_options.Arena.Book.{Book}
use swiftward_alpaca_options.Arena.Day.{open_orders, open_of}
use swiftward_alpaca_options.Arena.Round.{
  Standing, standing_in, all_standing, earlier, is_before, queue_of, book_at,
}
use mathlib.Core.List.{Perm, filter_map}
use mathlib.Core.List.Perm
use mathlib.Core.Option.{Option-elim}
use mathlib.Core.Path.{subst}

-- A test that orders what it is asked about: never both ways, and what comes before something comes
-- before, or after, anything else.
abbrev pub IsOrdering {ℓ} : {A : Type ℓ} → (A → A → Bool) → Type ℓ
IsOrdering {A = A} less =
    ((a b : A) → less a b ≡ true → less b a ≡ false)
    × ((a b c : A) → less a b ≡ false → less b c ≡ false → less a c ≡ false)

-- Nothing comes before what stands ahead of it.
abbrev pub IsSorted {ℓ} : {A : Type ℓ} → (A → A → Bool) → List A → Type 0
IsSorted less [] = Unit
IsSorted less (a ∷ rest) = All (λ b. less b a ≡ false) rest × IsSorted less rest

-- The sort of the standard library, and what it promises of a test that is an ordering: the same
-- elements, sorted.
pub record Sorting {ℓ} (A : Type ℓ) : Type ℓ where
  pub sort : (A → A → Bool) → List A → List A
  pub permutes : (less : A → A → Bool) (all : List A) → Perm (sort less all) all
  pub sorts : (less : A → A → Bool) (all : List A) → IsOrdering less → IsSorted less (sort less all)

-- A time may stand ahead of another: it is none, which is the first of all, or no later.
abbrev pub InTurn : Option ℕ → Option ℕ → Type 0
InTurn none b = Unit
InTurn (some a) none = ⊥
InTurn (some a) (some b) = a ≤ b

abbrev pub IsQueued : List Standing → Type 0
IsQueued [] = Unit
IsQueued (one ∷ rest) =
    All (λ other. InTurn one.order.submitted_at other.order.submitted_at) rest × IsQueued rest

-- What a queue has of one book.
abbrev pub of_book : ℕ → Standing → Option Order
of_book number one = if one.book == number then some one.order else none

-- What stands in a book, if there is one.
abbrev pub if_open : Order → Option Order
if_open order = if is_open order then some order else none

abbrev pub open_in : Option Book → List Order
open_in none = []
open_in (some book) = filter_map if_open book.orders

is_before-IsOrdering : IsOrdering is_before
is_before-IsOrdering = (
  λ a b. asym a.order.submitted_at b.order.submitted_at,
  λ a b c. trans a.order.submitted_at b.order.submitted_at c.order.submitted_at,
)
  where
    asym : (a b : Option ℕ) → earlier a b ≡ true → earlier b a ≡ false
    asym none none e = refl
    asym none (some b) e = refl
    asym (some a) none e = cc
    asym (some a) (some b) e = ground arith

    trans : (a b c : Option ℕ) → earlier a b ≡ false → earlier b c ≡ false → earlier a c ≡ false
    trans a b none e f = refl
    trans none none (some c) e f = cc
    trans none (some b) (some c) e f = cc
    trans (some a) none (some c) e f = cc
    trans (some a) (some b) (some c) e f = ground arith

sorted-IsQueued : (queue : List Standing) → IsSorted is_before queue → IsQueued queue
sorted-IsQueued [] h = tt
sorted-IsQueued (one ∷ rest) (ahead, behind) = (turns rest ahead, sorted-IsQueued rest behind)
  where
    turn : (a b : Option ℕ) → earlier b a ≡ false → InTurn a b
    turn none b e = tt
    turn (some a) none e = cc
    turn (some a) (some b) e = ground arith

    turns :
        (rest : List Standing)
        → All (λ other. is_before other one ≡ false) rest
        → All (λ other. InTurn one.order.submitted_at other.order.submitted_at) rest
    turns [] h = tt
    turns (other ∷ rest) h = (turn _ _ h.0, turns rest h.1)

of_book-append :
    (n : ℕ) (xs ys : List Standing)
    → filter_map (of_book n) (xs ++ ys) ≡ filter_map (of_book n) xs ++ filter_map (of_book n) ys
unfolding filter_map Option-elim
of_book-append n [] ys = refl
of_book-append n (one ∷ xs) ys = elim (Bool-cases (one.book == n)) [
  | inl same ↦ rw same (ap (λ os. one.order ∷ os) (of_book-append n xs ys))
  | inr other ↦ rw other (of_book-append n xs ys)
]

of_book-here :
    (n : ℕ) (orders : List Order)
    → filter_map (of_book n) (standing_in n (open_of orders)) ≡ filter_map if_open orders
unfolding filter_map Option-elim open_of
of_book-here n [] = refl
of_book-here n (order ∷ orders) =
    let same : (n == n) ≡ true = ground arith in
    elim (Bool-cases (is_open order)) [
      | inl live ↦ rw (live, same) (ap (λ os. order ∷ os) (of_book-here n orders))
      | inr shut ↦ rw shut (of_book-here n orders)
    ]

of_book-other :
    (n m : ℕ) (orders : List Order) → n < m → filter_map (of_book n) (standing_in m orders) ≡ []
unfolding filter_map Option-elim
of_book-other n m [] h = refl
of_book-other n m (order ∷ orders) h =
    let other : (m == n) ≡ false = ground arith in rw other (of_book-other n m orders h)

of_book-later :
    (n m : ℕ) (orders : List Order) → m < n → filter_map (of_book n) (standing_in m orders) ≡ []
unfolding filter_map Option-elim
of_book-later n m [] h = refl
of_book-later n m (order ∷ orders) h =
    let other : (m == n) ≡ false = ground arith in rw other (of_book-later n m orders h)

of_book-past :
    (n m : ℕ) (books : List Book) → n < m → filter_map (of_book n) (all_standing m books) ≡ []
unfolding all_standing filter_map
of_book-past n m [] h = refl
of_book-past n m (book ∷ books) h =
    of_book-append n (standing_in m (open_orders book)) (all_standing (suc m) books) ∙ (λ i.
      of_book-other n m (open_orders book) h i ++ of_book-past n (suc m) books (omega (arith, h)) i)

append_nil : (orders : List Order) → orders ++ [] ≡ orders
append_nil [] = refl
append_nil (order ∷ orders) = ap (λ os. order ∷ os) (append_nil orders)

-- Of every book there stands what is open in it.
of_book-all_standing :
    (m k : ℕ) (books : List Book)
    → filter_map (of_book (m + k)) (all_standing m books) ≡ open_in (book_at k books)
unfolding all_standing book_at filter_map open_orders
of_book-all_standing m k [] = refl
of_book-all_standing m zero (book ∷ books) =
    let here : m + 0 ≡ m = omega arith in
    ap (λ n. filter_map (of_book n) (all_standing m (book ∷ books))) here
    ∙ of_book-append m (standing_in m (open_of book.orders)) (all_standing (suc m) books)
    ∙ (λ i. of_book-here m book.orders i ++ of_book-past m (suc m) books (omega arith) i)
    ∙ append_nil (filter_map if_open book.orders)
of_book-all_standing m (suc k) (book ∷ books) =
    let next : m + suc k ≡ suc m + k = omega arith in
    of_book-append (m + suc k) (standing_in m (open_of book.orders)) (all_standing (suc m) books)
    ∙ ap (λ os. os ++ filter_map (of_book (m + suc k)) (all_standing (suc m) books))
        (of_book-later (m + suc k) m (open_of book.orders) (omega arith))
    ∙ ap (λ n. filter_map (of_book n) (all_standing (suc m) books)) next
    ∙ of_book-all_standing (suc m) k books

-- With a sort that keeps what is documented of it, the queue has of every book exactly the orders that
-- are open in it, each as often as the book, and of a book that there is not it has none; and along the
-- queue the times of submission never go back.
pub queue_of-IsQueued :
    (sorting : Sorting Standing) (books : List Book)
    → IsQueued (queue_of sorting.sort books)
      × ((number : ℕ)
          → Perm
              (filter_map (of_book number) (queue_of sorting.sort books))
              (open_in (book_at number books)))
unfolding queue_of
queue_of-IsQueued sorting books = (
  sorted-IsQueued (sorting.sort is_before (all_standing 0 books))
      (sorting.sorts is_before (all_standing 0 books) is_before-IsOrdering),
  λ number.
      subst (Perm (filter_map (of_book number) (sorting.sort is_before (all_standing 0 books))))
        (ap (λ n. filter_map (of_book n) (all_standing 0 books)) (from_zero number)
          ∙ of_book-all_standing 0 number books)
        (Perm.filter_map (of_book number) (sorting.permutes is_before (all_standing 0 books))),
)
  where
    from_zero : (n : ℕ) → n ≡ 0 + n
    from_zero n = omega arith
