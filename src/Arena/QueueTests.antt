-- ===== src/Arena/QueueTests.antt =====
-- The theorem about the queue, applied to two books and to a sort that keeps what is asked of it.
use swiftward_alpaca_options.Prelude.{
  ℕ, ◌≡◌, false, Bool, List, [], ◌∷◌, some, inl, inr, Bool-cases, All, if◌then◌else◌,
}
use swiftward_alpaca_options.Arena.Book.{Book}
use swiftward_alpaca_options.Arena.Round.{Standing, queue_of, book_at}
use swiftward_alpaca_options.Arena.Round.Queue.{
  IsOrdering, IsSorted, Sorting, IsQueued, of_book, open_in, queue_of-IsQueued,
}
use swiftward_alpaca_options.Arena.Tests.{order, start}
use mathlib.Core.List.{Perm, filter_map}
use mathlib.Core.List.Perm

module _ {ℓ} {A : Type ℓ} (less : A → A → Bool) where
  unfoldable insert : A → List A → List A
  insert one [] = one ∷ []
  insert one (other ∷ rest) =
      let later = insert one rest in if less other one then other ∷ later else one ∷ other ∷ rest

  unfoldable insertion_sort : List A → List A
  insertion_sort [] = []
  insertion_sort (one ∷ rest) = insert one (insertion_sort rest)

  insert-perm : (one : A) (rest : List A) → Perm (insert one rest) (one ∷ rest)
  unfolding insert
  insert-perm one [] = Perm.rfl
  insert-perm one (other ∷ rest) = elim (Bool-cases (less other one)) [
    | inl first ↦
        rw first (Perm.trans (Perm.cons other (insert-perm one rest)) (Perm.swap one other rest))
    | inr after ↦ rw after Perm.rfl
  ]

  insertion_sort-perm : (all : List A) → Perm (insertion_sort all) all
  unfolding insertion_sort
  insertion_sort-perm [] = Perm.rfl
  insertion_sort-perm (one ∷ rest) =
      Perm.trans (insert-perm one (insertion_sort rest)) (Perm.cons one (insertion_sort-perm rest))

  All-insert :
      (P : A → Type 0) (one : A) (rest : List A) → P one → All P rest → All P (insert one rest)
  unfolding insert
  All-insert P one [] p h = (p, tt)
  All-insert P one (other ∷ rest) p h = elim (Bool-cases (less other one)) [
    | inl first ↦ rw first (h.0, All-insert P one rest p h.1)
    | inr after ↦ rw after (p, h)
  ]

  module _ (ordering : IsOrdering less) where
    later_than :
        (a b : A) (rest : List A)
        → less b a ≡ false
        → All (λ other. less other b ≡ false) rest
        → All (λ other. less other a ≡ false) rest
    later_than a b [] e h = tt
    later_than a b (other ∷ rest) e h = (ordering.1 other b a h.0 e, later_than a b rest e h.1)

    insert-IsSorted :
        (one : A) (rest : List A) → IsSorted less rest → IsSorted less (insert one rest)
    unfolding insert
    insert-IsSorted one [] h = (tt, tt)
    insert-IsSorted one (other ∷ rest) h = elim (Bool-cases (less other one)) [
      | inl first ↦ rw first (
        All-insert (λ x. less x other ≡ false) one rest (ordering.0 other one first) h.0,
        insert-IsSorted one rest h.1,
      )
      | inr after ↦ rw after ((after, later_than one other rest after h.0), h)
    ]

    insertion_sort-IsSorted : (all : List A) → IsSorted less (insertion_sort all)
    unfolding insertion_sort
    insertion_sort-IsSorted [] = tt
    insertion_sort-IsSorted (one ∷ rest) =
        insert-IsSorted one (insertion_sort rest) (insertion_sort-IsSorted rest)

abbrev by_insertion : Sorting Standing
by_insertion = record {
  sort = insertion_sort;
  permutes = insertion_sort-perm;
  sorts = λ less all ordering. insertion_sort-IsSorted less ordering all;
}

-- The order of the second book was submitted before that of the first.
abbrev two_books : List Book
two_books =
    record start { orders = order ∷ [] }
    ∷ record start { orders = record order { submitted_at = some 50 } ∷ [] }
    ∷ []

queue_of-IsQueued_example :
    IsQueued (queue_of insertion_sort two_books)
    × ((number : ℕ)
        → Perm
            (filter_map (of_book number) (queue_of insertion_sort two_books))
            (open_in (book_at number two_books)))
queue_of-IsQueued_example = queue_of-IsQueued by_insertion two_books
