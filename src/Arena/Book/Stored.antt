-- ===== src/Arena/Book/Stored.antt =====
-- What holds of every order of a book, and a change of one of them: testbed/proxy/book.go.
use swiftward_alpaca_options.Prelude.{
  ◌≡◌, sym, inl, inr, some, List, [], ◌∷◌, ◌++◌, Bool-cases, All,
}
use swiftward_alpaca_options.Prelude.Text.{Text, text_eq}
use swiftward_alpaca_options.Arena.Order.{Order}
use swiftward_alpaca_options.Arena.Book.{find_order, change}
use mathlib.Core.Path.{subst}
use mathlib.Core.Option.{some-injective}

pub find_order-All :
    (P : Order → Type 0) (id : Text) (orders : List Order) (order : Order)
    → find_order id orders ≡ some order
    → All P orders
    → P order
unfolding find_order
find_order-All P id [] order e h = cc
find_order-All P id (one ∷ orders) order e h = elim (Bool-cases (text_eq one.id id)) [
  | inl same ↦ found one order (rw same at e) h.0
  | inr other ↦ find_order-All P id orders order (rw other at e) h.1
]
  where
    found : (a b : Order) → some a ≡ some b → P a → P b
    found a b e p = subst P (some-injective _ _ e) p

-- A change of the order that is found.
pub All-change :
    (P : Order → Type 0) (id : Text) (f : Order → Order) (orders : List Order) (order : Order)
    → find_order id orders ≡ some order
    → P (f order)
    → All P orders
    → All P (change id f orders)
unfolding find_order change
All-change P id f [] order e q h = cc
All-change P id f (one ∷ orders) order e q h = elim (Bool-cases (text_eq one.id id)) [
  | inl same ↦ rw same (found one order (rw same at e) q, h.1)
  | inr other ↦ rw other (h.0, All-change P id f orders order (rw other at e) q h.1)
]
  where
    found : (a b : Order) → some a ≡ some b → P (f b) → P (f a)
    found a b e p = subst (λ o. P (f o)) (sym (some-injective _ _ e)) p

pub All-change_any :
    (P : Order → Type 0) (id : Text) (f : Order → Order) (orders : List Order)
    → ((order : Order) → P order → P (f order))
    → All P orders
    → All P (change id f orders)
unfolding change
All-change_any P id f [] q h = tt
All-change_any P id f (one ∷ orders) q h = elim (Bool-cases (text_eq one.id id)) [
  | inl same ↦ rw same (q one h.0, h.1)
  | inr other ↦ rw other (h.0, All-change_any P id f orders q h.1)
]

pub All-snoc :
    (P : Order → Type 0) (orders : List Order) (order : Order)
    → All P orders
    → P order
    → All P (orders ++ order ∷ [])
All-snoc P [] order h p = (p, tt)
All-snoc P (one ∷ orders) order h p = (h.0, All-snoc P orders order h.1 p)
