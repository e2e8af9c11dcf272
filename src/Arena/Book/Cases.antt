-- ===== src/Arena/Book/Cases.antt =====
-- The ways that a call on an order can go: testbed/proxy/book.go.
use swiftward_alpaca_options.Prelude.{
  ℕ, ◌≤◌, ◌<◌, ◌≡◌, refl, sym, true, false, ◌&&◌, ◌||◌, ◌⊎◌, inl, inr, some, List, [], ◌∷◌, arith,
  ltb, Bool-cases, Option-cases,
}
use swiftward_alpaca_options.Prelude.Int.{ℤ}
use swiftward_alpaca_options.Prelude.Text.{Text, text_eq, text_eq→eq}
use swiftward_alpaca_options.Arena.Order.{Order, is_open, remaining}
use swiftward_alpaca_options.Arena.Account.{project}
use swiftward_alpaca_options.Arena.Risk.{requirement}
use swiftward_alpaca_options.Arena.Book.{
  Book, Refusal, find_order, change, Cover, cover, cover_of, reserved, cash_after, fill_covered,
  fill_found, fill, or_no_order,
}
use swiftward_alpaca_options.Arena.Amend.{
  canceled_at_time, cancel_found, cancel, replacement, replace_covered, left_of, replace_found,
  replace,
}
use mathlib.Core.Path.{subst}
use mathlib.Core.Option.{some-injective}

pub find_order_named :
    (id : Text) (orders : List Order) (order : Order)
    → find_order id orders ≡ some order
    → order.id ≡ id
unfolding find_order
find_order_named id [] order e = cc
find_order_named id (one ∷ orders) order e = elim (Bool-cases (text_eq one.id id)) [
  | inl same ↦ found one order (rw same at e) (text_eq→eq one.id id same)
  | inr other ↦ find_order_named id orders order (rw other at e)
]
  where
    found : (a b : Order) → some a ≡ some b → a.id ≡ id → b.id ≡ id
    found a b e p = subst (λ o. o.id ≡ id) (some-injective _ _ e) p

pub find_order_id :
    (id : Text) (orders : List Order) (order : Order)
    → find_order id orders ≡ some order
    → find_order order.id orders ≡ some order
find_order_id id orders order e =
    subst (λ key. find_order key orders ≡ some order) (sym (find_order_named id orders order e)) e

module _ (P : Book → Type 0) (book : Book) (id : Text) (refused : P book) where
  -- A call on an order that is looked up first.
  found_cases {ℓ} :
      {A : Type ℓ} (go : Order → Book × (Refusal ⊎ A))
      → ((order : Order)
          → find_order order.id book.orders ≡ some order
          → order.id ≡ id
          → P (go order).0)
      → P (or_no_order book (find_order id book.orders) go).0
  found_cases go k = elim (Option-cases (find_order id book.orders)) [
    | inl e ↦ rw e refused
    | inr (order, e) ↦
        rw e
          (k order (find_order_id id book.orders order e) (find_order_named id book.orders order e))
  ]

  pub fill_cases :
      (sets : ℕ) (price : ℤ) (leg_price : Text → ℤ) (now : ℕ)
      → ((order : Order)
          → find_order order.id book.orders ≡ some order
          → is_open order ≡ true
          → 0 < sets
          → sets ≤ remaining order
          → (c : Cover)
          → cover
              (cash_after book order sets price)
              (requirement (project book.positions order.legs sets))
            ≡ c
          → P (fill_covered book order sets price leg_price now c).0)
      → P (fill book id sets price leg_price now).0
  unfolding fill fill_found
  fill_cases sets price leg_price now k = found_cases _ (λ order found named.
      elim (Bool-cases (is_open order)) [
        | inr shut ↦ rw shut refused
        | inl live ↦ elim (Bool-cases (ltb sets 1 || ltb (remaining order) sets)) [
          | inl bad ↦ rw (live, bad) refused
          | inr good ↦
              rw (live, good)
                (k order found live (parts sets (remaining order) good).0
                  (parts sets (remaining order) good).1
                  (cover (cash_after book order sets price)
                    (requirement (project book.positions order.legs sets)))
                  refl)
        ]
      ])
    where
      parts : (a b : ℕ) → (ltb a 1 || ltb b a) ≡ false → (0 < a) × (a ≤ b)
      parts a b e = ground arith

  pub cancel_cases :
      (now : ℕ)
      → ((order : Order)
          → find_order order.id book.orders ≡ some order
          → is_open order ≡ true
          → P (record book { orders = change order.id (canceled_at_time now) book.orders }))
      → P (cancel book id now).0
  unfolding cancel cancel_found
  cancel_cases now k = found_cases _ (λ order found named. elim (Bool-cases (is_open order)) [
    | inr shut ↦ rw shut refused
    | inl live ↦ rw live (k order found live)
  ])

  pub replace_cases :
      (limit : ℤ) (client_id : Text) (quantity : ℕ) (fresh : Text) (now : ℕ)
      → ((old : Order)
          → find_order old.id book.orders ≡ some old
          → is_open old ≡ true
          → 0 < left_of old quantity
          → let next = replacement book old limit client_id (left_of old quantity) fresh now in
            (c : Cover)
            → cover_of (reserved book (some next) (text_eq old.id)) ≡ c
            → P (replace_covered book old next now c).0)
      → P (replace book id limit client_id quantity fresh now).0
  unfolding replace replace_found
  replace_cases limit client_id quantity fresh now k = found_cases _ (λ old found named.
      let next = replacement book old limit client_id (left_of old quantity) fresh now in
      elim (Bool-cases (is_open old)) [
        | inr shut ↦ rw shut refused
        | inl live ↦ elim (Bool-cases (ltb 0 quantity && ltb quantity old.filled_quantity)) [
          | inl below ↦ rw (live, below) refused
          | inr above ↦ elim (Bool-cases (ltb (left_of old quantity) 1)) [
            | inl nothing ↦ rw (live, above, nothing) refused
            | inr something ↦
                rw (live, above, something)
                  (k old found live (ground arith)
                    (cover_of (reserved book (some next) (text_eq old.id))) refl)
          ]
        ]
      ])
