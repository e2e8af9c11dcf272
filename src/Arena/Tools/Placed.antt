-- ===== src/Arena/Tools/Placed.antt =====
-- What an accepted order is like, and that it is accepted once: placeOrder of testbed/proxy/tools.go.
use swiftward_alpaca_options.Prelude.{
  ℕ, ◌≤◌, ◌≡◌, refl, sym, ◌∙◌, true, not, Option, none, some, List, [], ◌∷◌, ◌++◌, all, map, ◌⊎◌,
  inl, inr, Bool-cases, Option-cases, All,
}
use swiftward_alpaca_options.Prelude.Int.{ℤ}
use swiftward_alpaca_options.Prelude.Text.{Text, text_eq, text_eq_self, trim_space}
use swiftward_alpaca_options.Arena.Order.{Leg, Order, parse_count}
use swiftward_alpaca_options.Arena.Book.{
  Book, Cover, covered, short, unknown, cover_of, reserved, nobody, appended, submitted,
  submit_covered, submit,
}
use swiftward_alpaca_options.Arena.Day.{find_client, by_client_id}
use swiftward_alpaca_options.Arena.Match.{Quote, executable}
use swiftward_alpaca_options.Arena.Tools.{
  OrderArgs, Session, Rejection, taken, legs_of, is_market, limit_asked, limit_from, is_none,
  new_order, answer_of, needing, place_asked, place_order,
}
use swiftward_alpaca_options.Arena.Tools.Legs.{IsReadable, parse_count_positive, legs_of-IsReadable}
use mathlib.Core.Path.{Path, subst}

-- A call that needs something either is turned down or has it.
needing_cases {ℓ} :
    {A : Type ℓ} (P : Book × (Rejection ⊎ Order) → Type 0) (book : Book) (why : Rejection)
    (o : Option A) (go : A → Book × (Rejection ⊎ Order))
    → P (book, inl why)
    → ((a : A) → o ≡ some a → P (go a))
    → P (needing book why o go)
needing_cases P book why none go declined k = declined
needing_cases P book why (some a) go declined k = k a refl

module _ (parse_float : Text → Option ℤ) (session : Option Session)
    (quotes : List Text → Option (Text → Option Quote)) (max_age : ℕ) where
  -- Either the call is turned down and the book is as it was, or an order of this shape is submitted,
  -- under a name that no order has.
  place_order_cases :
      (P : Book × (Rejection ⊎ Order) → Type 0) (args : OrderArgs) (book : Book) (id : Text)
      → ((why : Rejection) → P (book, inl why))
      → ((legs : List Leg) (sets : ℕ) (asked : Option ℤ) (limit : ℤ) (now : Session)
          → All IsReadable legs
          → 1 ≤ sets
          → by_client_id book args.client_order_id ≡ none
          → P (answer_of (submit book (new_order args legs sets asked limit now) id)))
      → P (place_order parse_float session quotes max_age args book id)
  unfolding place_order place_asked
  place_order_cases P args book id declined k =
      needing_cases P book _ (legs_of args args.legs) _ (declined _) (λ legs is_legs.
        needing_cases P book _ (parse_count (trim_space args.quantity)) _ (declined _)
          (λ sets is_sets.
            needing_cases P book _
              (limit_asked parse_float (is_market args.kind) (trim_space args.limit_price)) _
              (declined _)
              (λ asked is_asked. elim (Option-cases (by_client_id book args.client_order_id)) [
                | inr (other, known) ↦ rw known (declined taken)
                | inl free ↦ rw free (
                    needing_cases P book _ session _ (declined _) (λ now is_now.
                      needing_cases P book _ (quotes (map (λ leg. leg.symbol) legs)) _ (declined _)
                        (λ shown is_shown.
                          elim (Bool-cases (all (λ leg. not (is_none (shown leg.symbol))) legs)) [
                            | inr missing ↦ rw missing (declined _)
                            | inl quoted ↦ rw quoted (
                                needing_cases P book _
                                  (limit_from asked (executable true max_age now.now shown [] legs))
                                  _ (declined _)
                                  (λ limit is_limit.
                                    k legs sets asked limit now
                                      (legs_of-IsReadable args args.legs legs is_legs)
                                      (parse_count_positive (trim_space args.quantity) sets is_sets)
                                      free))
                          ])))
              ])))

abbrev accepted_by : Rejection ⊎ Order → Order → Order
accepted_by (inl why) order = order
accepted_by (inr placed) order = placed

inr-injective : (a b : Order) (e : Path (Rejection ⊎ Order) (inr a) (inr b)) → a ≡ b
inr-injective a b e i = accepted_by (e i) a

-- What an accepted order is like, of the arguments and of the book before and after.
abbrev pub IsPlaced : OrderArgs → Book → Book → Order → Type 0
IsPlaced args book after placed =
    (1 ≤ placed.quantity)
    × (placed.filled_quantity ≡ 0)
    × All IsReadable placed.legs
    × (placed.client_id ≡ args.client_order_id)
    × (by_client_id book args.client_order_id ≡ none)
    × (after.orders ≡ book.orders ++ placed ∷ [])

-- An order that placeOrder accepts asks for a set at least, has nothing filled, has legs of contracts
-- that can be read, in ratios of one at least, stands last in the book, and bears the caller's name,
-- which, unless it is empty, no order of the book bore before.
pub place_order-IsPlaced :
    (parse_float : Text → Option ℤ) (session : Option Session)
    (quotes : List Text → Option (Text → Option Quote)) (max_age : ℕ) (args : OrderArgs)
    (book : Book) (id : Text) (placed : Order)
    → (place_order parse_float session quotes max_age args book id).1 ≡ inr placed
    → IsPlaced args book (place_order parse_float session quotes max_age args book id).0 placed
unfolding submit
place_order-IsPlaced parse_float session quotes max_age args book id placed =
    place_order_cases parse_float session quotes max_age
      (λ r. r.1 ≡ inr placed → IsPlaced args book r.0 placed) args book id
      (λ why e. absurd (declined why e))
      (λ legs sets asked limit now readable some_sets free.
        by_submit (new_order args legs sets asked limit now) readable some_sets free refl refl)
  where
    declined : (why : Rejection) → ¬ (inl why ≡ inr placed)
    declined why e = cc

    by_submit :
        (order : Order)
        → All IsReadable order.legs
        → 1 ≤ order.quantity
        → by_client_id book args.client_order_id ≡ none
        → order.client_id ≡ args.client_order_id
        → order.filled_quantity ≡ 0
        → (answer_of (submit book order id)).1 ≡ inr placed
        → IsPlaced args book (answer_of (submit book order id)).0 placed
    by_submit order readable some_sets free name empty =
        by_cover (cover_of (reserved book (some order) nobody))
      where
        by_cover :
            (c : Cover)
            → (answer_of (submit_covered book order id c)).1 ≡ inr placed
            → IsPlaced args book (answer_of (submit_covered book order id c)).0 placed
        by_cover unknown e = absurd (declined _ e)
        by_cover short e = absurd (declined _ e)
        by_cover covered e =
            subst (λ o. IsPlaced args book (appended book (submitted book order id)) o)
              (inr-injective (submitted book order id) placed e)
              (some_sets, empty, readable, name, free, refl)

find_client-append :
    (name : Text) (orders : List Order) (order : Order)
    → order.client_id ≡ name
    → ¬ (find_client name (orders ++ order ∷ []) ≡ none)
unfolding find_client
find_client-append name [] order e h =
    contra (rw (subst (λ s. text_eq s name ≡ true) (sym e) (text_eq_self name)) at h)
  where
    contra : ¬ (some order ≡ none)
    contra e = cc
find_client-append name (one ∷ orders) order e h = elim (Bool-cases (text_eq one.client_id name)) [
  | inl same ↦ contra (rw same at h)
  | inr other ↦ find_client-append name orders order e (rw other at h)
]
  where
    contra : ¬ (some one ≡ none)
    contra e = cc

-- An order that is sent again is not placed again: once a call with a name has been accepted, another
-- call on the book that it leaves, with that name, whatever else it asks and whatever the market shows
-- then, is turned down, and that book stays as it is. The name is not empty.
pub place_order_once :
    (parse_float : Text → Option ℤ) (session then_session : Option Session)
    (quotes then_quotes : List Text → Option (Text → Option Quote)) (max_age : ℕ)
    (args later : OrderArgs) (book : Book) (id next : Text) (placed : Order) (c : ℕ) (name : Text)
    → args.client_order_id ≡ c ∷ name
    → later.client_order_id ≡ c ∷ name
    → (place_order parse_float session quotes max_age args book id).1 ≡ inr placed
    → let after = (place_order parse_float session quotes max_age args book id).0 in
      (why : Rejection) × (place_order parse_float then_session then_quotes max_age later after next
        ≡ (after, inl why))
unfolding by_client_id
place_order_once parse_float session then_session quotes then_quotes max_age args later book id next
      placed c name e f accepted =
    let after = (place_order parse_float session quotes max_age args book id).0 in
    let (_, _, _, named, _, last) =
      place_order-IsPlaced parse_float session quotes max_age args book id placed accepted in
    place_order_cases parse_float then_session then_quotes max_age
      (λ r. (why : Rejection) × (r ≡ (after, inl why))) later after next (λ why. (why, refl))
      (λ legs sets asked limit now _ _ free.
        absurd (known after last (named ∙ e) (subst (λ s. by_client_id after s ≡ none) f free)))
  where
    known :
        (after : Book)
        → after.orders ≡ book.orders ++ placed ∷ []
        → placed.client_id ≡ c ∷ name
        → ¬ (by_client_id after (c ∷ name) ≡ none)
    known after last named h = find_client-append (c ∷ name) book.orders placed named (rw last at h)
