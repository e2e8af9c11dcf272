-- ===== src/Arena/Book/Backed.antt =====
-- What an accepted order may become of a book: reserved and Submit of testbed/proxy/book.go.
use swiftward_alpaca_options.Prelude.{
  ℕ, ◌-◌, ◌*◌, if◌then◌else◌, ◌≡◌, refl, ap, ◌∙◌, Bool, true, false, not, ◌&&◌, Option, none, some,
  List, [], ◌∷◌, ◌++◌, inl, inr, ltb, Bool-cases, arith,
}
use swiftward_alpaca_options.Prelude.Int.{ℤ, pos, neg, scale, ◌+ℤ◌, ◌-ℤ◌, ◌≤ℤ◌, int_laws}
use swiftward_alpaca_options.Prelude.Text.{Text}
use swiftward_alpaca_options.Arena.Order.{
  Side, buy, sell, Leg, Position, Order, is_open, remaining, signed, contracts_in,
}
use swiftward_alpaca_options.Arena.Contract.{parse_occ}
use mathlib.Core.Path.{subst}
use swiftward_alpaca_options.Arena.Account.{
  Projection, hold, hold_all, add_order, add_standing, settled_projection,
}
use swiftward_alpaca_options.Arena.Risk.{Key}
use swiftward_alpaca_options.Arena.Risk.Groups.{value}
use swiftward_alpaca_options.Arena.Risk.Held.{
  AreOptions, hold-AreOptions, contract_value, value-hold, value-held_only, hold_all-AreOptions,
  held_only-AreOptions,
}
use swiftward_alpaca_options.Arena.Book.{
  Book, Refusal, Cover, covered, short, unknown, cover_of, reserved, with_extra, nobody, appended,
  submitted, submit_covered, submit,
}
use swiftward_alpaca_options.Arena.Book.Covers.{covered_backs}

-- What stands, with an order more at the end.
add_standing_last :
    (skipped : Text → Bool) (orders : List Order) (order : Order) (after : Projection)
    → is_open order ≡ true
    → skipped order.id ≡ false
    → add_standing skipped (orders ++ order ∷ []) after
      ≡ add_order order (remaining order) (add_standing skipped orders after)
unfolding add_standing
add_standing_last skipped [] order after live stays = rw (live, stays) refl
add_standing_last skipped (one ∷ orders) order after live stays =
    add_standing_last skipped orders order _ live stays

reserved-appended :
    (book : Book) (order : Order) (id : Text)
    → order.filled_quantity ≡ 0
    → reserved (appended book (submitted book order id)) none nobody
      ≡ reserved book (some order) nobody
unfolding reserved
reserved-appended book order id e = ap settled_projection (
    add_standing_last nobody book.orders (submitted book order id) start refl refl
    ∙ ap (λ n. add_order order n (add_standing nobody book.orders start))
        (whole_order order.quantity order.filled_quantity e))
  where
    start : Projection
    start = record { positions = book.positions; cash = book.cash }

    whole_order : (n m : ℕ) → m ≡ 0 → n - m ≡ n
    whole_order n m e = omega (arith, e)

add_order-AreOptions :
    (order : Order) (sets : ℕ) (after : Projection)
    → AreOptions after.positions
    → AreOptions (add_order order sets after).positions
add_order-AreOptions order sets after h = elim (Bool-cases (ltb sets 1)) [
  | inl nothing ↦ rw nothing h
  | inr something ↦ rw something (hold_all-AreOptions order.legs sets after.positions h)
]

add_standing-AreOptions :
    (skipped : Text → Bool) (orders : List Order) (after : Projection)
    → AreOptions after.positions
    → AreOptions (add_standing skipped orders after).positions
unfolding add_standing
add_standing-AreOptions skipped [] after h = h
add_standing-AreOptions skipped (order ∷ orders) after h =
    add_standing-AreOptions skipped orders _
      (elim (Bool-cases (is_open order && not (skipped order.id))) [
        | inl stands ↦ rw stands (add_order-AreOptions order (remaining order) after h)
        | inr out ↦ rw out h
      ])

reserved-AreOptions :
    (book : Book) (extra : Option Order) (skipped : Text → Bool)
    → AreOptions book.positions
    → AreOptions (reserved book extra skipped).positions
unfolding reserved
reserved-AreOptions book extra skipped h =
    held_only-AreOptions _
      (with_extra-AreOptions extra _ (add_standing-AreOptions skipped book.orders _ h))
  where
    with_extra-AreOptions :
        (extra : Option Order) (after : Projection)
        → AreOptions after.positions
        → AreOptions (with_extra extra after).positions
    with_extra-AreOptions none after h = h
    with_extra-AreOptions (some order) after h = add_order-AreOptions order order.quantity after h

-- So many sets of the legs, at a settlement: a hundred shares to a contract, which pays what it is in
-- the money by, to the one who bought it.
abbrev pub held_by : Side → ℕ → ℤ
held_by buy n = pos n
held_by sell n = neg (pos n)

unfoldable pub legs_worth : (Key → ℕ) → List Leg → ℕ → ℤ
legs_worth prices [] sets = pos 0
legs_worth prices (leg ∷ legs) sets =
    contract_value prices (parse_occ leg.symbol) (held_by leg.side (leg.ratio * sets))
    +ℤ legs_worth prices legs sets

-- What sets of an order are worth at a settlement, less what they cost at its limit and in fees.
abbrev pub gain_of : (Key → ℕ) → Order → ℕ → ℤ
gain_of prices order sets =
    legs_worth prices order.legs sets
    -ℤ scale (sets * 100) order.limit
    -ℤ pos (contracts_in order.legs sets * 25)

-- Of every order that is open what is left of it.
unfoldable pub gains : (Key → ℕ) → List Order → ℤ
gains prices [] = pos 0
gains prices (order ∷ orders) =
    let rest = gains prices orders in
    if is_open order && ltb 0 (remaining order)
    then gain_of prices order (remaining order) +ℤ rest
    else rest

-- A book and its standing orders: were they all to fill at their limits, the cash would pay for the
-- contracts held then, at every settlement of the underlyings.
abbrev pub IsBacked : Book → Type 0
IsBacked book =
    (prices : Key → ℕ)
    → pos 0 ≤ℤ book.cash +ℤ value prices book.positions +ℤ gains prices book.orders

-- What a book as it would be comes to at a settlement.
abbrev net : (Key → ℕ) → Projection → ℤ
net prices after = after.cash +ℤ value prices after.positions

value-hold_all :
    (prices : Key → ℕ) (legs : List Leg) (sets : ℕ) (ps : List Position)
    → AreOptions ps
    → value prices (hold_all legs sets ps) ≡ legs_worth prices legs sets +ℤ value prices ps
unfolding hold_all legs_worth
value-hold_all prices [] sets ps h = nothing (value prices ps)
  where
    nothing : (a : ℤ) → a ≡ pos 0 +ℤ a
    nothing a = omega int_laws
value-hold_all prices (leg ∷ legs) sets ps h =
    value-hold_all prices legs sets (hold leg sets ps) (hold-AreOptions leg sets ps h)
    ∙ ap (λ v. legs_worth prices legs sets +ℤ v) (value-hold prices leg sets ps h)
    ∙ ap
        (λ q.
          legs_worth prices legs sets
          +ℤ (contract_value prices (parse_occ leg.symbol) q +ℤ value prices ps))
        (by_side leg.side)
    ∙ turn (legs_worth prices legs sets) _ (value prices ps)
  where
    by_side :
        (side : Side) → signed (record leg { side = side }) sets ≡ held_by side (leg.ratio * sets)
    by_side buy = refl
    by_side sell = refl

    turn : (a b c : ℤ) → a +ℤ (b +ℤ c) ≡ b +ℤ a +ℤ c
    turn a b c = omega int_laws

net-add_order :
    (prices : Key → ℕ) (order : Order) (sets : ℕ) (after : Projection)
    → AreOptions after.positions
    → ltb 0 sets ≡ true
    → net prices (add_order order sets after) ≡ net prices after +ℤ gain_of prices order sets
net-add_order prices order sets after h some_sets =
    let enough : ltb sets 1 ≡ false = ground arith in
    rw enough (
      ap
        (λ v.
          after.cash
          -ℤ (scale (sets * 100) order.limit +ℤ pos (contracts_in order.legs sets * 25))
          +ℤ v)
        (value-hold_all prices order.legs sets after.positions h)
      ∙ shift after.cash (scale (sets * 100) order.limit) (pos (contracts_in order.legs sets * 25))
          (legs_worth prices order.legs sets) (value prices after.positions))
  where
    shift : (a b c d e : ℤ) → a -ℤ (b +ℤ c) +ℤ (d +ℤ e) ≡ a +ℤ e +ℤ (d -ℤ b -ℤ c)
    shift a b c d e = omega int_laws

net-add_standing :
    (prices : Key → ℕ) (orders : List Order) (after : Projection)
    → AreOptions after.positions
    → net prices (add_standing nobody orders after) ≡ net prices after +ℤ gains prices orders
unfolding add_standing gains
net-add_standing prices [] after h = nothing (net prices after)
  where
    nothing : (a : ℤ) → a ≡ a +ℤ pos 0
    nothing a = omega int_laws
net-add_standing prices (order ∷ orders) after h =
    by_state (net-add_standing prices orders) (is_open order) (ltb 0 (remaining order)) refl
  where
    rest : ℤ
    rest = gains prices orders

    none_left : ltb 0 (remaining order) ≡ false → add_order order (remaining order) after ≡ after
    none_left full = let done : ltb (remaining order) 1 ≡ true = ground arith in rw done refl

    assoc : (a b c : ℤ) → a +ℤ b +ℤ c ≡ a +ℤ (b +ℤ c)
    assoc a b c = omega int_laws

    by_state :
        ((start : Projection)
          → AreOptions start.positions
          → net prices (add_standing nobody orders start) ≡ net prices start +ℤ rest)
        → (live more : Bool) → ltb 0 (remaining order) ≡ more
        → net prices (
            add_standing nobody orders
              (if live && true then add_order order (remaining order) after else after))
          ≡ net prices after
            +ℤ (if live && more then gain_of prices order (remaining order) +ℤ rest else rest)
    by_state ih false more e = ih after h
    by_state ih true false e =
        ap (λ t. net prices (add_standing nobody orders t)) (none_left e) ∙ ih after h
    by_state ih true true e =
        ih (add_order order (remaining order) after)
          (add_order-AreOptions order (remaining order) after h)
        ∙ ap (λ v. v +ℤ rest) (net-add_order prices order (remaining order) after h e)
        ∙ assoc (net prices after) (gain_of prices order (remaining order)) rest

net-reserved :
    (prices : Key → ℕ) (book : Book)
    → AreOptions book.positions
    → net prices (reserved book none nobody)
      ≡ book.cash +ℤ value prices book.positions +ℤ gains prices book.orders
unfolding reserved
net-reserved prices book h =
    let start : Projection = record { positions = book.positions; cash = book.cash } in
    let standing = add_standing nobody book.orders start in
    ap (λ v. standing.cash +ℤ v)
      (value-held_only prices standing.positions
        (add_standing-AreOptions nobody book.orders start h))
    ∙ net-add_standing prices book.orders start h

reserved-IsBacked :
    (book : Book)
    → AreOptions book.positions
    → cover_of (reserved book none nobody) ≡ covered
    → IsBacked book
reserved-IsBacked book h e prices =
    subst (λ v. pos 0 ≤ℤ v) (net-reserved prices book h)
      (covered_backs (reserved book none nobody).cash (reserved book none nobody).positions
        (reserved-AreOptions book none nobody h) e prices)

-- When an order with nothing filled is accepted by a book that holds options only, the book after it
-- is backed: were what is left of every open order, the new one among them, to fill at its limit, then at
-- every settlement of the underlyings the cash, less what the fills cost and the fees on their
-- contracts, and the worth of what is held and of what is filled, are together nothing or more.
pub submit-IsBacked :
    (book : Book) (order placed : Order) (id : Text)
    → order.filled_quantity ≡ 0
    → AreOptions book.positions
    → (submit book order id).1 ≡ inr placed
    → IsBacked (submit book order id).0
unfolding submit
submit-IsBacked book order placed id e h accepted =
    by_cover (cover_of (reserved book (some order) nobody)) refl accepted
  where
    refused : (r : Refusal) → ¬ (inl r ≡ inr placed)
    refused r e = cc

    by_cover :
        (c : Cover)
        → cover_of (reserved book (some order) nobody) ≡ c
        → (submit_covered book order id c).1 ≡ inr placed
        → IsBacked (submit_covered book order id c).0
    by_cover unknown q a = absurd (refused _ a)
    by_cover short q a = absurd (refused _ a)
    by_cover covered q a =
        reserved-IsBacked (appended book (submitted book order id)) h
          (ap cover_of (reserved-appended book order id e) ∙ q)
