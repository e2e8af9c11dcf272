-- ===== src/Arena/Match/Limit.antt =====
-- What the matcher may do to a book: fill of testbed/proxy/match.go.
use swiftward_alpaca_options.Prelude.{
  ℕ, ◌*◌, ◌≤◌, ◌<◌, ◌≡◌, refl, sym, ◌∙◌, Bool, true, false, not, ◌&&◌, ◌||◌, Option, some, List, [],
  ◌∷◌, inl, inr, ◌⊎◌, ltb, Bool-cases, arith,
}
use swiftward_alpaca_options.Prelude.Int.{
  ℤ, pos, negsuc, ◌+ℤ◌, ◌-ℤ◌, neg, scale, ◌≤ℤ◌, ltb_ℤ, int_laws, eq_of_parts,
}
use swiftward_alpaca_options.Prelude.Text.{Text}
use mathlib.Core.Path.{subst}
use swiftward_alpaca_options.Arena.Order.{
  Side, buy, sell, Leg, Order, Event, is_open, remaining, contracts_in,
}
use swiftward_alpaca_options.Arena.Account.{apply}
use swiftward_alpaca_options.Arena.Book.{
  Book, Refusal, Cover, covered, short, unknown, find_order, fill, fill_found, fill_covered,
}
use swiftward_alpaca_options.Arena.Amend.{note, mark_stand}
use swiftward_alpaca_options.Arena.Match.{
  Quote, Shelf, Tally, price_on, cost_on, tally_leg, tally_legs, Match, stuck, tallied, executable,
  price_in, sets_for, booked, fill_match, fill_order,
}
use swiftward_alpaca_options.Arena.Match.Fair.{tally_cons, finished}

-- What a leg costs in one set: the ask of what is bought, less the bid of what is sold.
abbrev pub leg_net : Side → ℕ → Quote → ℤ
leg_net buy ratio quote = scale ratio quote.ask
leg_net sell ratio quote = neg (scale ratio quote.bid)

-- The market asks so much for one set of the legs.
abbrev pub Asks : (Text → Option Quote) → List Leg → ℤ → Type 0
Asks quotes [] price = price ≡ pos 0
Asks quotes (leg ∷ legs) price =
    (quote : Quote) × (rest : ℤ) × (quotes leg.symbol ≡ some quote)
    × (price ≡ leg_net leg.side leg.ratio quote +ℤ rest)
    × Asks quotes legs rest

-- The book holds what it held, or sets of the order were filled: no more than remain of it, at the price
-- that the market asks for a set, which is within its limit unless it is a market order. The cash has
-- paid that price for the sets, a hundred shares to a contract, and a fee for each contract; and the
-- positions are the legs' sets richer, at some prices.
abbrev pub IsWithin : (Text → Option Quote) → Order → Book → Book → Type 0
IsWithin quotes order book after =
    ((after.cash ≡ book.cash) × (after.positions ≡ book.positions))
    ⊎ ((sets : ℕ) × (price : ℤ) × (paid : Text → ℤ) × (0 < sets)
        × (sets ≤ remaining order)
        × Asks quotes order.legs price
        × ((order.market ≡ true) ⊎ (price ≤ℤ order.limit))
        × (after.cash
            ≡ book.cash -ℤ scale (sets * 100) price -ℤ pos (contracts_in order.legs sets * 25))
        × (after.positions ≡ apply order.legs sets paid book.positions))

module _ (ignore_age : Bool) (max_age now : ℕ) (quotes : Text → Option Quote)
    (shown : List Shelf) where
  tally-Asks :
      (legs : List Leg) (tally end : Tally)
      → tally_legs ignore_age max_age now quotes shown legs tally ≡ tallied end
      → (price : ℤ) × Asks quotes legs price × (end.price ≡ tally.price +ℤ price)
  tally-Asks [] tally end e =
      let same = (finished ignore_age max_age now quotes shown tally end e).0 in
      (pos 0, refl, same ∙ nothing_added tally.price)
    where
      nothing_added : (a : ℤ) → a ≡ a +ℤ pos 0
      nothing_added a = eq_of_parts a (a +ℤ pos 0) (omega int_laws)
  tally-Asks (leg ∷ legs) tally end e =
      let (quote, known, _, _, onward) =
        tally_cons ignore_age max_age now quotes shown leg legs tally end e in
      let (rest, asked, total) = tally-Asks legs (tally_leg shown leg quote tally) end onward in
      (
        leg_net leg.side leg.ratio quote +ℤ rest,
        (quote, rest, known, refl, asked),
        total ∙ shift leg.side leg.ratio quote tally.price rest,
      )
    where
      regroup : (a b c : ℤ) → (a +ℤ b) +ℤ c ≡ a +ℤ (b +ℤ c)
      regroup a b c = eq_of_parts ((a +ℤ b) +ℤ c) (a +ℤ (b +ℤ c)) (omega int_laws)

      shift :
          (side : Side) (ratio : ℕ) (quote : Quote) (a rest : ℤ)
          → (a +ℤ cost_on side ratio (price_on side quote)) +ℤ rest
            ≡ a +ℤ (leg_net side ratio quote +ℤ rest)
      shift buy ratio quote a rest = regroup a (scale ratio quote.ask) rest
      shift sell ratio quote a rest = regroup a (neg (scale ratio quote.bid)) rest

  executable-Asks :
      (legs : List Leg) (end : Tally)
      → executable ignore_age max_age now quotes shown legs ≡ tallied end
      → Asks quotes legs end.price
  unfolding executable
  executable-Asks legs end e =
      let (price, asked, total) = tally-Asks legs _ end e in
      subst (Asks quotes legs) (sym (total ∙ from_nothing price)) asked
    where
      from_nothing : (a : ℤ) → pos 0 +ℤ a ≡ a
      from_nothing a = eq_of_parts (pos 0 +ℤ a) a (omega int_laws)

filled-IsWithin :
    (quotes : Text → Option Quote) (book : Book) (order : Order) (sets : ℕ) (price : ℤ)
    (leg_price : Text → ℤ) (now : ℕ)
    → find_order order.id book.orders ≡ some order
    → 0 < sets
    → sets ≤ remaining order
    → Asks quotes order.legs price
    → (order.market ≡ true) ⊎ (price ≤ℤ order.limit)
    → IsWithin quotes order book (fill book order.id sets price leg_price now).0
unfolding fill fill_found
filled-IsWithin quotes book order sets price leg_price now found some_sets room asked within =
    elim (Bool-cases (is_open order)) [
      | inr shut ↦ rw (found, shut) (inl (refl, refl))
      | inl live ↦ elim (Bool-cases (ltb sets 1 || ltb (remaining order) sets)) [
        | inl bad ↦ rw (found, live, bad) (inl (refl, refl))
        | inr good ↦ rw (found, live, good) (by_cover _)
      ]
    ]
  where
    by_cover :
        (c : Cover)
        → IsWithin quotes order book (fill_covered book order sets price leg_price now c).0
    by_cover unknown = inl (refl, refl)
    by_cover short = inl (refl, refl)
    by_cover covered = inr (sets, price, leg_price, some_sets, room, asked, within, refl, refl)

booked-IsWithin :
    (ignore_session : Bool) (max_age now : ℕ) (quotes : Text → Option Quote) (order : Order)
    (sets : ℕ) (shown : List Shelf) (book : Book) (outcome : Book × (Refusal ⊎ Event))
    → IsWithin quotes order book outcome.0
    → IsWithin quotes order book
        (booked ignore_session max_age now quotes order sets shown outcome).0
unfolding mark_stand
booked-IsWithin ignore_session max_age now quotes order sets shown book (after, inl refusal) h = h
booked-IsWithin true max_age now quotes order sets shown book (after, inr e) h = h
booked-IsWithin false max_age now quotes order sets shown book (after, inr e) h = h

module _ (ignore_session : Bool) (max_age now : ℕ) (quotes : Text → Option Quote) where
  -- Whatever the market shows, an attempt to fill an order of the book leaves cash and positions as they
  -- were, or books at least one set and no more than remain of the order, at exactly the price that the
  -- quotes ask for a set: each leg's ask where it buys and its bid where it sells. Unless it is a market
  -- order, that price is no worse than its limit. The cash pays it, and the fee on each contract, and the
  -- sets' legs are applied to the positions.
  pub fill_order-IsWithin :
      (book : Book) (order : Order) (shown : List Shelf)
      → find_order order.id book.orders ≡ some order
      → IsWithin quotes order book (fill_order ignore_session max_age now quotes book order shown).0
  unfolding fill_order note
  fill_order-IsWithin book order shown found =
      by_match (executable ignore_session max_age now quotes shown order.legs) refl
    where
      no_more : (found : ℤ) (left : ℕ) → sets_for found left ≤ left
      no_more (pos n) left = ground arith
      no_more (negsuc n) left = omega arith

      limit_held :
          (market : Bool) (price : ℤ)
          → (not market && ltb_ℤ order.limit price) ≡ false
          → (market ≡ true) ⊎ (price ≤ℤ order.limit)
      limit_held true price held = inl refl
      limit_held false price held = inr (ground arith)

      by_match :
          (m : Match)
          → executable ignore_session max_age now quotes shown order.legs ≡ m
          → IsWithin quotes order book
              (fill_match ignore_session max_age now quotes book order shown m).0
      by_match (stuck o) e = inl (refl, refl)
      by_match (tallied tally) e =
          elim (Bool-cases (not order.market && ltb_ℤ order.limit tally.price)) [
            | inl past ↦ rw past (inl (refl, refl))
            | inr held ↦ elim (Bool-cases (ltb (sets_for tally.sets (remaining order)) 1)) [
              | inl few ↦ rw (held, few) (inl (refl, refl))
              | inr enough ↦
                  rw (held, enough)
                    (booked-IsWithin ignore_session max_age now quotes order
                      (sets_for tally.sets (remaining order)) shown book _
                      (filled-IsWithin quotes book order (sets_for tally.sets (remaining order))
                        tally.price (price_in tally.leg_price) now found (ground arith)
                        (no_more tally.sets (remaining order))
                        (executable-Asks ignore_session max_age now quotes shown order.legs tally e)
                        (limit_held order.market tally.price held)))
            ]
          ]
