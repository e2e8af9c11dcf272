-- ===== src/Arena/Match/Fair.antt =====
-- What the matcher fills at, and how much: executable of testbed/proxy/match.go.
use swiftward_alpaca_options.Prelude.{
  ℕ, ◌≡◌, refl, sym, ◌∙◌, Bool, false, Option, none, some, List, [], ◌∷◌, inl, inr, Bool-cases, All,
  arith, map, if◌then◌else◌,
}
use swiftward_alpaca_options.Prelude.Int.{
  ℤ, pos, negsuc, ◌+ℤ◌, ◌≤ℤ◌, ◌<ℤ◌, scale, ltb_ℤ, leb_ℤ, scale_mono, int_laws,
}
use swiftward_alpaca_options.Prelude.Text.{Text}
use swiftward_alpaca_options.Arena.Order.{Side, buy, sell, Leg, Obstacle}
use swiftward_alpaca_options.Arena.Order.{Obstacle}
use swiftward_alpaca_options.Arena.Match.{
  Quote, price_on, size_on, Shelf, left_on, size_left, quotient, Tally, stuck, tallied, fewer,
  cost_on, tally_leg, stale, is_crossed, fault_of, go_on, quoted_leg, tally_legs, executable,
}
use mathlib.Core.Option.{some-injective}
use native.Mathlib.Nat.{mul-div-le}
use mathlib.Core.Path.{subst}

-- The legs that close what the legs open.
abbrev pub opposite : Side → Side
opposite buy = sell
opposite sell = buy

abbrev pub reversed : Leg → Leg
reversed leg = record leg { side = opposite leg.side }

-- A quote that is no obstacle is not crossed, and has a price.
fault_free :
    (o : Option Obstacle) (leg : Leg) (quote : Quote)
    → fault_of o leg quote ≡ none
    → (is_crossed quote ≡ false) × (pos 0 <ℤ price_on leg.side quote)
fault_free (some o) leg quote e = cc
fault_free none leg quote e = elim (Bool-cases (is_crossed quote)) [
  | inl crossed ↦ absurd (contra Obstacle.crossed (rw crossed at e))
  | inr straight ↦ elim (Bool-cases (leb_ℤ (price_on leg.side quote) (pos 0))) [
    | inl low ↦ absurd (contra Obstacle.no_price (rw (straight, low) at e))
    | inr high ↦ (straight, more (price_on leg.side quote) high)
  ]
]
  where
    contra : (o : Obstacle) → some o ≡ none → ⊥
    contra o e = cc

    more : (a : ℤ) → leb_ℤ a (pos 0) ≡ false → pos 0 <ℤ a
    more a e = ground arith

module _ (ignore_age : Bool) (max_age now : ℕ) (quotes : Text → Option Quote)
    (shown : List Shelf) where
  -- A first leg that was counted had a quote without fault.
  pub tally_cons :
      (leg : Leg) (legs : List Leg) (tally end : Tally)
      → tally_legs ignore_age max_age now quotes shown (leg ∷ legs) tally ≡ tallied end
      → (quote : Quote) × (quotes leg.symbol ≡ some quote)
        × (is_crossed quote ≡ false)
        × (pos 0 <ℤ price_on leg.side quote)
        × (tally_legs ignore_age max_age now quotes shown legs (tally_leg shown leg quote tally)
            ≡ tallied end)
  unfolding tally_legs
  tally_cons leg legs tally end e = by_quote (quotes leg.symbol) refl e
    where
      contra : (o : Obstacle) → stuck o ≡ tallied end → ⊥
      contra o e = cc

      by_fault :
          (quote : Quote) (o : Option Obstacle)
          → fault_of (stale ignore_age max_age now quote.at) leg quote ≡ o
          → go_on o (
              tally_legs ignore_age max_age now quotes shown legs (tally_leg shown leg quote tally))
            ≡ tallied end
          → (is_crossed quote ≡ false)
            × (pos 0 <ℤ price_on leg.side quote)
            × (tally_legs ignore_age max_age now quotes shown legs (tally_leg shown leg quote tally)
                ≡ tallied end)
      by_fault quote (some o) f e = absurd (contra o e)
      by_fault quote none f e =
          let (straight, high) = fault_free (stale ignore_age max_age now quote.at) leg quote f in
          (straight, high, e)

      by_quote :
          (o : Option Quote)
          → quotes leg.symbol ≡ o
          → quoted_leg ignore_age max_age now quotes shown leg o tally
              (tally_legs ignore_age max_age now quotes shown legs)
            ≡ tallied end
          → (quote : Quote) × (quotes leg.symbol ≡ some quote)
            × (is_crossed quote ≡ false)
            × (pos 0 <ℤ price_on leg.side quote)
            × (tally_legs ignore_age max_age now quotes shown legs (tally_leg shown leg quote tally)
                ≡ tallied end)
      by_quote none q e = absurd (contra Obstacle.no_quote e)
      by_quote (some quote) q e =
          let (straight, high, rest) = by_fault quote _ refl e in (quote, q, straight, high, rest)

  pub finished :
      (tally end : Tally)
      → tally_legs ignore_age max_age now quotes shown [] tally ≡ tallied end
      → (end.price ≡ tally.price)
        × (end.sets ≡ (if ltb_ℤ tally.sets (pos 0) then pos 0 else tally.sets))
  unfolding tally_legs
  finished tally end e = (cc, cc)

  -- Half of a round trip is a price, and the other half gives no more than it.
  spread :
      (side : Side) (ratio : ℕ) (quote : Quote)
      → is_crossed quote ≡ false
      → pos 0 <ℤ price_on side quote
      → pos 0 <ℤ price_on (opposite side) quote
      → (a b : ℤ)
      → a +ℤ b
        ≤ℤ (a +ℤ cost_on side ratio (price_on side quote))
          +ℤ (b +ℤ cost_on (opposite side) ratio (price_on (opposite side) quote))
  spread buy ratio quote straight h k a b =
      let wide = scale_mono ratio quote.bid quote.ask (ground arith) in omega (int_laws, wide)
  spread sell ratio quote straight h k a b =
      let wide = scale_mono ratio quote.bid quote.ask (ground arith) in omega (int_laws, wide)

  round_trip :
      (legs : List Leg) (a b t u : Tally)
      → tally_legs ignore_age max_age now quotes shown legs a ≡ tallied t
      → tally_legs ignore_age max_age now quotes shown (map reversed legs) b ≡ tallied u
      → a.price +ℤ b.price ≤ℤ t.price +ℤ u.price
  round_trip [] a b t u e f = rw ((finished a t e).0, (finished b u f).0) (omega arith)
  round_trip (leg ∷ legs) a b t u e f =
      let (quote, known, straight, high, rest) = tally_cons leg legs a t e in
      let (other, also, _, low, more) = tally_cons (reversed leg) (map reversed legs) b u f in
      let one : other ≡ quote = some-injective _ _ (sym also ∙ known) in
      let there =
        spread leg.side leg.ratio quote straight high
          (subst (λ q. pos 0 <ℤ price_on (opposite leg.side) q) one low) a.price b.price in
      let onward =
        round_trip legs (tally_leg shown leg quote a) (tally_leg shown (reversed leg) quote b) t u
          rest
          (subst
            (λ q.
              tally_legs ignore_age max_age now quotes shown (map reversed legs)
                (tally_leg shown (reversed leg) q b)
              ≡ tallied u)
            one more) in
      omega (int_laws, there, onward)

  -- Where the matcher quotes a price for some legs and for the legs that close them, at the same
  -- quotes, the two prices together cost nothing or more: no set opened and closed makes money.
  pub executable_round_trip :
      (legs : List Leg) (t u : Tally)
      → executable ignore_age max_age now quotes shown legs ≡ tallied t
      → executable ignore_age max_age now quotes shown (map reversed legs) ≡ tallied u
      → pos 0 ≤ℤ t.price +ℤ u.price
  unfolding executable ◌+ℤ◌
  executable_round_trip legs t u e f = round_trip legs _ _ t u e f

  -- The size that a leg meets holds so many sets of it.
  abbrev pub Holds : ℤ → Leg → Option Quote → Type 0
  Holds sets leg none = ⊥
  Holds sets leg (some quote) =
      scale leg.ratio sets ≤ℤ size_left (left_on leg.symbol leg.side shown) (size_on leg.side quote)

  abbrev pub IsShown : Leg → Option Quote → Type 0
  IsShown leg none = Unit
  IsShown leg (some quote) =
      pos 0 ≤ℤ size_left (left_on leg.symbol leg.side shown) (size_on leg.side quote)

  quotient_within :
      (size : ℤ) (ratio : ℕ)
      → pos 0 ≤ℤ size
      → (pos 0 ≤ℤ quotient size ratio) × (scale ratio (quotient size ratio) ≤ℤ size)
  quotient_within (pos n) ratio h =
      let low = mul-div-le n ratio in (omega arith, omega (int_laws, low))
  quotient_within (negsuc n) ratio h = absurd (omega arith)

  fewer_within :
      (sets fits : ℤ)
      → pos 0 ≤ℤ fits
      → (pos 0 ≤ℤ fewer sets fits)
        × (fewer sets fits ≤ℤ fits)
        × (pos 0 ≤ℤ sets → fewer sets fits ≤ℤ sets)
  fewer_within sets fits h = (ground arith, ground arith, λ k. ground arith)

  settled_sets : (sets : ℤ) → pos 0 ≤ℤ sets → (if ltb_ℤ sets (pos 0) then pos 0 else sets) ≡ sets
  settled_sets sets h = ground arith

  no_fewer : (sets : ℤ) → pos 0 ≤ℤ (if ltb_ℤ sets (pos 0) then pos 0 else sets)
  no_fewer sets = ground arith

  tally_room :
      (legs : List Leg) (a t : Tally)
      → All (λ leg. IsShown leg (quotes leg.symbol)) legs
      → tally_legs ignore_age max_age now quotes shown legs a ≡ tallied t
      → (pos 0 ≤ℤ t.sets)
        × (pos 0 ≤ℤ a.sets → t.sets ≤ℤ a.sets)
        × All (λ leg. Holds t.sets leg (quotes leg.symbol)) legs
  tally_room [] a t h e =
      let same = (finished a t e).1 in
      (rw same (no_fewer a.sets), λ k. rw (same, settled_sets a.sets k) (omega arith), tt)
  tally_room (leg ∷ legs) a t h e =
      let (quote, known, straight, high, rest) = tally_cons leg legs a t e in
      let size = size_left (left_on leg.symbol leg.side shown) (size_on leg.side quote) in
      let (some_size, fits) = quotient_within size leg.ratio (subst (IsShown leg) known h.0) in
      let (above, below, least) = fewer_within a.sets (quotient size leg.ratio) some_size in
      let (low, more, all) = tally_room legs (tally_leg shown leg quote a) t h.1 rest in
      let sure = more above in
      let grown =
        scale_mono leg.ratio t.sets (quotient size leg.ratio) (omega (arith, sure, below)) in
      (
        low,
        λ k. (let held = least k in omega (arith, sure, held)),
        (subst (Holds t.sets leg) (sym known) (omega (arith, grown, fits)), all),
      )

  -- Where no size that the legs meet is below zero, every leg's size holds the sets that the matcher
  -- finds for the order, the leg's ratio for each set.
  pub executable_room :
      (legs : List Leg) (t : Tally)
      → All (λ leg. IsShown leg (quotes leg.symbol)) legs
      → executable ignore_age max_age now quotes shown legs ≡ tallied t
      → (pos 0 ≤ℤ t.sets) × All (λ leg. Holds t.sets leg (quotes leg.symbol)) legs
  unfolding executable
  executable_room legs t h e = let (low, _, all) = tally_room legs _ t h e in (low, all)
