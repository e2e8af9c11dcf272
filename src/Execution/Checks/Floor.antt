-- ===== src/Execution/Checks/Floor.antt =====
-- What WorstCase and Unbounded promise of a resting order: golang/internal/execution/toobig.go.
use swiftward_alpaca_options.Prelude.{
  ℕ, ◌-◌, ◌*◌, ◌<◌, ◌≡◌, refl, sym, ap, ◌∙◌, ◌⊎◌, Bool, true, false, ◌||◌, inl, inr, Option, none,
  some, List, [], ◌∷◌, ◌++◌, arith, ◌==◌, Bool-cases,
}
use mathlib.Core.Path.{ap₂}
use mathlib.Core.Option.{some-injective}
use swiftward_alpaca_options.Prelude.Int.{
  ℤ, pos, ◌+ℤ◌, ◌-ℤ◌, neg, scale, ◌≤ℤ◌, ◌<ℤ◌, int_laws, min, min_le_right, min_cases, scale-add,
  scale_mono, scale_negative, scale_nonneg, scale-neg,
}
use swiftward_alpaca_options.Prelude.Frac.{Frac}
use swiftward_alpaca_options.Market.Symbol.{Kind, call, put, Contract, contract_from}
use swiftward_alpaca_options.Market.Payoff.{Stake, payoff, least, net_calls, net_one}
use swiftward_alpaca_options.Market.Floor.{least_attained, loss_without_floor}
use swiftward_alpaca_options.Market.Order.{Side, Leg, Order}
use swiftward_alpaca_options.Market.Exposure.{strikes, highest}
use swiftward_alpaca_options.Market.Exposure.Floor.{least_floor, highest-Within}
use swiftward_alpaca_options.Execution.Checks.{
  sided, held_of, call_count, net_of_legs, unbounded, leg_stake, leg_stakes, worst_price, paid_at,
  worst_of, no_legs, worst_case,
}

sided-mul : (side : Side) (r n : ℕ) → sided side (r * n) ≡ scale r (sided side n)
sided-mul Side.sell r n = rw (scale-neg r (pos n)) (omega int_laws)
sided-mul Side.other r n = omega int_laws

net_one-sided :
    (k : Kind) (side : Side) (r n : ℕ)
    → net_one k (sided side (r * n)) ≡ scale r (elim k [ call ↦ sided side n | put ↦ pos 0 ])
net_one-sided call side r n = sided-mul side r n
net_one-sided put side r n = omega int_laws

-- The calls that the stakes are short of, and those that the order is short of.
net_calls-leg_stakes :
    (quantity resting : ℕ) (legs : List Leg) (stakes : List Stake)
    → leg_stakes quantity resting legs ≡ some stakes
    → net_calls stakes ≡ scale resting (net_of_legs quantity legs)
unfolding leg_stakes net_calls net_of_legs
net_calls-leg_stakes quantity resting [] [] h = omega int_laws
net_calls-leg_stakes quantity resting [] (one ∷ stakes) h = cc
net_calls-leg_stakes quantity resting (leg ∷ legs) stakes h =
    by_leg (contract_from leg.symbol) (leg_stakes quantity resting legs) h
      (net_calls-leg_stakes quantity resting legs)
  where
    by_leg :
        (o : Option Contract) (rest : Option (List Stake))
        → leg_stake quantity resting leg o rest ≡ some stakes
        → ((more : List Stake)
            → rest ≡ some more
            → net_calls more ≡ scale resting (net_of_legs quantity legs))
        → net_calls stakes ≡ scale resting (call_count quantity leg o +ℤ net_of_legs quantity legs)
    by_leg none rest e ih = cc
    by_leg (some c) none e ih = cc
    by_leg (some c) (some more) e ih =
        let same = some-injective _ _ e in
        ap net_calls (sym same)
        ∙ ap₂ ◌+ℤ◌ (net_one-sided c.kind leg.side resting (held_of quantity leg)) (ih more refl)
        ∙ sym (scale-add resting _ (net_of_legs quantity legs))

-- What is known of an order whose worst case is known.
worst_case_parts :
    (order : Order) (w : Frac)
    → worst_case order ≡ some w
    → (0 < order.quantity - order.filled_quantity)
      × (worst_of order.quantity
            (neg (paid_at order (worst_price order)))
            (leg_stakes order.quantity (order.quantity - order.filled_quantity) order.legs)
          ≡ some w)
unfolding worst_case
worst_case_parts order w h =
    let resting = order.quantity - order.filled_quantity in
    elim (Bool-cases (no_legs order.legs || (order.quantity == 0) || (resting == 0))) [
      | inl nothing ↦ absurd (contra (rw nothing at h))
      | inr read ↦
          (resting_pos resting (no_legs order.legs || (order.quantity == 0)) read, rw read at h)
    ]
  where
    contra : none ≡ some w → ⊥
    contra e = cc

    resting_pos : (r : ℕ) (b : Bool) → (b || (r == 0)) ≡ false → 0 < r
    resting_pos r b e = ground arith

-- The value at expiry of what is still resting, if it fills at a price; all of it is counted times
-- the order's quantity, so that no leg's share is rounded.
abbrev pub value_at_expiry : Order → List Stake → ℤ → ℕ → ℤ
value_at_expiry order stakes fill price = payoff stakes price -ℤ paid_at order fill

sub_neg : (a b : ℤ) → a +ℤ neg b ≡ a -ℤ b
sub_neg a b = omega int_laws

least_loss :
    (order : Order) (stakes : List Stake)
    → pos 0 ≤ℤ net_calls stakes
    → let settled = neg (paid_at order (worst_price order)) in
      let low =
        least
          (λ price. payoff stakes price +ℤ settled)
          0
          (strikes stakes ++ (highest stakes * 2) ∷ []) in
      ((price : ℕ) (fill : ℤ)
        → fill ≤ℤ worst_price order
        → min (pos 0) low ≤ℤ value_at_expiry order stakes fill price)
      × ((min (pos 0) low ≡ pos 0)
          ⊎ ((price : ℕ) × (min (pos 0) low
                ≡ value_at_expiry order stakes (worst_price order) price)))
least_loss order stakes covered =
    let settled = neg (paid_at order (worst_price order)) in
    let f : ℕ → ℤ = λ price. payoff stakes price +ℤ settled in
    let more = (highest stakes * 2) ∷ [] in
    let low = least f 0 (strikes stakes ++ more) in
    (
      λ price fill better. omega (
        int_laws,
        least_floor stakes settled more covered price,
        min_le_right (pos 0) low,
        scale_mono (100 * (order.quantity - order.filled_quantity) * order.quantity) fill
            (worst_price order) better,
      ),
      reached (least_attained f 0 (strikes stakes ++ more)) (min_cases (pos 0) low),
    )
  where
    reached :
        {low : ℤ}
        → ((price : ℕ) × (low ≡ payoff stakes price +ℤ neg (paid_at order (worst_price order))))
        → ((pos 0 ≤ℤ low) × (min (pos 0) low ≡ pos 0)) ⊎ ((low ≤ℤ pos 0) × (min (pos 0) low ≡ low))
        → (min (pos 0) low ≡ pos 0)
          ⊎ ((price : ℕ) × (min (pos 0) low
                ≡ value_at_expiry order stakes (worst_price order) price))
    reached found (inl (h, e)) = inl e
    reached (price, found) (inr (h, e)) =
        inr (price, e ∙ found ∙ sub_neg (payoff stakes price) (paid_at order (worst_price order)))

-- Of an order whose worst case is known and that is not left short of calls, the worst case holds at every price that the
-- underlying can settle at and every price that the order can fill at, none worse than its worst
-- price; and it is no loss at all, or some price at expiry makes it at the worst price. It is a fraction
-- over the order's quantity, as the values it is compared with are counted times that quantity.
pub worst_case_exact :
    (order : Order) (w : Frac) (stakes : List Stake)
    → worst_case order ≡ some w
    → leg_stakes order.quantity (order.quantity - order.filled_quantity) order.legs ≡ some stakes
    → unbounded order ≡ false
    → ((price : ℕ) (fill : ℤ)
        → fill ≤ℤ worst_price order
        → w.num ≤ℤ value_at_expiry order stakes fill price)
      × ((w.num ≡ pos 0)
          ⊎ ((price : ℕ) × (w.num ≡ value_at_expiry order stakes (worst_price order) price)))
      × (w.den ≡ order.quantity)
      × (0 < w.den)
unfolding unbounded
worst_case_exact order w stakes h read covered =
    let (some_left, known) = worst_case_parts order w h in
    let same = some-injective _ _ (rw read at known) in
    let net =
      net_calls-leg_stakes order.quantity (order.quantity - order.filled_quantity) order.legs stakes
        read in
    let flat : pos 0 ≤ℤ net_calls stakes =
      rw net (scale_nonneg (order.quantity - order.filled_quantity) _ (ground arith)) in
    let (floor, reached) = least_loss order stakes flat in
    let den : w.den ≡ order.quantity = sym (ap (λ (f : Frac). f.den) same) in
    (
      rw (← ap (λ (f : Frac). f.num) same) floor,
      rw (← ap (λ (f : Frac). f.num) same) reached,
      den,
      rw den (some_quantity order.quantity order.filled_quantity some_left),
    )
  where
    some_quantity : (q f : ℕ) → 0 < q - f → 0 < q
    some_quantity q f h = omega arith

-- An order with something resting, with legs that can be read, left short of calls, has no worst case: whatever the bound, some price at expiry leaves
-- less, at any price that it fills at.
pub unbounded_loses :
    (order : Order) (stakes : List Stake) (fill bound : ℤ)
    → 0 < order.quantity - order.filled_quantity
    → leg_stakes order.quantity (order.quantity - order.filled_quantity) order.legs ≡ some stakes
    → unbounded order ≡ true
    → (price : ℕ) × (value_at_expiry order stakes fill price <ℤ bound)
unfolding unbounded
unbounded_loses order stakes fill bound resting read short =
    let net =
      net_calls-leg_stakes order.quantity (order.quantity - order.filled_quantity) order.legs stakes
        read in
    let deep =
      scale_negative (order.quantity - order.filled_quantity)
        (net_of_legs order.quantity order.legs) (ground arith) in
    let under : net_calls stakes <ℤ pos 0 = rw net (omega (arith, deep, resting)) in
    let (price, low) =
      loss_without_floor (bound +ℤ paid_at order fill) stakes (highest stakes)
        (highest-Within stakes) under in
    (price, omega (int_laws, low))
