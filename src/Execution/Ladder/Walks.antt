-- ===== src/Execution/Ladder/Walks.antt =====
-- The price that a walk offers: walk of golang/internal/execution/execution.go.
use swiftward_alpaca_options.Prelude.{
  ℕ, ◌+◌, ◌-◌, ◌≤◌, ◌≡◌, ◌≢◌, Bool, true, false, ◌⊎◌, inl, inr, Option, none, some, List, arith,
  Bool-cases,
}
use swiftward_alpaca_options.Prelude.Int.{
  ℤ, pos_part, neg_part, ◌-ℤ◌, abs, ◌≤ℤ◌, ◌<ℤ◌, eqb_ℤ, eq_of_parts,
}
use swiftward_alpaca_options.Prelude.Text.{Text}
use swiftward_alpaca_options.Market.Order.{Quote, Leg, Order}
use swiftward_alpaca_options.Execution.Price.{stride, worse_than, round, showing, showing_legs}
use swiftward_alpaca_options.Execution.Price.Round.{IsCents, round-IsCents}
use swiftward_alpaca_options.Execution.Price.Step.{toward-step}
use swiftward_alpaca_options.Execution.Price.Arrival.{toward_covers, stride-IsStep, abs_self}
use mathlib.Core.Option.{some-injective}
use mathlib.Core.Path.{subst}
use swiftward_alpaca_options.Execution.Ladder.{Config, target_of, next_price}

pub showing-IsCents :
    (quotes : Text → Option Quote) (legs : List Leg) (shown : ℤ)
    → showing quotes legs ≡ some shown
    → IsCents shown
unfolding showing
showing-IsCents quotes legs shown = by_total (showing_legs quotes legs)
  where
    by_total :
        (o : Option ℤ)
        → elim o [ none ↦ none | some total ↦ some (round total) ] ≡ some shown
        → IsCents shown
    by_total none e = cc
    by_total (some total) e = subst IsCents (some-injective _ _ e) (round-IsCents total)

-- How a new price stands to the old one, the worst price allowed and the book. Within its worst
-- price an order concedes and stops there; an order placed past its worst price goes back toward
-- it; and no price is offered that is worse than what the book shows.
pub record Concedes (limit floor shown price : ℤ) : Type 0 where
  pub within : limit ≤ℤ floor → (limit <ℤ price) × (price ≤ℤ floor)
  pub back : floor <ℤ limit → (floor ≤ℤ price) × (price <ℤ limit)
  pub covered : price ≤ℤ shown
  pub cents : IsCents price

apart_of : (a b : ℤ) → eqb_ℤ a b ≡ false → (a <ℤ b) ⊎ (b <ℤ a)
apart_of a b h = ground arith

between_floor :
    (limit floor shown price : ℤ)
    → floor <ℤ shown
    → limit <ℤ shown
    → IsCents price
    → (price <ℤ limit) ⊎ (limit <ℤ price)
    → ((limit ≤ℤ price) × (price ≤ℤ floor)) ⊎ ((floor ≤ℤ price) × (price ≤ℤ limit))
    → Concedes limit floor shown price
between_floor limit floor shown price past worse c apart side = record {
  within = λ h. omega (arith, side, apart);
  back = λ h. omega (arith, side, apart);
  covered = omega (arith, side, past, worse);
  cents = c;
}

between_shown :
    (limit floor shown price : ℤ)
    → shown ≤ℤ floor
    → limit <ℤ shown
    → IsCents price
    → (price <ℤ limit) ⊎ (limit <ℤ price)
    → ((limit ≤ℤ price) × (price ≤ℤ shown)) ⊎ ((shown ≤ℤ price) × (price ≤ℤ limit))
    → Concedes limit floor shown price
between_shown limit floor shown price before worse c apart side = record {
  within = λ h. omega (arith, side, apart, before);
  back = λ h. omega (arith, side, apart, before, worse);
  covered = omega (arith, side, worse);
  cents = c;
}

module _ (config : Config) (now : ℕ) (order : Order) (placed : ℕ) (shown floor : ℤ)
    (tick : 10 ≤ config.tick) (limit_cents : IsCents order.limit_price)
    (shown_cents : IsCents shown) (floor_cents : IsCents floor) where
  target-IsCents : IsCents (target_of shown floor)
  target-IsCents = elim (Bool-cases (worse_than shown floor)) [
    | inl past ↦ rw past floor_cents
    | inr before ↦ rw before shown_cents
  ]

  -- A price that moves has moved toward the target.
  moves :
      let next = next_price config now order placed shown floor in
      let target = target_of shown floor in
      eqb_ℤ next order.limit_price ≡ false
      → IsCents next
        × (((order.limit_price ≤ℤ next) × (next ≤ℤ target))
            ⊎ ((target ≤ℤ next) × (next ≤ℤ order.limit_price)))
  unfolding next_price
  moves moved =
      let target = target_of shown floor in
      let left = config.patience + placed - now in
      let step = stride config.kind config.tick order.limit_price target left config.every in
      let is_step =
        stride-IsStep config.kind config.tick order.limit_price target left config.every tick in
      elim (Bool-cases (eqb_ℤ order.limit_price target)) [
        | inl there ↦
            let same : order.limit_price ≡ target =
              eq_of_parts _ _ (level order.limit_price target there) in
            let none_left : abs (target -ℤ order.limit_price) ≡ 0 = rw same (abs_self target) in
            let arrived =
              toward_covers order.limit_price target step is_step.whole target-IsCents
                (rw none_left (omega arith)) in
            absurd (still (eqb_self target) (rw (arrived, same) at moved))
        | inr apart ↦
            let (cents, between, closer) =
              toward-step order.limit_price target step is_step limit_cents target-IsCents
                (different order.limit_price target apart) in
            (cents, between)
      ]
    where
      level : (a b : ℤ) → eqb_ℤ a b ≡ true → pos_part a + neg_part b ≡ pos_part b + neg_part a
      level a b h = ground arith

      eqb_self : (a : ℤ) → eqb_ℤ a a ≡ true
      eqb_self a = ground arith

      still : {b : Bool} → b ≡ true → b ≡ false → ⊥
      still h k = cc

      different : (a b : ℤ) → eqb_ℤ a b ≡ false → a ≢ b
      different a b h e = still (rw e (eqb_self b)) h

  -- With a tick of a cent or more, and the limit, the price shown and the worst price in whole cents,
  -- the price that a walk offers where the book is worse than the limit, if it is another price,
  -- concedes within the worst price, or goes back toward it from beyond, is no worse than the book,
  -- and is in whole cents.
  pub next_price-Concedes :
      worse_than shown order.limit_price ≡ true
      → eqb_ℤ (next_price config now order placed shown floor) order.limit_price ≡ false
      → Concedes order.limit_price floor shown (next_price config now order placed shown floor)
  next_price-Concedes worse moved =
      let next = next_price config now order placed shown floor in
      let (cents, side) = moves moved in
      elim (Bool-cases (worse_than shown floor)) [
        | inl past ↦
            between_floor order.limit_price floor shown next (ground arith) (ground arith) cents
              (apart_of next order.limit_price moved) (rw past at side)
        | inr before ↦
            between_shown order.limit_price floor shown next (ground arith) (ground arith) cents
              (apart_of next order.limit_price moved) (rw before at side)
      ]
