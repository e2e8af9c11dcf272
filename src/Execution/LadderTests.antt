-- ===== src/Execution/LadderTests.antt =====
-- The theorems about the checks, the ages and the passes of the ladder, applied to the sample.
use swiftward_alpaca_options.Execution.Ladder.Refusals.{Withdraws, floorless, visit-Withdraws}
use swiftward_alpaca_options.Execution.Ladder.{Limits, State, figure, visit}
use swiftward_alpaca_options.Execution.Checks.{only_closes}
use swiftward_alpaca_options.Prelude.Frac.{whole}
use swiftward_alpaca_options.Market.Exposure.{highest}
use swiftward_alpaca_options.Prelude.{
  ℕ, ◌+◌, ◌-◌, ◌≤◌, ◌<◌, ◌≡◌, ◌≢◌, ◌⊎◌, refl, true, false, none, some, [], ◌∷◌, arith, All,
}
use swiftward_alpaca_options.Prelude.Int.{
  ℤ, pos, negsuc, neg, ◌≤ℤ◌, ◌<ℤ◌, ◌-ℤ◌, eqb_ℤ, min, ◌+ℤ◌, scale,
}
use swiftward_alpaca_options.Prelude.Text.{codes, text_eq, cut_prefix, has_suffix}
use swiftward_alpaca_options.Market.Order.{active, Order}
use swiftward_alpaca_options.Market.Payoff.{Stake, least, payoff}
use swiftward_alpaca_options.Market.Symbol.{call, put, contract_from}
use swiftward_alpaca_options.Execution.Price.{stride, toward}
use swiftward_alpaca_options.Execution.Name.{read_price, reservation}
use swiftward_alpaca_options.Execution.Checks.{
  worst_case, worst_price, leg_stakes, unbounded, net_of_legs,
}
use swiftward_alpaca_options.Execution.Checks.Floor.{
  value_at_expiry, worst_case_exact, unbounded_loses,
}
use swiftward_alpaca_options.Execution.Ages.{
  lookup, life_of, carried, shown_working, working, forget_what_is_done, sweep, drop_done,
}
use swiftward_alpaca_options.Execution.Ages.Chain.{
  life_of-carried, lookup-forget_shown, lookup-forget_hidden, done_shown,
}
use swiftward_alpaca_options.Execution.Ladder.{next_price, step}
use swiftward_alpaca_options.Execution.Ladder.Walks.{Concedes, next_price-Concedes}
use swiftward_alpaca_options.Execution.Ladder.Pass.{Warranted, step-Warranted}
use swiftward_alpaca_options.Execution.Sample.{vertical, naked, age, ages, next, config, broker}

abbrev put_stake : ℕ → ℤ → Stake
put_stake strike held = record { kind = put; strike = strike; held = held }

-- Two sets of the vertical.
abbrev pair : Order
pair = record vertical { quantity = 2 }

worst_of_pair : worst_case pair ≡ some (record { num = negsuc 3599999; den = 2 })
unfolding worst_case leg_stakes contract_from min least ◌+ℤ◌ payoff scale neg worst_price
    reservation cut_prefix read_price highest
worst_of_pair = refl

stakes_of_pair :
    leg_stakes pair.quantity (pair.quantity - pair.filled_quantity) pair.legs
    ≡ some (put_stake 500000 (negsuc 3) ∷ put_stake 490000 (pos 4) ∷ [])
unfolding leg_stakes contract_from neg
stakes_of_pair = refl

pair_bounded : unbounded pair ≡ false
unfolding unbounded net_of_legs ◌+ℤ◌ contract_from
pair_bounded = refl

-- Filled at 1.00 and settled at 480, each set loses 900 dollars.
worst_case_exact_example :
    ((price : ℕ) (fill : ℤ)
      → fill ≤ℤ worst_price pair
      → negsuc 3599999
        ≤ℤ value_at_expiry pair
            (put_stake 500000 (negsuc 3) ∷ put_stake 490000 (pos 4) ∷ [])
            fill
            price)
    × ((negsuc 3599999 ≡ pos 0)
        ⊎ ((price : ℕ) × (negsuc 3599999
              ≡ value_at_expiry pair
                  (put_stake 500000 (negsuc 3) ∷ put_stake 490000 (pos 4) ∷ [])
                  (worst_price pair)
                  price)))
    × (2 ≡ pair.quantity)
    × (0 < 2)
worst_case_exact_example =
    worst_case_exact pair (record { num = negsuc 3599999; den = 2 })
      (put_stake 500000 (negsuc 3) ∷ put_stake 490000 (pos 4) ∷ []) worst_of_pair stakes_of_pair
      pair_bounded

stakes_of_naked :
    leg_stakes naked.quantity (naked.quantity - naked.filled_quantity) naked.legs
    ≡ some (record { kind = call; strike = 500000; held = negsuc 0 } ∷ [])
unfolding leg_stakes contract_from neg
stakes_of_naked = refl

naked-unbounded : unbounded naked ≡ true
unfolding unbounded net_of_legs ◌+ℤ◌ contract_from neg
naked-unbounded = refl

unbounded_loses_example :
    (price : ℕ) × (value_at_expiry naked
        (record { kind = call; strike = 500000; held = negsuc 0 } ∷ [])
        (negsuc 1199)
        price
      <ℤ neg (pos 10000000))
unbounded_loses_example =
    unbounded_loses naked (record { kind = call; strike = 500000; held = negsuc 0 } ∷ [])
      (negsuc 1199) (neg (pos 10000000)) (omega arith) stakes_of_naked naked-unbounded

-- Placed at 1000 and replaced at 5000, the order is still as old as at first.
life_of-carried_example :
    let (first, known) = life_of vertical 5000 ages in
    (life_of next 6000 (carried 7 vertical.id next.id known)).0
    ≡ record { placed = first.placed; moved_on = 7 }
life_of-carried_example = life_of-carried vertical next 5000 6000 7 ages named
  where
    named : next.id ≢ []
    named e = cc

shown_vertical : shown_working (vertical ∷ []) (codes "one") ≡ true
unfolding working active text_eq
shown_vertical = refl

vertical_not_done : done_shown (vertical ∷ []) (codes "one") ≡ false
unfolding done_shown working active
vertical_not_done = refl

lookup-forget_shown_example :
    lookup (codes "one") (forget_what_is_done (vertical ∷ []) 9000 60 ages)
    ≡ lookup (codes "one") ages
lookup-forget_shown_example =
    lookup-forget_shown (codes "one") (vertical ∷ []) 9000 60 ages shown_vertical vertical_not_done

still_known : lookup (codes "one") (forget_what_is_done [] 1050 60 ages) ≡ some age
unfolding forget_what_is_done lookup sweep drop_done text_eq
still_known = refl

lookup-forget_hidden_example : 1050 ≤ age.placed + 60
lookup-forget_hidden_example =
    lookup-forget_hidden (codes "one") [] 1050 60 ages age refl still_known

moves_up :
    eqb_ℤ (next_price config 1100 vertical 1000 (negsuc 1049) (negsuc 999)) vertical.limit_price
    ≡ false
unfolding next_price toward stride ◌-ℤ◌ min ◌+ℤ◌ scale neg
moves_up = refl

next_price-Concedes_example :
    Concedes vertical.limit_price
      (negsuc 999)
      (negsuc 1049)
      (next_price config 1100 vertical 1000 (negsuc 1049) (negsuc 999))
next_price-Concedes_example =
    next_price-Concedes config 1100 vertical 1000 (negsuc 1049) (negsuc 999) (omega arith) refl refl
      refl refl moves_up

-- A pass over the vertical moves it one step.
step-Warranted_example :
    All
      (Warranted broker 1100 (vertical ∷ []))
      (step config broker 1100 1 none none none none (vertical ∷ []) ages).effects
step-Warranted_example =
    step-Warranted config broker 1100 1 none none none none (vertical ∷ []) ages (omega arith)
      (refl, tt)

abbrev unlimited : Limits
unlimited = record { ceiling = none; book = none; fused = false }

abbrev idle : State
idle = record { ages = ages; risk = figure (whole (pos 0)); cancelled = []; effects = [] }

naked_live : working naked ≡ true
unfolding working active
naked_live = refl

naked_opens : only_closes naked ≡ false
unfolding only_closes has_suffix
naked_opens = refl

-- The naked call is cancelled.
visit-Withdraws_example : Withdraws naked.id idle (visit config broker 1100 1 unlimited idle naked)
visit-Withdraws_example =
    visit-Withdraws config broker 1100 1 (λ call id. refl) unlimited naked idle naked_live
      naked_opens (floorless naked-unbounded)
