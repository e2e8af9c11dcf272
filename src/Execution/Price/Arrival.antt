-- ===== src/Execution/Price/Arrival.antt =====
-- A walk arrives: Toward and stride of golang/internal/execution/execution.go.
use swiftward_alpaca_options.Prelude.{
  ℕ, ◌+◌, ◌*◌, ◌/◌, ◌≤◌, ◌<◌, ◌≡◌, inl, inr, List, [], ◌∷◌, arith, ltb, Bool-cases, All, length,
}
use swiftward_alpaca_options.Prelude.Int.{
  ℤ, pos, pos_part, neg_part, ◌+ℤ◌, ◌-ℤ◌, scale, abs, ◌≤ℤ◌, ltb_ℤ, int_laws, min, max, min_le_right,
  le-min, max_le, le-max_right, abs_below, abs_above, eq_of_parts,
}
use swiftward_alpaca_options.Execution.Price.{
  Stride, StrideKind, by_tick, to_arrive, round_ratio, toward, stride, steps_left,
}
use native.Mathlib.Nat.{div-lt_iff_lt-mul}
use swiftward_alpaca_options.Execution.Price.Round.{IsCents, round_ratio_exact, round_of_IsCents}
use swiftward_alpaca_options.Execution.Price.Step.{IsStep, toward-step}

-- A distance times a number, from either side.
scaled_below :
    (d : ℕ) (a b : ℤ) (len : ℕ)
    → a ≤ℤ b
    → d * abs (b -ℤ a) ≤ len
    → scale d b ≤ℤ scale d a +ℤ pos len
scaled_below d a b len h k =
    let e : d * (pos_part b + neg_part a) ≡ d * (pos_part a + neg_part b + abs (b -ℤ a)) =
      (λ i. d * abs_below a b h i) in
    omega (int_laws, e)

scaled_above :
    (d : ℕ) (a b : ℤ) (len : ℕ)
    → b ≤ℤ a
    → d * abs (b -ℤ a) ≤ len
    → scale d a -ℤ pos len ≤ℤ scale d b
scaled_above d a b len h k =
    let e : d * (pos_part a + neg_part b) ≡ d * (pos_part b + neg_part a + abs (b -ℤ a)) =
      (λ i. d * abs_above a b h i) in
    omega (int_laws, e)

-- A step as long as the distance arrives.
pub toward_covers :
    (limit target : ℤ) (step : Stride)
    → 0 < step.parts
    → IsCents target
    → step.parts * abs (target -ℤ limit) ≤ step.length
    → toward limit target step ≡ target
unfolding toward
toward_covers limit target step whole cents long =
    let d = step.parts in
    let goal = scale d target in
    let risen = scale d limit +ℤ pos step.length in
    let fallen = scale d limit -ℤ pos step.length in
    let refl_le : goal ≤ℤ goal = omega arith in
    elim (Bool-cases (ltb (2 * (d * abs (target -ℤ limit))) step.length)) [
      | inl near ↦ rw near (round_of_IsCents target cents)
      | inr far ↦ elim (Bool-cases (ltb_ℤ limit target)) [
        | inl up ↦
            let reach = scaled_below d limit target step.length (ground arith) long in
            rw (far, up)
              (pinned (min risen goal) (le-min risen goal goal reach refl_le)
                (min_le_right risen goal))
        | inr down ↦
            let reach = scaled_above d limit target step.length (ground arith) long in
            rw (far, down)
              (pinned (max fallen goal) (le-max_right fallen goal)
                (max_le fallen goal goal reach refl_le))
      ]
    ]
  where
    pinned :
        (n : ℤ)
        → scale step.parts target ≤ℤ n
        → n ≤ℤ scale step.parts target
        → round_ratio n step.parts ≡ target
    pinned n low high = round_ratio_exact target n step.parts whole cents low high

steps_left_pos : (left every : ℕ) → 0 < steps_left left every
unfolding steps_left
steps_left_pos left every = ground arith

-- Whatever the clock says, the stride chosen is a cent at least, if the tick is.
pub stride-IsStep :
    (kind : StrideKind) (tick : ℕ) (limit target : ℤ) (left every : ℕ)
    → 10 ≤ tick
    → IsStep (stride kind tick limit target left every)
unfolding stride
stride-IsStep by_tick tick limit target left every h = ground arith
stride-IsStep to_arrive tick limit target left every h =
    elim (Bool-cases (ltb (steps_left left every * tick) (abs (target -ℤ limit)))) [
      | inl far ↦ rw far (record {
        whole = steps_left_pos left every;
        cent = long (steps_left left every) (ground arith);
      })
      | inr near ↦ rw near (ground arith)
    ]
  where
    long : (n : ℕ) → n * tick < abs (target -ℤ limit) → 10 * n ≤ abs (target -ℤ limit)
    long n far = let wide : n * 10 ≤ n * tick = grind arith in omega (arith, wide)

last_steps : (left every : ℕ) → left < 2 * every → steps_left left every ≡ 1
unfolding steps_left
last_steps left every h =
    let few : left / every < 2 =
      (div-lt_iff_lt-mul {x = left} {y = 2} (omega arith)).1 (omega arith) in
    ground arith

-- With less than two intervals of patience left, and a target in whole cents, the stride that divides the distance by the steps
-- left takes the price all the way: the walk has arrived before patience ends.
pub last_stride_arrives :
    (tick : ℕ) (limit target : ℤ) (left every : ℕ)
    → left < 2 * every
    → IsCents target
    → toward limit target (stride to_arrive tick limit target left every) ≡ target
unfolding stride
last_stride_arrives tick limit target left every late cents =
    elim (Bool-cases (ltb (1 * tick) (abs (target -ℤ limit)))) [
      | inl far ↦
          rw (last_steps left every late, far)
            (toward_covers limit target _ (omega arith) cents (omega arith))
      | inr near ↦
          rw (last_steps left every late, near)
            (toward_covers limit target _ (omega arith) cents (ground arith))
    ]

pub abs_self : (a : ℤ) → abs (a -ℤ a) ≡ 0
abs_self a = omega (arith, abs_below a a (omega arith))

-- The price after a number of steps toward one target.
pub walk : ℤ → ℤ → List Stride → ℤ
walk target limit [] = limit
walk target limit (step ∷ steps) = walk target (toward limit target step) steps

-- From a limit to a target in whole cents, whatever steps are taken, each a cent at least, a walk of as many steps as there are cents to go
-- ends at its target.
pub walk_arrives :
    (target limit : ℤ) (steps : List Stride)
    → IsCents target
    → IsCents limit
    → All IsStep steps
    → abs (target -ℤ limit) ≤ 10 * length steps
    → walk target limit steps ≡ target
unfolding walk
walk_arrives target limit [] tc lc all near = eq_of_parts limit target (omega (int_laws, near))
walk_arrives target limit (step ∷ steps) tc lc all near =
    elim (Bool-cases (ltb 0 (abs (target -ℤ limit)))) [
      | inl apart ↦
          let (cents, between, closer) = toward-step limit target step all.0 lc tc (λ e.
            let none_left : abs (target -ℤ limit) ≡ 0 = rw e (abs_self target) in ground arith) in
          walk_arrives target (toward limit target step) steps tc cents all.1
            (omega (arith, closer, near))
      | inr there ↦
          let none_left : abs (target -ℤ limit) ≡ 0 = ground arith in
          let zero_length : step.parts * abs (target -ℤ limit) ≤ step.length =
            rw none_left (omega arith) in
          let arrived = toward_covers limit target step all.0.whole tc zero_length in
          rw arrived (walk_arrives target target steps tc tc all.1 (omega (arith, abs_self target)))
    ]
