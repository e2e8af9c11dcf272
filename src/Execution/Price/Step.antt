-- ===== src/Execution/Price/Step.antt =====
-- One step of the walk never passes the price it walks toward, and comes closer: Toward of
-- golang/internal/execution/execution.go.
use swiftward_alpaca_options.Prelude.{
  ◌+◌, ◌*◌, ◌≤◌, ◌<◌, ◌≢◌, ◌⊎◌, inl, inr, arith, ltb, Bool-cases,
}
use swiftward_alpaca_options.Prelude.Int.{
  ℤ-cases, scale-sub, ℤ, pos, negsuc, ◌+ℤ◌, ◌-ℤ◌, scale, abs, ◌≤ℤ◌, ◌<ℤ◌, ltb_ℤ, int_laws, min, max,
  min_le_right, le-min, max_le, le-max_right, abs_below, abs_above, scale_mono, scale-add,
}
use swiftward_alpaca_options.Execution.Price.{Stride, round_ratio, toward}
use swiftward_alpaca_options.Execution.Price.Round.{
  IsCents, round_ratio_lower, round_ratio_upper, round_ratio-IsCents, round_of_IsCents,
}

-- A step of a cent at least.
pub record IsStep (step : Stride) : Type 0 where
  pub whole : 0 < step.parts
  pub cent : 10 * step.parts ≤ step.length

-- Two prices in cents that differ do so by a cent.
pub cents_apart : (a b : ℤ) → IsCents a → IsCents b → a <ℤ b → a +ℤ pos 10 ≤ℤ b
cents_apart (pos a) (pos b) p q h = omega (int_laws, p, q)
cents_apart (pos a) (negsuc b) p q h = absurd (omega arith)
cents_apart (negsuc a) (pos b) p q h = omega (int_laws, p, q)
cents_apart (negsuc a) (negsuc b) p q h = omega (int_laws, p, q)

IsCents-suc : (a : ℤ) → IsCents a → IsCents (a +ℤ pos 10)
unfolding ◌+ℤ◌
IsCents-suc (pos a) p = ground arith
IsCents-suc (negsuc a) p = ground arith

IsCents-pred : (a : ℤ) → IsCents a → IsCents (a -ℤ pos 10)
unfolding ◌-ℤ◌
IsCents-pred (pos a) p = ground arith
IsCents-pred (negsuc a) p = ground arith

closer_up :
    (limit next target : ℤ)
    → limit +ℤ pos 10 ≤ℤ next
    → next ≤ℤ target
    → abs (target -ℤ next) + 10 ≤ abs (target -ℤ limit)
closer_up limit next target h k =
    omega (int_laws, abs_below next target k, abs_below limit target (omega (int_laws, h, k)))

closer_down :
    (limit next target : ℤ)
    → target ≤ℤ next
    → next ≤ℤ limit -ℤ pos 10
    → abs (target -ℤ next) + 10 ≤ abs (target -ℤ limit)
closer_down limit next target h k =
    omega (int_laws, abs_above next target h, abs_above limit target (omega (int_laws, h, k)))

module _ (limit target : ℤ) (step : Stride) (is_step : IsStep step) (limit_cents : IsCents limit)
    (target_cents : IsCents target) where
  rise :
      limit <ℤ target
      → let next =
          round_ratio
            (min (scale step.parts limit +ℤ pos step.length) (scale step.parts target))
            step.parts in
        (limit +ℤ pos 10 ≤ℤ next) × (next ≤ℤ target)
  rise up =
      let apart = cents_apart limit target limit_cents target_cents up in
      let d = step.parts in
      let far = scale_mono d (limit +ℤ pos 10) target apart in
      let near : scale d (limit +ℤ pos 10) ≤ℤ scale d limit +ℤ pos step.length =
        rw (scale-add d limit (pos 10)) (omega (int_laws, is_step)) in
      (
        round_ratio_lower (limit +ℤ pos 10) _ d is_step.whole (IsCents-suc limit limit_cents)
            (le-min _ _ _ near far),
        round_ratio_upper target _ d is_step.whole target_cents (min_le_right _ _),
      )

  fall :
      target <ℤ limit
      → let next =
          round_ratio
            (max (scale step.parts limit -ℤ pos step.length) (scale step.parts target))
            step.parts in
        (target ≤ℤ next) × (next ≤ℤ limit -ℤ pos 10)
  fall down =
      let apart = cents_apart target limit target_cents limit_cents down in
      let d = step.parts in
      let far : scale d target ≤ℤ scale d (limit -ℤ pos 10) =
        scale_mono d target (limit -ℤ pos 10) (omega (int_laws, apart)) in
      let near : scale d limit -ℤ pos step.length ≤ℤ scale d (limit -ℤ pos 10) =
        rw (scale-sub d limit (pos 10)) (omega (int_laws, is_step)) in
      (
        round_ratio_lower target _ d is_step.whole target_cents (le-max_right _ _),
        round_ratio_upper (limit -ℤ pos 10) _ d is_step.whole (IsCents-pred limit limit_cents)
            (max_le _ _ _ near far),
      )

  -- Between two prices in whole cents that differ, one step of a cent or more ends between the limit and the target, or at either, in whole cents, and comes a cent
  -- closer at least.
  pub toward-step :
      limit ≢ target
      → let next = toward limit target step in
        IsCents next
        × (((limit ≤ℤ next) × (next ≤ℤ target)) ⊎ ((target ≤ℤ next) × (next ≤ℤ limit)))
        × (abs (target -ℤ next) + 10 ≤ abs (target -ℤ limit))
  unfolding toward
  toward-step apart =
      elim (Bool-cases (ltb (2 * (step.parts * abs (target -ℤ limit))) step.length)) [
        | inl near ↦
            rw (near, round_of_IsCents target target_cents) (there (ℤ-cases limit target apart))
        | inr far ↦ elim (Bool-cases (ltb_ℤ limit target)) [
          | inl up ↦
              let (low, high) = rise (ground arith) in
              rw (far, up)
                (
                  round_ratio-IsCents _ step.parts,
                  inl (omega (int_laws, low), high),
                  closer_up limit _ target low high,
                )
          | inr not_up ↦ elim (ℤ-cases limit target apart) [
            | inl up ↦ absurd (ground arith)
            | inr down ↦
                let (low, high) = fall down in
                rw (far, not_up)
                  (
                    round_ratio-IsCents _ step.parts,
                    inr (low, omega (int_laws, high)),
                    closer_down limit _ target low high,
                  )
          ]
        ]
      ]
    where
      there :
          (limit <ℤ target) ⊎ (target <ℤ limit)
          → IsCents target
            × (((limit ≤ℤ target) × (target ≤ℤ target)) ⊎ ((target ≤ℤ target) × (target ≤ℤ limit)))
            × (abs (target -ℤ target) + 10 ≤ abs (target -ℤ limit))
      there (inl up) = (
        target_cents,
        inl (omega arith, omega arith),
        closer_up limit target target (cents_apart limit target limit_cents target_cents up)
            (omega arith),
      )
      there (inr down) =
          let apart' = cents_apart target limit target_cents limit_cents down in
          (
            target_cents,
            inr (omega arith, omega arith),
            closer_down limit target target (omega arith) (omega (int_laws, apart')),
          )
