-- ===== src/Execution/Price/Round.antt =====
-- Rounding to the cent keeps every bound that is itself a whole number of cents: round of
-- golang/internal/execution/execution.go.
use swiftward_alpaca_options.Prelude.{ℕ, suc, ◌+◌, ◌*◌, ◌/◌, ◌%◌, ◌≤◌, ◌<◌, ◌≡◌, arith}
use native.Mathlib.Nat.{le-div_iff_mul-le, div-lt_iff_lt-mul}
use swiftward_alpaca_options.Prelude.Int.{
  abs-neg, ℤ, pos, negsuc, scale, abs, ◌≤ℤ◌, int_laws, scale_parts, neg_parts, eq_of_parts,
}
use swiftward_alpaca_options.Execution.Price.{round_ℕ, round_ratio, round}

-- A whole number of cents.
abbrev pub IsCents : ℤ → Type 0
IsCents price = abs price % 10 ≡ 0

tens_lower : (k n d : ℕ) → 0 < d → d * (10 * k) ≤ n → 10 * k ≤ round_ℕ n d
unfolding round_ℕ
tens_lower k n d h low =
    let wide : 0 < 20 * d = omega arith in
    omega (arith, (le-div_iff_mul-le {x = k} {y = 2 * n + 10 * d} wide).1 (omega arith))

tens_upper : (k n d : ℕ) → 0 < d → n ≤ d * (10 * k) → round_ℕ n d ≤ 10 * k
unfolding round_ℕ
tens_upper k n d h high =
    let wide : 0 < 20 * d = omega arith in
    omega (arith, (div-lt_iff_lt-mul {x = 2 * n + 10 * d} {y = suc k} wide).1 (omega arith))

round_ℕ_lower : (c n d : ℕ) → 0 < d → c % 10 ≡ 0 → d * c ≤ n → c ≤ round_ℕ n d
round_ℕ_lower c n d h e low =
    let tens : 10 * (c / 10) ≡ c = omega arith in
    rw tens at (tens_lower (c / 10) n d h (rw tens low))

round_ℕ_upper : (c n d : ℕ) → 0 < d → c % 10 ≡ 0 → n ≤ d * c → round_ℕ n d ≤ c
round_ℕ_upper c n d h e high =
    let tens : 10 * (c / 10) ≡ c = omega arith in
    rw tens at (tens_upper (c / 10) n d h (rw tens high))

round_ℕ-IsCents : (n d : ℕ) → round_ℕ n d % 10 ≡ 0
unfolding round_ℕ
round_ℕ-IsCents n d = omega arith

-- A bound in cents from below, and from above, holds of the rounded price.
pub round_ratio_lower :
    (c n : ℤ) (d : ℕ) → 0 < d → IsCents c → scale d c ≤ℤ n → c ≤ℤ round_ratio n d
unfolding round_ratio
round_ratio_lower (pos c) (pos n) d h e low =
    let up = round_ℕ_lower c n d h (omega arith) (omega (arith, scale_parts d (pos c))) in
    omega (arith, up)
round_ratio_lower (pos c) (negsuc n) d h e low = absurd (omega (arith, scale_parts d (pos c), low))
round_ratio_lower (negsuc c) (pos n) d h e low = omega arith
round_ratio_lower (negsuc c) (negsuc n) d h e low =
    let up =
      round_ℕ_upper (suc c) (suc n) d h (omega arith)
        (omega (arith, scale_parts d (negsuc c), low)) in
    omega (arith, neg_parts (pos (round_ℕ (suc n) d)), up)

pub round_ratio_upper :
    (c n : ℤ) (d : ℕ) → 0 < d → IsCents c → n ≤ℤ scale d c → round_ratio n d ≤ℤ c
unfolding round_ratio
round_ratio_upper (pos c) (pos n) d h e high =
    let up = round_ℕ_upper c n d h (omega arith) (omega (arith, scale_parts d (pos c))) in
    omega (arith, up)
round_ratio_upper (pos c) (negsuc n) d h e high = omega (arith, neg_parts (pos (round_ℕ (suc n) d)))
round_ratio_upper (negsuc c) (pos n) d h e high = absurd (omega (arith, scale_parts d (negsuc c)))
round_ratio_upper (negsuc c) (negsuc n) d h e high =
    let low =
      round_ℕ_lower (suc c) (suc n) d h (omega arith) (omega (arith, scale_parts d (negsuc c))) in
    omega (arith, neg_parts (pos (round_ℕ (suc n) d)), low)

pub round_ratio-IsCents : (n : ℤ) (d : ℕ) → IsCents (round_ratio n d)
unfolding round_ratio
round_ratio-IsCents (pos n) d = omega (arith, round_ℕ-IsCents n d)
round_ratio-IsCents (negsuc n) d =
    omega (arith, round_ℕ-IsCents (suc n) d, abs-neg (pos (round_ℕ (suc n) d)))

-- What is already a number of cents is not moved.
pub round_ratio_exact :
    (c n : ℤ) (d : ℕ) → 0 < d → IsCents c → scale d c ≤ℤ n → n ≤ℤ scale d c → round_ratio n d ≡ c
round_ratio_exact c n d h e low high =
    let above = round_ratio_lower c n d h e low in
    let below = round_ratio_upper c n d h e high in eq_of_parts _ _ (omega (arith, above, below))

pub round_of_IsCents : (price : ℤ) → IsCents price → round price ≡ price
unfolding round
round_of_IsCents price e =
    round_ratio_exact price price 1 (omega arith) e (omega int_laws) (omega int_laws)

pub round-IsCents : (price : ℤ) → IsCents (round price)
unfolding round
round-IsCents price = round_ratio-IsCents price 1
