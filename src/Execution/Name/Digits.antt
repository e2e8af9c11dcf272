-- ===== src/Execution/Name/Digits.antt =====
-- A price that is written into a name is read back: NameFor and stated of
-- golang/internal/execution/reservation.go.
use swiftward_alpaca_options.Prelude.{
  ℕ, zero, suc, ◌+◌, ◌-◌, ◌*◌, ◌/◌, ◌%◌, ◌<◌, ◌≡◌, ap, ◌∙◌, Bool, true, false, inl, inr, Option,
  none, some, [], ◌∷◌, arith, ltb, ◌==◌, any, all, Bool-cases,
}
use swiftward_alpaca_options.Prelude.Int.{ℤ, pos, negsuc, neg, scale_parts, int_laws}
use swiftward_alpaca_options.Prelude.Text.{Text, is_digit}
use mathlib.Core.Option.{some-injective}
use mathlib.Core.Path.{subst}
use swiftward_alpaca_options.Execution.Price.Round.{IsCents, round_ratio_exact, round_ratio-IsCents}
use swiftward_alpaca_options.Execution.Name.{
  show_from, show, show_cents, show_price, read_fraction, read_decimal, priced, read_unsigned,
  read_price,
}

digit_back : (v : ℕ) → (b'0' + v) - b'0' ≡ v
digit_back v = omega arith

read_decimal_digit :
    (n v : ℕ) (rest : Text)
    → v < 10
    → read_decimal n ((b'0' + v) ∷ rest) ≡ read_decimal (10 * n + v) rest
unfolding read_decimal
read_decimal_digit n v rest h =
    let plain : ((b'0' + v) == b'.') ≡ false = ground arith in
    let digit : is_digit (b'0' + v) ≡ true = ground arith in rw (plain, digit, digit_back v)

read_decimal-show_from :
    (fuel n : ℕ) (rest : Text)
    → n < fuel
    → read_decimal 0 (show_from fuel n rest) ≡ read_decimal n rest
unfolding show_from
read_decimal-show_from zero n rest h = absurd (omega arith)
read_decimal-show_from (suc fuel) n rest h = elim (Bool-cases (ltb n 10)) [
  | inl small ↦
      let e : 10 * 0 + n ≡ n = omega arith in
      rw small (read_decimal_digit 0 n rest (ground arith) ∙ ap (λ m. read_decimal m rest) e)
  | inr large ↦
      let e : 10 * (n / 10) + n % 10 ≡ n = omega arith in
      rw large (
        read_decimal-show_from fuel (n / 10) ((b'0' + n % 10) ∷ rest) (ground arith)
        ∙ read_decimal_digit (n / 10) (n % 10) rest (omega arith)
        ∙ ap (λ m. read_decimal m rest) e)
]

read_fraction_digit :
    (n d v : ℕ) (rest : Text)
    → v < 10
    → read_fraction n d ((b'0' + v) ∷ rest) ≡ read_fraction (10 * n + v) (10 * d) rest
unfolding read_fraction
read_fraction_digit n d v rest h =
    let digit : is_digit (b'0' + v) ≡ true = ground arith in rw (digit, digit_back v)

-- A price of so many cents reads back as that many hundredths.
read_decimal-show_cents : (cents : ℕ) → read_decimal 0 (show_cents cents) ≡ some (cents, 100)
unfolding show_cents show read_decimal
read_decimal-show_cents cents =
    let tens = cents % 100 / 10 in
    let units = cents % 10 in
    let e : 10 * (10 * (cents / 100) + tens) + units ≡ cents = omega arith in
    read_decimal-show_from (suc (cents / 100)) (cents / 100) _ (omega arith)
    ∙ read_fraction_digit (cents / 100) 1 tens ((b'0' + units) ∷ []) (omega arith)
    ∙ read_fraction_digit (10 * (cents / 100) + tens) (10 * 1) units [] (omega arith)
    ∙ ap (λ n. some (n, 100)) e

abbrev starts_digit : Text → Bool
starts_digit [] = false
starts_digit (c ∷ s) = is_digit c

show_from_starts :
    (fuel n : ℕ) (rest : Text) → n < fuel → starts_digit (show_from fuel n rest) ≡ true
unfolding show_from
show_from_starts zero n rest h = absurd (omega arith)
show_from_starts (suc fuel) n rest h = elim (Bool-cases (ltb n 10)) [
  | inl small ↦ rw small (ground arith)
  | inr large ↦ rw large (show_from_starts fuel (n / 10) _ (ground arith))
]

show_cents_starts : (cents : ℕ) → starts_digit (show_cents cents) ≡ true
unfolding show_cents show
show_cents_starts cents = show_from_starts (suc (cents / 100)) (cents / 100) _ (omega arith)

any_starts : (s : Text) → starts_digit s ≡ true → any is_digit s ≡ true
any_starts [] h = cc
any_starts (c ∷ s) h = ground arith

read_price_plain :
    (s : Text) → starts_digit s ≡ true → read_price s ≡ priced false (read_decimal 0 s)
unfolding read_price
read_price_plain [] h = cc
read_price_plain (c ∷ s) h =
    let not_minus : (c == b'-') ≡ false = ground arith in
    let not_plus : (c == b'+') ≡ false = ground arith in
    rw (not_minus, not_plus, any_starts (c ∷ s) h)

read_price_minus :
    (s : Text) → starts_digit s ≡ true → read_price (b'-' ∷ s) ≡ priced true (read_decimal 0 s)
unfolding read_price
read_price_minus s h = rw (any_starts s h)

-- Writing a price in whole cents and reading it gives the price.
pub read_price-show_price : (price : ℤ) → IsCents price → read_price (show_price price) ≡ some price
unfolding show_price
read_price-show_price (pos mills) h =
    read_price_plain (show_cents (mills / 10)) (show_cents_starts (mills / 10))
    ∙ ap (priced false) (read_decimal-show_cents (mills / 10))
    ∙ ap some (
        round_ratio_exact (pos mills) (pos (1000 * (mills / 10))) 100 (omega arith) h
          (omega (arith, scale_parts 100 (pos mills), h))
          (omega (arith, scale_parts 100 (pos mills), h)))
read_price-show_price (negsuc n) h =
    read_price_minus (show_cents (suc n / 10)) (show_cents_starts (suc n / 10))
    ∙ ap (priced true) (read_decimal-show_cents (suc n / 10))
    ∙ ap some (
        round_ratio_exact (negsuc n) (neg (pos (1000 * (suc n / 10)))) 100 (omega arith) h
          (omega (int_laws, h)) (omega (int_laws, h)))

priced-IsCents :
    (negative : Bool) (o : Option (ℕ × ℕ)) (p : ℤ) → priced negative o ≡ some p → IsCents p
priced-IsCents negative none p h = cc
priced-IsCents negative (some (n, d)) p h =
    subst IsCents (some-injective _ _ h) (round_ratio-IsCents _ d)

read_unsigned-IsCents :
    (negative : Bool) (s : Text) (p : ℤ) → read_unsigned negative s ≡ some p → IsCents p
read_unsigned-IsCents negative s p h = elim (Bool-cases (any is_digit s)) [
  | inl digits ↦ priced-IsCents negative (read_decimal 0 s) p (rw digits at h)
  | inr nothing ↦ absurd (contra (rw nothing at h))
]
  where
    contra : none ≡ some p → ⊥
    contra e = cc

-- A price that is read is a whole number of cents.
pub read_price-IsCents : (s : Text) (p : ℤ) → read_price s ≡ some p → IsCents p
unfolding read_price
read_price-IsCents [] p h = cc
read_price-IsCents (c ∷ s) p h = elim (Bool-cases (c == b'-')) [
  | inl minus ↦ read_unsigned-IsCents true s p (rw minus at h)
  | inr not_minus ↦ elim (Bool-cases (c == b'+')) [
    | inl plus ↦ read_unsigned-IsCents false s p (rw (not_minus, plus) at h)
    | inr plain ↦ read_unsigned-IsCents false (c ∷ s) p (rw (not_minus, plain) at h)
  ]
]

-- What holds of digits holds of a number that is written out.
module _ (p : ℕ → Bool) (digits : (v : ℕ) → v < 10 → p (b'0' + v) ≡ true) where
  all-show_from :
      (fuel n : ℕ) (rest : Text) → all p rest ≡ true → all p (show_from fuel n rest) ≡ true
  unfolding show_from
  all-show_from zero n rest h = h
  all-show_from (suc fuel) n rest h = elim (Bool-cases (ltb n 10)) [
    | inl small ↦ rw (small, digits n (ground arith)) h
    | inr large ↦ rw large (all-show_from fuel (n / 10) _ (rw (digits (n % 10) (omega arith)) h))
  ]

  pub all-show : (n : ℕ) (rest : Text) → all p rest ≡ true → all p (show n rest) ≡ true
  unfolding show
  all-show n rest h = all-show_from (suc n) n rest h

  all-show_cents : (cents : ℕ) → p b'.' ≡ true → all p (show_cents cents) ≡ true
  unfolding show_cents
  all-show_cents cents point =
      all-show (cents / 100) _
        (rw (point, digits (cents % 100 / 10) (omega arith), digits (cents % 10) (omega arith)))

  pub all-show_price : (price : ℤ) → p b'-' ≡ true → p b'.' ≡ true → all p (show_price price) ≡ true
  unfolding show_price
  all-show_price (pos mills) minus point = all-show_cents (mills / 10) point
  all-show_price (negsuc n) minus point = rw minus (all-show_cents (suc n / 10) point)
