-- ===== src/Prelude/Frac.antt =====
-- Fractions, for the few figures of the program that divide: a numerator, and a denominator that
-- is not zero.
use Prim.Native.Nat.{ℕ, ◌*◌}
use mathlib.Core.Bool.{Bool}
use swiftward_alpaca_options.Prelude.Int.{ℤ, ◌+ℤ◌, ◌-ℤ◌, neg, scale, ltb_ℤ, leb_ℤ}

pub record Frac : Type 0 where
  pub num : ℤ
  pub den : ℕ

abbrev pub whole : ℤ → Frac
whole a = record { num = a; den = 1 }

unfoldable pub negate : Frac → Frac
negate a = record { num = neg a.num; den = a.den }

unfoldable pub minus : Frac → Frac → Frac
minus a b = record { num = scale b.den a.num -ℤ scale a.den b.num; den = a.den * b.den }

unfoldable pub plus : Frac → Frac → Frac
plus a b = record { num = scale b.den a.num +ℤ scale a.den b.num; den = a.den * b.den }

unfoldable pub times : ℕ → Frac → Frac
times n a = record { num = scale n a.num; den = a.den }

unfoldable pub divide : Frac → ℕ → Frac
divide a n = record { num = a.num; den = n * a.den }

abbrev pub ltb_frac : Frac → Frac → Bool
ltb_frac a b = ltb_ℤ (scale b.den a.num) (scale a.den b.num)

abbrev pub leb_frac : Frac → Frac → Bool
leb_frac a b = leb_ℤ (scale b.den a.num) (scale a.den b.num)
