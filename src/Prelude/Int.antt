-- ===== src/Prelude/Int.antt =====
-- Signed integers over the native numbers. Every dollar figure of the program is one of these,
-- counted in mills, thousandths of a dollar; so is every signed number of contracts.
use Prim.Native.Nat.{ℕ, zero, suc, ◌+◌, ◌-◌, ◌*◌, ◌≤◌, ◌<◌}
use mathlib.Core.Path.{◌≡◌}
use mathlib.Core.Logic.{◌⊎◌, ◌≢◌, inl, inr}
use mathlib.Core.Bool.{Bool}
use native.Mathlib.Omega.{arith}
use swiftward_alpaca_options.Prelude.Tests.{Bool-cases, ltb, leb, if◌then◌else◌}
use mathlib.Core.Bool.{◌&&◌}

-- `negsuc n` is -(n + 1).
pub data ℤ : Type 0 where
  pos : ℕ → ℤ
  negsuc : ℕ → ℤ

abbrev pub pos_part : ℤ → ℕ
pos_part (pos n) = n
pos_part (negsuc n) = 0

abbrev pub neg_part : ℤ → ℕ
neg_part (pos n) = 0
neg_part (negsuc n) = suc n

-- a - b, as an integer.
abbrev pub sub_ℕ : ℕ → ℕ → ℤ
sub_ℕ a b = if leb b a then pos (a - b) else negsuc (b - a - 1)

infixl 65 ◌+ℤ◌ ◌-ℤ◌
infix 50 ◌≤ℤ◌ ◌<ℤ◌
unfoldable pub ◌+ℤ◌ : ℤ → ℤ → ℤ
a +ℤ b = sub_ℕ (pos_part a + pos_part b) (neg_part a + neg_part b)

unfoldable pub ◌-ℤ◌ : ℤ → ℤ → ℤ
a -ℤ b = sub_ℕ (pos_part a + neg_part b) (neg_part a + pos_part b)

unfoldable pub neg : ℤ → ℤ
neg a = sub_ℕ (neg_part a) (pos_part a)

-- The product of a number and an integer.
unfoldable pub scale : ℕ → ℤ → ℤ
scale n a = sub_ℕ (n * pos_part a) (n * neg_part a)

abbrev pub ◌≤ℤ◌ : ℤ → ℤ → Type 0
a ≤ℤ b = pos_part a + neg_part b ≤ pos_part b + neg_part a

abbrev pub ◌<ℤ◌ : ℤ → ℤ → Type 0
a <ℤ b = pos_part a + neg_part b < pos_part b + neg_part a

abbrev pub ltb_ℤ : ℤ → ℤ → Bool
ltb_ℤ a b = ltb (pos_part a + neg_part b) (pos_part b + neg_part a)

abbrev pub leb_ℤ : ℤ → ℤ → Bool
leb_ℤ a b = leb (pos_part a + neg_part b) (pos_part b + neg_part a)

abbrev pub eqb_ℤ : ℤ → ℤ → Bool
eqb_ℤ a b = leb_ℤ a b && leb_ℤ b a

unfoldable pub min : ℤ → ℤ → ℤ
min a b = if leb_ℤ a b then a else b

unfoldable pub max : ℤ → ℤ → ℤ
max a b = if leb_ℤ a b then b else a

-- The absolute value, a number.
abbrev pub abs : ℤ → ℕ
abs a = pos_part a + neg_part a

pub +ℤ_parts :
    (a b : ℤ)
    → pos_part (a +ℤ b) + neg_part a + neg_part b ≡ neg_part (a +ℤ b) + pos_part a + pos_part b
unfolding ◌+ℤ◌
+ℤ_parts a b = ground arith

pub -ℤ_parts :
    (a b : ℤ)
    → pos_part (a -ℤ b) + neg_part a + pos_part b ≡ neg_part (a -ℤ b) + pos_part a + neg_part b
unfolding ◌-ℤ◌
-ℤ_parts a b = ground arith

pub neg_parts : (a : ℤ) → pos_part (neg a) + pos_part a ≡ neg_part (neg a) + neg_part a
unfolding neg
neg_parts a = ground arith

pub eq_of_parts : (a b : ℤ) → pos_part a + neg_part b ≡ pos_part b + neg_part a → a ≡ b
eq_of_parts a b h = ground arith

pub scale_parts :
    (n : ℕ) (a : ℤ) → pos_part (scale n a) + n * neg_part a ≡ neg_part (scale n a) + n * pos_part a
unfolding scale
scale_parts n a = ground arith

pub min_cases : (a b : ℤ) → ((a ≤ℤ b) × (min a b ≡ a)) ⊎ ((b ≤ℤ a) × (min a b ≡ b))
unfolding min
min_cases a b = ground arith

pub min_le_left : (a b : ℤ) → min a b ≤ℤ a
unfolding min
min_le_left a b = ground arith

pub min_le_right : (a b : ℤ) → min a b ≤ℤ b
unfolding min
min_le_right a b = ground arith

pub le-min : (a b c : ℤ) → c ≤ℤ a → c ≤ℤ b → c ≤ℤ min a b
unfolding min
le-min a b c h k = ground arith

pub ruleset int_laws = (arith, +ℤ_parts, -ℤ_parts, neg_parts, scale_parts, eq_of_parts)

pub scale-add : (n : ℕ) (a b : ℤ) → scale n (a +ℤ b) ≡ scale n a +ℤ scale n b
scale-add n a b =
    let p : n * (pos_part (a +ℤ b) + neg_part a + neg_part b)
        ≡ n * (neg_part (a +ℤ b) + pos_part a + pos_part b) =
      (λ i. n * (+ℤ_parts a b i)) in
    omega int_laws

pub scale-sub : (n : ℕ) (a b : ℤ) → scale n (a -ℤ b) ≡ scale n a -ℤ scale n b
scale-sub n a b =
    let p : n * (pos_part (a -ℤ b) + neg_part a + pos_part b)
        ≡ n * (neg_part (a -ℤ b) + pos_part a + neg_part b) =
      (λ i. n * (-ℤ_parts a b i)) in
    omega int_laws

pub scale-neg : (n : ℕ) (a : ℤ) → scale n (neg a) ≡ neg (scale n a)
scale-neg n a =
    let p : n * (pos_part (neg a) + pos_part a) ≡ n * (neg_part (neg a) + neg_part a) =
      (λ i. n * (neg_parts a i)) in
    omega int_laws

pub scale-suc : (n : ℕ) (a : ℤ) → scale (suc n) a ≡ scale n a +ℤ a
scale-suc n a = omega int_laws

pub scale-zero : (a : ℤ) → scale zero a ≡ pos 0
scale-zero a = omega int_laws

pub scale_negative : (n : ℕ) (a : ℤ) → a <ℤ pos 0 → pos_part (scale n a) + n ≤ neg_part (scale n a)
scale_negative n (pos a) h = absurd (omega arith)
scale_negative n (negsuc a) h = omega (arith, scale_parts n (negsuc a))

pub abs-neg : (a : ℤ) → abs (neg a) ≡ abs a
unfolding neg
abs-neg a = ground arith

pub max_le : (a b c : ℤ) → a ≤ℤ c → b ≤ℤ c → max a b ≤ℤ c
unfolding max
max_le a b c h k = ground arith

pub le-max_right : (a b : ℤ) → b ≤ℤ max a b
unfolding max
le-max_right a b = ground arith

-- A distance measured from either end.
pub abs_below :
    (a b : ℤ) → a ≤ℤ b → pos_part b + neg_part a ≡ pos_part a + neg_part b + abs (b -ℤ a)
unfolding ◌-ℤ◌
abs_below a b h = ground arith

pub abs_above :
    (a b : ℤ) → b ≤ℤ a → pos_part a + neg_part b ≡ pos_part b + neg_part a + abs (b -ℤ a)
unfolding ◌-ℤ◌
abs_above a b h = ground arith

mul_mono : (n x y : ℕ) → x ≤ y → n * x ≤ n * y
mul_mono n x y h = grind arith

pub scale_mono : (n : ℕ) (a b : ℤ) → a ≤ℤ b → scale n a ≤ℤ scale n b
scale_mono n a b h =
    let p = mul_mono n (pos_part a + neg_part b) (pos_part b + neg_part a) h in omega (int_laws, p)

pub ℤ-cases : (a b : ℤ) → a ≢ b → (a <ℤ b) ⊎ (b <ℤ a)
ℤ-cases a b apart = elim (Bool-cases (ltb_ℤ a b)) [
  | inl below ↦ inl (ground arith)
  | inr above ↦ elim (Bool-cases (ltb_ℤ b a)) [
    | inl over ↦ inr (ground arith)
    | inr level ↦ absurd (apart (eq_of_parts a b (ground arith)))
  ]
]

pub scale_nonneg : (n : ℕ) (a : ℤ) → pos 0 ≤ℤ a → pos 0 ≤ℤ scale n a
scale_nonneg n (pos a) h = omega (arith, scale_parts n (pos a))
scale_nonneg n (negsuc a) h = absurd (omega arith)
