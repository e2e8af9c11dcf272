-- ===== src/Prelude/Text.antt =====
-- Texts as lists of bytes, with what the source uses of Go's `strings`. The texts of the program
-- are ASCII.
use Prim.Native.Nat.{ℕ, ◌+◌, ◌-◌}
use Prim.Native.Char.{code}
use Prim.Native.String.{String}
use mathlib.Core.Path.{◌≡◌, refl, sym, ◌∙◌}
use mathlib.Core.Logic.{inl, inr}
use mathlib.Core.Bool.{Bool, true, false, ◌&&◌, ◌||◌}
use mathlib.Core.Option.{Option, none, some}
use mathlib.Core.List.{List, [], ◌∷◌, reverse, reverse_aux}
use native.Mathlib.Omega.{arith}
use swiftward_alpaca_options.Prelude.Tests.{Bool-cases, leb, ◌==◌, if◌then◌else◌}
use swiftward_alpaca_options.Prelude.Lists.{all, length, drop}

abbrev pub Text : Type 0
Text = List ℕ

abbrev pub codes : String → Text
codes String.[] = []
codes (String.◌∷◌ c s) = code c ∷ codes s

unfoldable pub text_eq : Text → Text → Bool
text_eq [] [] = true
text_eq [] (b ∷ t) = false
text_eq (a ∷ s) [] = false
text_eq (a ∷ s) (b ∷ t) = (a == b) && text_eq s t

pub text_eq→eq : (s t : Text) → text_eq s t ≡ true → s ≡ t
unfolding text_eq
text_eq→eq [] [] h = refl
text_eq→eq [] (b ∷ t) h = cc
text_eq→eq (a ∷ s) [] h = cc
text_eq→eq (a ∷ s) (b ∷ t) h = ground (arith, text_eq→eq s t)

pub text_eq_self : (s : Text) → text_eq s s ≡ true
unfolding text_eq
text_eq_self [] = refl
text_eq_self (a ∷ s) = ground (arith, text_eq_self s)

abbrev pub is_space : ℕ → Bool
is_space c = (c == 32) || (leb 9 c && leb c 13)

abbrev pub is_digit : ℕ → Bool
is_digit c = leb b'0' c && leb c b'9'

pub trim_left : Text → Text
trim_left [] = []
trim_left (c ∷ s) = if is_space c then trim_left s else c ∷ s

-- strings.TrimSpace
unfoldable pub trim_space : Text → Text
unfolding trim_left
trim_space s = reverse (trim_left (reverse (trim_left s)))

-- strings.ToUpper
abbrev pub upper_byte : ℕ → ℕ
upper_byte c = if leb b'a' c && leb c b'z' then c - 32 else c

unfoldable pub to_upper : Text → Text
to_upper [] = []
to_upper (c ∷ s) = upper_byte c ∷ to_upper s

-- strings.ToLower
abbrev pub lower_byte : ℕ → ℕ
lower_byte c = if leb b'A' c && leb c b'Z' then c + 32 else c

unfoldable pub to_lower : Text → Text
to_lower [] = []
to_lower (c ∷ s) = lower_byte c ∷ to_lower s

-- strings.CutPrefix: what follows a prefix, if the text has it.
unfoldable pub cut_prefix : Text → Text → Option Text
cut_prefix [] s = some s
cut_prefix (p ∷ ps) [] = none
cut_prefix (p ∷ ps) (c ∷ s) = if p == c then cut_prefix ps s else none

-- strings.HasSuffix
unfoldable pub has_suffix : Text → Text → Bool
unfolding text_eq
has_suffix s suffix =
    leb (length suffix) (length s) && text_eq (drop (length s - length suffix) s) suffix

module _ (p : ℕ → Bool) where
  all-reverse_aux : (s r : Text) → all p (reverse_aux s r) ≡ (all p s && all p r)
  all-reverse_aux [] r = refl
  all-reverse_aux (c ∷ s) r = rw (all-reverse_aux s (c ∷ r)) (ground arith)

  all-reverse : (s : Text) → all p (reverse s) ≡ all p s
  all-reverse s = all-reverse_aux s [] ∙ and_true (all p s)
    where
      and_true : (b : Bool) → (b && true) ≡ b
      and_true b = ground arith

  module _ (spaces : (c : ℕ) → is_space c ≡ true → p c ≡ true) where
    all-trim_left : (s : Text) → all p (trim_left s) ≡ true → all p s ≡ true
    unfolding trim_left
    all-trim_left [] h = refl
    all-trim_left (c ∷ s) h = elim (Bool-cases (is_space c)) [
      | inl space ↦ rw (spaces c space) (all-trim_left s (rw space at h))
      | inr kept ↦ ground (arith, rw kept at h)
    ]

    -- What holds of every space and of a trimmed text holds of the text.
    pub all-trim_space : (s : Text) → all p (trim_space s) ≡ true → all p s ≡ true
    unfolding trim_space
    all-trim_space s h = all-trim_left s (
        sym (all-reverse (trim_left s))
        ∙ all-trim_left (reverse (trim_left s)) (sym (all-reverse _) ∙ h))
