-- ===== src/Execution/Name/Fields.antt =====
-- Which field of a name decides: stated of golang/internal/execution/reservation.go.
use swiftward_alpaca_options.Prelude.{
  ℕ, ◌+◌, ◌-◌, ◌*◌, ◌≡◌, refl, sym, ap, ◌∙◌, Bool, true, false, not, ◌&&◌, inl, inr, Option, none,
  some, List, [], ◌∷◌, ◌++◌, arith, ◌==◌, all, Bool-cases,
}
use swiftward_alpaca_options.Prelude.Int.{ℤ}
use swiftward_alpaca_options.Prelude.Text.{Text, is_digit, trim_space, cut_prefix, all-trim_space}
use swiftward_alpaca_options.Execution.Price.Round.{IsCents}
use swiftward_alpaca_options.Execution.Name.Digits.{all-show, read_price-IsCents}
use swiftward_alpaca_options.Execution.Name.{
  read_price, worst_prefix, cons_head, split_by, is_separator, drop_empty, stated_field, stated_in,
  flatten, reservation, digits_value, within, some_digits, is_int64, show,
}

abbrev pub or_else : Option (Option ℤ) → Option (Option ℤ) → Option (Option ℤ)
or_else none b = b
or_else (some v) b = some v

-- The first stated number of a name, read or not.
pub stated : Text → Option (Option ℤ)
stated name = stated_in (split_by is_separator name)

stated_in-drop_empty : (fields : List Text) → stated_in (drop_empty fields) ≡ stated_in fields
unfolding stated_in cut_prefix
stated_in-drop_empty [] = refl
stated_in-drop_empty ([] ∷ fields) = stated_in-drop_empty fields
stated_in-drop_empty ((c ∷ s) ∷ fields) = rw (stated_in-drop_empty fields)

pub reservation-stated : (name : Text) → reservation name ≡ flatten (stated name)
unfolding reservation stated
reservation-stated name = ap flatten (stated_in-drop_empty (split_by is_separator name))

stated_in-append :
    (xs ys : List Text) → stated_in (xs ++ ys) ≡ or_else (stated_in xs) (stated_in ys)
unfolding stated_in
stated_in-append [] ys = refl
stated_in-append (x ∷ xs) ys = by_field (cut_prefix worst_prefix x) (stated_in-append xs ys)
  where
    by_field :
        (o : Option Text)
        → stated_in (xs ++ ys) ≡ or_else (stated_in xs) (stated_in ys)
        → stated_field o (stated_in (xs ++ ys))
          ≡ or_else (stated_field o (stated_in xs)) (stated_in ys)
    by_field none e = e
    by_field (some v) e = refl

pub split_by_some :
    (is_sep : ℕ → Bool) (s : Text) → (f : Text) × (fs : List Text) × (split_by is_sep s ≡ f ∷ fs)
unfolding split_by
split_by_some is_sep [] = ([], [], refl)
split_by_some is_sep (c ∷ s) = elim (Bool-cases (is_sep c)) [
  | inl here ↦ ([], split_by is_sep s, rw here)
  | inr there ↦
      let (f, fs, e) = split_by_some is_sep s in (c ∷ f, fs, rw there (ap (cons_head c) e))
]

pub split_by-append :
    (is_sep : ℕ → Bool) (a : Text) (c : ℕ) (b : Text)
    → is_sep c ≡ true
    → split_by is_sep (a ++ c ∷ b) ≡ split_by is_sep a ++ split_by is_sep b
unfolding split_by
split_by-append is_sep [] c b h = rw h
split_by-append is_sep (x ∷ a) c b h = elim (Bool-cases (is_sep x)) [
  | inl here ↦ rw (here, split_by-append is_sep a c b h)
  | inr there ↦
      let (f, fs, e) = split_by_some is_sep a in rw (there, split_by-append is_sep a c b h, e)
]

-- Behind a semicolon the second part counts only where the first states nothing.
pub stated-stamped : (a b : Text) → stated (a ++ (b';' ∷ b)) ≡ or_else (stated a) (stated b)
unfolding stated
stated-stamped a b =
    ap stated_in (split_by-append is_separator a b';' b refl)
    ∙ stated_in-append (split_by is_separator a) (split_by is_separator b)

abbrev pub no_w : ℕ → Bool
no_w c = not (c == b'w')

split_by-all :
    (is_sep p : ℕ → Bool) (s : Text) → all p s ≡ true → all (all p) (split_by is_sep s) ≡ true
unfolding split_by
split_by-all is_sep p [] h = refl
split_by-all is_sep p (c ∷ s) h = elim (Bool-cases (is_sep c)) [
  | inl here ↦ rw here (split_by-all is_sep p s (ground arith))
  | inr there ↦
      let (f, fs, e) = split_by_some is_sep s in
      let rest = split_by-all is_sep p s (ground arith) in
      rw (there, e) (ground (arith, rw e at rest))
]

no_w_field : (s : Text) → all no_w s ≡ true → cut_prefix worst_prefix s ≡ none
unfolding cut_prefix
no_w_field [] h = refl
no_w_field (c ∷ s) h = let e : (b'w' == c) ≡ false = ground arith in rw e

no_w_fields : (fields : List Text) → all (all no_w) fields ≡ true → stated_in fields ≡ none
unfolding stated_in
no_w_fields [] h = refl
no_w_fields (f ∷ fs) h = rw (no_w_field f (ground arith)) (no_w_fields fs (ground arith))

-- A text with no `w` in it states nothing.
pub stated-none : (s : Text) → all no_w s ≡ true → stated s ≡ none
unfolding stated
stated-none s h = no_w_fields (split_by is_separator s) (split_by-all is_separator no_w s h)

module _ (p : ℕ → Bool) (digits : (c : ℕ) → is_digit c ≡ true → p c ≡ true) where
  all-digits_value :
      (most n : ℕ) (s : Text) → within most (digits_value n s) ≡ true → all p s ≡ true
  all-digits_value most n [] h = refl
  all-digits_value most n (c ∷ s) h = elim (Bool-cases (is_digit c)) [
    | inl digit ↦
        rw (digits c digit) (all-digits_value most (10 * n + (c - b'0')) s (rw digit at h))
    | inr other ↦ absurd (contra (rw other at h))
  ]
    where
      contra : false ≡ true → ⊥
      contra e = cc

  all-some_digits : (most : ℕ) (s : Text) → some_digits most s ≡ true → all p s ≡ true
  all-some_digits most [] h = refl
  all-some_digits most (c ∷ s) h = all-digits_value most 0 (c ∷ s) h

  -- What holds of digits and signs holds of a 64-bit number.
  pub all-is_int64 : p b'-' ≡ true → p b'+' ≡ true → (s : Text) → is_int64 s ≡ true → all p s ≡ true
  unfolding is_int64
  all-is_int64 minus plus [] h = refl
  all-is_int64 minus plus (c ∷ s) h = elim (Bool-cases (c == b'-')) [
    | inl is_minus ↦
        rw (ap p (equal c b'-' is_minus) ∙ minus)
          (all-some_digits 9223372036854775808 s (rw is_minus at h))
    | inr not_minus ↦ elim (Bool-cases (c == b'+')) [
      | inl is_plus ↦
          rw (ap p (equal c b'+' is_plus) ∙ plus)
            (all-some_digits 9223372036854775807 s (rw (not_minus, is_plus) at h))
      | inr digit ↦ all-some_digits 9223372036854775807 (c ∷ s) (rw (not_minus, digit) at h)
    ]
  ]
    where
      equal : (a b : ℕ) → (a == b) ≡ true → a ≡ b
      equal a b e = ground arith

-- A stamp states nothing.
pub stated_stamp : (field : Text) → is_int64 (trim_space field) ≡ true → stated field ≡ none
stated_stamp field h = stated-none field (
    all-trim_space no_w (λ c space. ground arith) field
      (all-is_int64 no_w (λ c digit. ground arith) refl refl (trim_space field) h))

pub stated-show : (n : ℕ) → stated (show n []) ≡ none
stated-show n = stated-none (show n []) (all-show no_w (λ v small. ground arith) n [] refl)

-- A text without a separator is one field.
pub split_by_one :
    (is_sep : ℕ → Bool) (s : Text) → all (λ c. not (is_sep c)) s ≡ true → split_by is_sep s ≡ s ∷ []
unfolding split_by
split_by_one is_sep [] h = refl
split_by_one is_sep (c ∷ s) h =
    let (plain, rest) = and_parts (is_sep c) (all (λ c. not (is_sep c)) s) h in
    rw (plain, split_by_one is_sep s rest)
  where
    and_parts : (a b : Bool) → (not a && b) ≡ true → (a ≡ false) × (b ≡ true)
    and_parts a b e = ground arith

-- The fields between separators have none in them.
pub split_by_plain :
    (is_sep : ℕ → Bool) (s : Text) → all (all (λ c. not (is_sep c))) (split_by is_sep s) ≡ true
unfolding split_by
split_by_plain is_sep [] = refl
split_by_plain is_sep (c ∷ s) = elim (Bool-cases (is_sep c)) [
  | inl here ↦ rw here (split_by_plain is_sep s)
  | inr there ↦
      let (f, fs, e) = split_by_some is_sep s in
      rw (there, e) (rw there (rw e at (split_by_plain is_sep s)))
]

stated_in-IsCents :
    (fields : List Text) (floor : ℤ) → stated_in fields ≡ some (some floor) → IsCents floor
unfolding stated_in
stated_in-IsCents [] floor h = absurd (cc)
stated_in-IsCents (field ∷ fields) floor h =
    by_field (cut_prefix worst_prefix field) h (stated_in-IsCents fields floor)
  where
    by_field :
        (o : Option Text)
        → stated_field o (stated_in fields) ≡ some (some floor)
        → (stated_in fields ≡ some (some floor) → IsCents floor)
        → IsCents floor
    by_field none e rest = rest e
    by_field (some v) e rest = read_price-IsCents v floor (cc)

-- A worst price that is read is a whole number of cents.
pub reservation-IsCents : (name : Text) (floor : ℤ) → reservation name ≡ some floor → IsCents floor
unfolding stated
reservation-IsCents name floor h =
    stated_in-IsCents (split_by is_separator name) floor
      (flat (stated name) (sym (reservation-stated name) ∙ h))
  where
    flat : (o : Option (Option ℤ)) → flatten o ≡ some floor → o ≡ some (some floor)
    flat none e = cc
    flat (some v) e = cc

-- A name that is the prefix and a text without separators states what the text reads as.
pub stated_field_name :
    (s : Text)
    → all (λ c. not (is_separator c)) s ≡ true
    → stated (worst_prefix ++ s) ≡ some (read_price s)
unfolding stated stated_in cut_prefix
stated_field_name s h = ap stated_in (split_by_one is_separator (worst_prefix ++ s) h)
