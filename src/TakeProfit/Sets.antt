-- ===== src/TakeProfit/Sets.antt =====
-- The order that closes a structure closes all of it: setsIn, gcd and the legs of consider, of
-- golang/internal/takeprofit/step.go.
use swiftward_alpaca_options.Prelude.{
  ℕ, zero, suc, ◌*◌, ◌/◌, ◌%◌, ◌<◌, ◌≡◌, refl, sym, false, some, List, [], ◌∷◌, ◌==◌, ltb,
  if◌then◌else◌, arith, inl, inr, Bool-cases, All,
}
use swiftward_alpaca_options.Prelude.Int.{
  ℤ, pos, negsuc, ◌+ℤ◌, neg, abs, ltb_ℤ, int_laws, ◌<ℤ◌, ◌≤ℤ◌, eq_of_parts,
}
use mathlib.Core.Path.{subst}
use swiftward_alpaca_options.Market.Order.{Position}
use swiftward_alpaca_options.TakeProfit.{
  gcd_from, gcd, sets_from, sets_in, Closing, closing_leg, closing_of,
}
use native.Mathlib.Nat.{
  mod-lt, mod-add-div', dvd_refl, dvd-zero, dvd_trans, dvd-mod_iff, dvd_iff_mod-eq-zero,
}
use Prim.Native.Nat.{◌∣◌}

-- The loop reaches a common divisor within the fuel given, and every common divisor goes into it.
gcd_from-divides : (fuel a b : ℕ) → b < fuel → (gcd_from fuel a b ∣ a) × (gcd_from fuel a b ∣ b)
unfolding gcd_from
gcd_from-divides zero a b h = absurd (omega arith)
gcd_from-divides (suc fuel) a b h = elim (Bool-cases (b == 0)) [
  | inl done ↦ let b_zero : b ≡ 0 = ground arith in rw done (dvd_refl a, rw b_zero (dvd-zero a))
  | inr on ↦
      let pos_b : 0 < b = ground arith in
      let (of_b, of_rest) = gcd_from-divides fuel b (a % b) (omega (arith, mod-lt a pos_b, h)) in
      rw on ((dvd-mod_iff (gcd_from fuel b (a % b)) of_b).0 of_rest, of_b)
]

gcd_from-greatest : (fuel a b d : ℕ) → b < fuel → d ∣ a → d ∣ b → d ∣ gcd_from fuel a b
unfolding gcd_from
gcd_from-greatest zero a b d h of_a of_b = absurd (omega arith)
gcd_from-greatest (suc fuel) a b d h of_a of_b = elim (Bool-cases (b == 0)) [
  | inl done ↦ rw done of_a
  | inr on ↦
      let pos_b : 0 < b = ground arith in
      rw on (
        gcd_from-greatest fuel b (a % b) d (omega (arith, mod-lt a pos_b, h)) of_b
          ((dvd-mod_iff d of_b).1 of_a))
]

gcd-divides : (a b : ℕ) → (gcd a b ∣ a) × (gcd a b ∣ b)
unfolding gcd
gcd-divides a b = gcd_from-divides (suc b) a b (omega arith)

gcd-greatest : (a b d : ℕ) → d ∣ a → d ∣ b → d ∣ gcd a b
unfolding gcd
gcd-greatest a b d of_a of_b = gcd_from-greatest (suc b) a b d (omega arith) of_a of_b

sets_from_step :
    (sets : ℕ) (leg : Position) (legs : List Position)
    → (abs leg.quantity == 0) ≡ false
    → sets_from sets (leg ∷ legs) ≡ sets_from (gcd sets (abs leg.quantity)) legs
unfolding sets_from
sets_from_step sets leg legs some_held = rw some_held

sets_from-divides :
    (sets : ℕ) (legs : List Position)
    → 0 < sets_from sets legs
    → (sets_from sets legs ∣ sets) × All (λ leg. sets_from sets legs ∣ abs leg.quantity) legs
unfolding sets_from
sets_from-divides sets [] h = (dvd_refl sets, tt)
sets_from-divides sets (leg ∷ legs) h = elim (Bool-cases (abs leg.quantity == 0)) [
  | inl empty ↦ absurd (nothing (rw empty at h))
  | inr some_held ↦
      let of_gcd = gcd-divides sets (abs leg.quantity) in
      let rest = sets_from-divides (gcd sets (abs leg.quantity)) legs (rw some_held at h) in
      subst (λ most. (most ∣ sets) × All (λ one. most ∣ abs one.quantity) (leg ∷ legs))
        (sym (sets_from_step sets leg legs some_held))
        (dvd_trans _ rest.0 of_gcd.0, (dvd_trans _ rest.0 of_gcd.1, rest.1))
]
  where
    nothing : 0 < 0 → ⊥
    nothing e = omega arith

sets_from-greatest :
    (sets d : ℕ) (legs : List Position)
    → 0 < sets_from sets legs
    → d ∣ sets
    → All (λ leg. d ∣ abs leg.quantity) legs
    → d ∣ sets_from sets legs
unfolding sets_from
sets_from-greatest sets d [] h of_sets of_legs = of_sets
sets_from-greatest sets d (leg ∷ legs) h of_sets of_legs =
    elim (Bool-cases (abs leg.quantity == 0)) [
      | inl empty ↦ absurd (nothing (rw empty at h))
      | inr some_held ↦ rw some_held (
          sets_from-greatest (gcd sets (abs leg.quantity)) d legs (rw some_held at h)
            (gcd-greatest sets (abs leg.quantity) d of_sets of_legs.0) of_legs.1)
    ]
  where
    nothing : 0 < 0 → ⊥
    nothing e = omega arith

-- The sets of a structure are the most that its legs allow: they go into the quantity of every
-- leg, and whatever goes into all of these goes into the sets.
pub sets_in-greatest :
    (legs : List Position)
    → 0 < sets_in legs
    → All (λ leg. sets_in legs ∣ abs leg.quantity) legs
      × ((d : ℕ) → All (λ leg. d ∣ abs leg.quantity) legs → d ∣ sets_in legs)
unfolding sets_in
sets_in-greatest legs h =
    ((sets_from-divides 0 legs h).1, λ d. sets_from-greatest 0 d legs h (dvd-zero d))

-- What an order of so many sets does to a holding: each leg, bought or sold, times the sets.
abbrev pub traded : ℕ → Closing → ℤ
traded sets leg = if leg.buy then pos (leg.ratio * sets) else neg (pos (leg.ratio * sets))

-- Position by position, an order leaves nothing of what is held.
abbrev pub Flattens : ℕ → List Position → List Closing → Type 0
Flattens sets [] [] = Unit
Flattens sets (held ∷ legs) (leg ∷ order) =
    (leg.symbol ≡ held.symbol)
    × (held.quantity +ℤ traded sets leg ≡ pos 0)
    × Flattens sets legs order
Flattens sets _ _ = ⊥

sets_from-held :
    (sets : ℕ) (legs : List Position)
    → 0 < sets_from sets legs
    → All (λ leg. 0 < abs leg.quantity) legs
unfolding sets_from
sets_from-held sets [] h = tt
sets_from-held sets (leg ∷ legs) h = elim (Bool-cases (abs leg.quantity == 0)) [
  | inl empty ↦ absurd (nothing (rw empty at h))
  | inr some_held ↦
      (ground arith, sets_from-held (gcd sets (abs leg.quantity)) legs (rw some_held at h))
]
  where
    nothing : 0 < 0 → ⊥
    nothing e = omega arith

sets_in-held : (legs : List Position) → 0 < sets_in legs → All (λ leg. 0 < abs leg.quantity) legs
unfolding sets_in
sets_in-held legs h = sets_from-held 0 legs h

whole_sets : (sets n : ℕ) → 0 < sets → sets ∣ n → n / sets * sets ≡ n
whole_sets sets n h d =
    let none_over = (dvd_iff_mod-eq-zero sets).0 d in
    let split = mod-add-div' n sets in omega (arith, none_over, split)

below : (q : ℤ) → q <ℤ pos 0 → q +ℤ pos (abs q) ≡ pos 0
below (pos n) h = absurd (omega arith)
below (negsuc n) h = eq_of_parts (negsuc n +ℤ pos (abs (negsuc n))) (pos 0) (omega int_laws)

above : (q : ℤ) → pos 0 ≤ℤ q → q +ℤ neg (pos (abs q)) ≡ pos 0
above (pos n) h = eq_of_parts (pos n +ℤ neg (pos (abs (pos n)))) (pos 0) (omega int_laws)
above (negsuc n) h = absurd (omega arith)

traded-flat :
    (q : ℤ) (sets ratio : ℕ)
    → ratio * sets ≡ abs q
    → q +ℤ (if ltb_ℤ q (pos 0) then pos (ratio * sets) else neg (pos (ratio * sets))) ≡ pos 0
traded-flat q sets ratio e = rw e (turned_round q)
  where
    turned_round :
        (q : ℤ) → q +ℤ (if ltb_ℤ q (pos 0) then pos (abs q) else neg (pos (abs q))) ≡ pos 0
    turned_round q = elim (Bool-cases (ltb_ℤ q (pos 0))) [
      | inl sold ↦ rw sold (below q (ground arith))
      | inr bought ↦ rw bought (above q (ground arith))
    ]

closing_of-Flattens-each :
    (sets : ℕ) (legs : List Position)
    → 0 < sets
    → All (λ leg. sets ∣ abs leg.quantity) legs
    → All (λ leg. 0 < abs leg.quantity) legs
    → (order : List Closing) × (closing_of sets legs ≡ some order) × Flattens sets legs order
unfolding closing_of
closing_of-Flattens-each sets [] h whole held = ([], refl, tt)
closing_of-Flattens-each sets (leg ∷ legs) h whole held =
    let (order, e, flat) = closing_of-Flattens-each sets legs h whole.1 held.1 in
    let all_of = whole_sets sets (abs leg.quantity) h whole.0 in
    let enough : ltb (abs leg.quantity / sets) 1 ≡ false =
      at_least (abs leg.quantity / sets) (abs leg.quantity) all_of held.0 in
    (
      closing_leg sets leg ∷ order,
      rw (e, enough),
      (refl, traded-flat leg.quantity sets (abs leg.quantity / sets) all_of, flat),
    )
  where
    at_least : (r n : ℕ) → r * sets ≡ n → 0 < n → ltb r 1 ≡ false
    at_least zero n e h = absurd (omega (arith, e, h))
    at_least (suc r) n e h = ground arith

-- Where a holding makes sets at all, there is an order that closes it, and it leaves nothing: leg by
-- leg, what it buys or sells over all the sets is what is held, turned round.
pub closing_of-Flattens :
    (legs : List Position)
    → 0 < sets_in legs
    → (order : List Closing) × (closing_of (sets_in legs) legs ≡ some order)
      × Flattens (sets_in legs) legs order
closing_of-Flattens legs h =
    closing_of-Flattens-each (sets_in legs) legs h (sets_in-greatest legs h).0 (sets_in-held legs h)
