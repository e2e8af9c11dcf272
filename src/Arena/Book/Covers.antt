-- ===== src/Arena/Book/Covers.antt =====
-- What the money held against a book is good for: Requirement of testbed/proxy/risk.go.
use swiftward_alpaca_options.Prelude.{
  ℕ, ◌*◌, ◌≡◌, refl, ap, ◌∙◌, false, some, List, [], ◌∷◌, inl, inr, Bool-cases, Option-cases, arith,
  if◌then◌else◌,
}
use swiftward_alpaca_options.Prelude.Int.{ℤ, pos, ◌+ℤ◌, ◌≤ℤ◌, neg, scale, ltb_ℤ, int_laws}
use swiftward_alpaca_options.Prelude.Frac.{Frac, whole, plus, ltb_frac}
use swiftward_alpaca_options.Arena.Order.{Position, Class, option, equity}
use swiftward_alpaca_options.Arena.Risk.{
  Key, Worth, limitless, amount, worst, needs, short_shares, shares_from, demand_of, requirement,
}
use swiftward_alpaca_options.Arena.Risk.Groups.{value}
use swiftward_alpaca_options.Arena.Risk.Exact.{worst_exact}
use swiftward_alpaca_options.Arena.Risk.Held.{AreOptions}
use swiftward_alpaca_options.Arena.Book.{covered, short, unknown, cover}

plus_zero : (a : Frac) → plus a (whole (pos 0)) ≡ a
unfolding plus
plus_zero a i = record { num = same_num a.den a.num i; den = same_den a.den i }
  where
    same_num : (n : ℕ) (x : ℤ) → scale 1 x +ℤ scale n (pos 0) ≡ x
    same_num n x = omega int_laws

    same_den : (n : ℕ) → n * 1 ≡ n
    same_den n = omega arith

-- No shares are held among options.
shares_from-AreOptions :
    (need : Frac) (ps : List Position) → AreOptions ps → shares_from need ps ≡ need
unfolding shares_from
shares_from-AreOptions need [] h = refl
shares_from-AreOptions need (p ∷ ps) h =
    ap (λ more. shares_from more ps) (ap (plus need) (nothing p.class h.0) ∙ plus_zero need)
    ∙ shares_from-AreOptions need ps h.1
  where
    nothing : (class : Class) → class ≡ option → short_shares p class ≡ whole (pos 0)
    nothing option e = refl
    nothing equity e = cc

-- Cash that covers a book of options pays for it at every settlement of the underlyings.
pub covered_backs :
    (cash : ℤ) (ps : List Position)
    → AreOptions ps
    → cover cash (requirement ps) ≡ covered
    → (prices : Key → ℕ) → pos 0 ≤ℤ cash +ℤ value prices ps
unfolding requirement
covered_backs cash ps h e prices = elim (Option-cases (worst ps)) [
  | inl nothing ↦ absurd (unread (rw nothing at e))
  | inr (worth, found) ↦ by_worth worth found (rw found at e)
]
  where
    unread : unknown ≡ covered → ⊥
    unread e = cc

    no_floor : short ≡ covered → ⊥
    no_floor e = cc

    enough : (need : ℤ) → cover cash (needs (whole need)) ≡ covered → need ≤ℤ cash
    enough need e = elim (Bool-cases (ltb_frac (whole cash) (whole need))) [
      | inl poor ↦ absurd (no_floor (rw poor at e))
      | inr rich ↦
          let ordered = within (scale 1 cash) (scale 1 need) rich in omega (int_laws, ordered)
    ]
      where
        within : (a b : ℤ) → ltb_ℤ a b ≡ false → b ≤ℤ a
        within a b rich = ground arith

    by_worth :
        (worth : Worth)
        → worst ps ≡ some worth
        → cover cash (demand_of ps (some worth)) ≡ covered
        → pos 0 ≤ℤ cash +ℤ value prices ps
    by_worth limitless found e = absurd (no_floor e)
    by_worth (amount w) found e =
        let need : ℤ = if ltb_ℤ w (pos 0) then neg w else pos 0 in
        let held = enough need (rw (shares_from-AreOptions (whole need) ps h) at e) in
        backed w (value prices ps) ((worst_exact ps w found).0 prices) held
      where
        backed :
            (w v : ℤ)
            → w ≤ℤ v
            → (if ltb_ℤ w (pos 0) then neg w else pos 0) ≤ℤ cash
            → pos 0 ≤ℤ cash +ℤ v
        backed w v low held = elim (Bool-cases (ltb_ℤ w (pos 0))) [
          | inl loss ↦ let owed = rw loss at held in omega (int_laws, owed)
          | inr gain ↦
              let owed = rw gain at held in
              let more = not_below w gain in omega (int_laws, owed, more)
        ]
          where
            not_below : (w : ℤ) → ltb_ℤ w (pos 0) ≡ false → pos 0 ≤ℤ w
            not_below w gain = ground arith
