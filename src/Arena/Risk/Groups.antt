-- ===== src/Arena/Risk/Groups.antt =====
-- What the groups of a book come to: Worst of testbed/proxy/risk.go.
use swiftward_alpaca_options.Prelude.{
  ℕ, ◌*◌, ◌≡◌, refl, sym, ◌∙◌, true, false, Option, none, some, List, [], ◌∷◌, inl, inr, Bool-cases,
  All, arith, if◌then◌else◌,
}
use swiftward_alpaca_options.Prelude.Int.{ℤ, pos, ◌+ℤ◌, scale, int_laws}
use swiftward_alpaca_options.Prelude.Text.{text_eq→eq, text_eq_self}
use swiftward_alpaca_options.Market.Payoff.{Stake, payoff, intrinsic}
use swiftward_alpaca_options.Market.Exposure.Groups.{payoff-append}
use swiftward_alpaca_options.Arena.Order.{Position, Class, option, equity}
use swiftward_alpaca_options.Arena.Contract.{Occ, parse_occ}
use swiftward_alpaca_options.Arena.Risk.{
  Key, key_of, key_eq, Group, stake_of, add_stake, grouped, then_group, groups_from,
}
use mathlib.Core.Option.{some-injective}
use mathlib.Core.Path.{subst}

pub key_eq→eq : (a b : Key) → key_eq a b ≡ true → a ≡ b
unfolding key_eq
key_eq→eq a b h = ground (arith, text_eq→eq a.root b.root, text_eq→eq a.expiry b.expiry)

pub key_eq_self : (a : Key) → key_eq a a ≡ true
unfolding key_eq
key_eq_self a = ground (arith, text_eq_self a.root, text_eq_self a.expiry)

module _ (prices : Key → ℕ) where
  -- What one position is worth at expiry; shares are not counted here.
  abbrev pub value_if : Position → Class → Option Occ → ℤ
  value_if p equity o = pos 0
  value_if p option none = pos 0
  value_if p option (some c) =
      scale (100 * intrinsic c.kind c.strike (prices (key_of c))) p.quantity

  unfoldable pub value : List Position → ℤ
  value [] = pos 0
  value (p ∷ ps) = value_if p p.class (parse_occ p.symbol) +ℤ value ps

  unfoldable pub group_worth : List Group → ℤ
  group_worth [] = pos 0
  group_worth (g ∷ gs) = payoff g.stakes (prices g.key) +ℤ group_worth gs

  group_worth-add_stake :
      (key : Key) (one : Stake) (gs : List Group)
      → group_worth (add_stake key one gs) ≡ group_worth gs +ℤ payoff (one ∷ []) (prices key)
  unfolding group_worth add_stake
  group_worth-add_stake key one [] = omega int_laws
  group_worth-add_stake key one (g ∷ gs) = elim (Bool-cases (key_eq key g.key)) [
    | inl same ↦
        let e = key_eq→eq key g.key same in
        rw same (rw (payoff-append g.stakes (one ∷ []) (prices g.key), e) (omega int_laws))
    | inr other ↦ rw other (rw (group_worth-add_stake key one gs) (omega int_laws))
  ]

  -- The groups together are worth what their positions are.
  pub group_worth-groups_from :
      (gs : List Group) (ps : List Position) (end : List Group)
      → groups_from gs ps ≡ some end
      → group_worth end ≡ group_worth gs +ℤ value ps
  unfolding groups_from value payoff
  group_worth-groups_from gs [] end e = rw (← some-injective _ _ e) (omega int_laws)
  group_worth-groups_from gs (p ∷ ps) end e =
      by_class p.class (parse_occ p.symbol) (λ more. group_worth-groups_from more ps end) e
    where
      by_class :
          (class : Class) (o : Option Occ)
          → ((more : List Group)
              → groups_from more ps ≡ some end
              → group_worth end ≡ group_worth more +ℤ value ps)
          → then_group (λ more. groups_from more ps) (grouped gs p class o) ≡ some end
          → group_worth end ≡ group_worth gs +ℤ (value_if p class o +ℤ value ps)
      by_class equity o ih e = rw (ih gs e) (omega int_laws)
      by_class option none ih e = cc
      by_class option (some c) ih e =
          rw
            (
              ih (add_stake (key_of c) (stake_of c p.quantity) gs) e,
              group_worth-add_stake (key_of c) (stake_of c p.quantity) gs,
            )
            (one_stake c p.quantity (group_worth gs) (value ps))
        where
          one_stake :
              (c : Occ) (q a b : ℤ)
              → a +ℤ payoff (stake_of c q ∷ []) (prices (key_of c)) +ℤ b
                ≡ a +ℤ (scale (100 * intrinsic c.kind c.strike (prices (key_of c))) q +ℤ b)
          one_stake c q a b = omega int_laws

-- Groups of keys that differ.
abbrev pub Other : Key → List Group → Type 0
Other key = All (λ g. key_eq key g.key ≡ false)

abbrev pub IsDistinct : List Group → Type 0
IsDistinct [] = Unit
IsDistinct (g ∷ gs) = Other g.key gs × IsDistinct gs

key_eq_sym : (a b : Key) → key_eq a b ≡ false → key_eq b a ≡ false
key_eq_sym a b h = elim (Bool-cases (key_eq b a)) [
  | inl same ↦ absurd (contra (sym (key_eq_self a) ∙ rw (key_eq→eq b a same) at h))
  | inr other ↦ other
]
  where
    contra : true ≡ false → ⊥
    contra e = cc

Other-add_stake :
    (k key : Key) (one : Stake) (gs : List Group)
    → key_eq k key ≡ false
    → Other k gs
    → Other k (add_stake key one gs)
unfolding add_stake
Other-add_stake k key one [] h o = (h, tt)
Other-add_stake k key one (g ∷ gs) h o = elim (Bool-cases (key_eq key g.key)) [
  | inl same ↦ rw same o
  | inr other ↦ rw other (o.0, Other-add_stake k key one gs h o.1)
]

IsDistinct-add_stake :
    (key : Key) (one : Stake) (gs : List Group) → IsDistinct gs → IsDistinct (add_stake key one gs)
unfolding add_stake
IsDistinct-add_stake key one [] d = (tt, tt)
IsDistinct-add_stake key one (g ∷ gs) d = elim (Bool-cases (key_eq key g.key)) [
  | inl same ↦ rw same d
  | inr other ↦ rw other (
    Other-add_stake g.key key one gs (key_eq_sym key g.key other) d.0,
    IsDistinct-add_stake key one gs d.1,
  )
]

pub IsDistinct-groups_from :
    (gs : List Group) (ps : List Position) (end : List Group)
    → groups_from gs ps ≡ some end
    → IsDistinct gs
    → IsDistinct end
unfolding groups_from
IsDistinct-groups_from gs [] end e d = subst IsDistinct (some-injective _ _ e) d
IsDistinct-groups_from gs (p ∷ ps) end e d =
    by_class p.class (parse_occ p.symbol) (λ more. IsDistinct-groups_from more ps end) e
  where
    by_class :
        (class : Class) (o : Option Occ)
        → ((more : List Group) → groups_from more ps ≡ some end → IsDistinct more → IsDistinct end)
        → then_group (λ more. groups_from more ps) (grouped gs p class o) ≡ some end
        → IsDistinct end
    by_class equity o ih e = ih gs e d
    by_class option none ih e = cc
    by_class option (some c) ih e =
        ih (add_stake (key_of c) (stake_of c p.quantity) gs) e
          (IsDistinct-add_stake (key_of c) (stake_of c p.quantity) gs d)

-- A price for each group, by its stakes.
unfoldable pub prices_for : (List Stake → ℕ) → List Group → Key → ℕ
prices_for f [] key = 0
prices_for f (g ∷ gs) key =
    let rest = prices_for f gs key in if key_eq key g.key then f g.stakes else rest

unfoldable pub sum_for : (List Stake → ℕ) → List Group → ℤ
sum_for f [] = pos 0
sum_for f (g ∷ gs) = payoff g.stakes (f g.stakes) +ℤ sum_for f gs

prices_for_head :
    (f : List Stake → ℕ) (g : Group) (gs : List Group) → prices_for f (g ∷ gs) g.key ≡ f g.stakes
unfolding prices_for
prices_for_head f g gs = rw (key_eq_self g.key)

group_worth_skip :
    (f : List Stake → ℕ) (g : Group) (gs more : List Group)
    → Other g.key more
    → group_worth (prices_for f (g ∷ gs)) more ≡ group_worth (prices_for f gs) more
unfolding group_worth prices_for
group_worth_skip f g gs [] o = refl
group_worth_skip f g gs (h ∷ more) o =
    rw (key_eq_sym g.key h.key o.0, group_worth_skip f g gs more o.1)

-- Groups of different keys may settle each at a price of its own.
pub group_worth-prices_for :
    (f : List Stake → ℕ) (gs : List Group)
    → IsDistinct gs
    → group_worth (prices_for f gs) gs ≡ sum_for f gs
unfolding group_worth sum_for
group_worth-prices_for f [] d = refl
group_worth-prices_for f (g ∷ gs) d =
    rw (prices_for_head f g gs, group_worth_skip f g gs gs d.0, group_worth-prices_for f gs d.1)
