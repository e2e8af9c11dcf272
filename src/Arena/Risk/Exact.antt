-- ===== src/Arena/Risk/Exact.antt =====
-- What Worst promises: testbed/proxy/risk.go.
use swiftward_alpaca_options.Prelude.{
  ℕ, ◌≡◌, refl, sym, ap, ◌∙◌, Option, none, some, List, [], ◌∷◌, ◌++◌, inl, inr, Bool-cases, arith,
}
use swiftward_alpaca_options.Prelude.Int.{ℤ, pos, ◌+ℤ◌, ◌≤ℤ◌, ltb_ℤ, int_laws}
use swiftward_alpaca_options.Market.Payoff.{Stake, payoff, net_calls, least}
use swiftward_alpaca_options.Market.Floor.{least_attained}
use swiftward_alpaca_options.Market.Exposure.{highest, strikes}
use swiftward_alpaca_options.Market.Exposure.Floor.{least_floor}
use swiftward_alpaca_options.Arena.Order.{Position}
use swiftward_alpaca_options.Arena.Risk.{
  Key, Group, groups_from, Worth, limitless, amount, add_worth, worst_of_group, worst_of_groups,
  worst_if, worst,
}
use swiftward_alpaca_options.Arena.Risk.Groups.{
  value, group_worth, group_worth-groups_from, IsDistinct-groups_from, prices_for, sum_for,
  group_worth-prices_for,
}
use mathlib.Core.Path.{subst}
use mathlib.Core.Option.{some-injective}

plus_nothing :
    (stakes : List Stake)
    → least (λ p. payoff stakes p +ℤ pos 0) 0 (strikes stakes ++ highest stakes ∷ [])
      ≡ worst_of_group stakes
unfolding worst_of_group
plus_nothing stakes =
    ap (λ f. least f 0 (strikes stakes ++ highest stakes ∷ [])) (λ i p. nothing (payoff stakes p) i)
  where
    nothing : (a : ℤ) → a +ℤ pos 0 ≡ a
    nothing a = omega int_laws

worst_of_group_floor :
    (stakes : List Stake) (price : ℕ)
    → pos 0 ≤ℤ net_calls stakes
    → worst_of_group stakes ≤ℤ payoff stakes price
worst_of_group_floor stakes price covered =
    let low =
      rw (plus_nothing stakes) at
        (least_floor stakes (pos 0) (highest stakes ∷ []) covered price) in
    omega (int_laws, low)

-- The price at which a group is worth the least.
worst_price : List Stake → ℕ
worst_price stakes = (least_attained (payoff stakes) 0 (strikes stakes ++ highest stakes ∷ [])).0

payoff-worst_price :
    (stakes : List Stake) → payoff stakes (worst_price stakes) ≡ worst_of_group stakes
unfolding worst_price worst_of_group
payoff-worst_price stakes =
    sym (least_attained (payoff stakes) 0 (strikes stakes ++ highest stakes ∷ [])).1

amount-injective : (a b : ℤ) → amount a ≡ amount b → a ≡ b
amount-injective a b e = cc

-- The sum of the groups' worst values bounds what the groups are worth, and is what they are worth
-- at the worst price of each.
worst_of_groups_exact :
    (gs : List Group) (w : ℤ)
    → worst_of_groups gs ≡ amount w
    → ((prices : Key → ℕ) → w ≤ℤ group_worth prices gs) × (w ≡ sum_for worst_price gs)
unfolding worst_of_groups group_worth sum_for
worst_of_groups_exact [] w e = (
  λ prices. subst (λ a. a ≤ℤ pos 0) (amount-injective (pos 0) w e) (omega arith),
  sym (amount-injective (pos 0) w e),
)
worst_of_groups_exact (g ∷ gs) w e = elim (Bool-cases (ltb_ℤ (net_calls g.stakes) (pos 0))) [
  | inl short ↦ absurd (contra w (rw short at e))
  | inr covered ↦
      by_rest (ground arith) (worst_of_groups_exact gs) (worst_of_groups gs) refl (rw covered at e)
]
  where
    contra : (w : ℤ) → limitless ≡ amount w → ⊥
    contra w e = cc

    by_rest :
        pos 0 ≤ℤ net_calls g.stakes
        → ((rest : ℤ)
            → worst_of_groups gs ≡ amount rest
            → ((prices : Key → ℕ) → rest ≤ℤ group_worth prices gs)
              × (rest ≡ sum_for worst_price gs))
        → (rest : Worth) → worst_of_groups gs ≡ rest
        → add_worth (worst_of_group g.stakes) rest ≡ amount w
        → ((prices : Key → ℕ) → w ≤ℤ payoff g.stakes (prices g.key) +ℤ group_worth prices gs)
          × (w ≡ payoff g.stakes (worst_price g.stakes) +ℤ sum_for worst_price gs)
    by_rest covered ih limitless r e = absurd (contra w e)
    by_rest covered ih (amount rest) r e =
        let (low, reached) = ih rest r in
        let same = amount-injective (worst_of_group g.stakes +ℤ rest) w e in
        (
          λ prices.
              subst (λ a. a ≤ℤ payoff g.stakes (prices g.key) +ℤ group_worth prices gs) same
                (omega
                  (int_laws, worst_of_group_floor g.stakes (prices g.key) covered, low prices)),
          sym same ∙ (λ i. sym (payoff-worst_price g.stakes) i +ℤ reached i),
        )

-- What a worst case is known of: the groups of the positions.
pub worst_groups :
    (positions : List Position) (worth : Worth) (o : Option (List Group))
    → worst_if o ≡ some worth
    → (gs : List Group) × (o ≡ some gs) × (worst_of_groups gs ≡ worth)
worst_groups positions worth none e = cc
worst_groups positions worth (some gs) e = (gs, refl, some-injective _ _ e)

-- Where a worst case is found, no settlement of the underlyings, each root and day at a price of its
-- own, leaves the options of the book worth less, and some settlement leaves them worth exactly that.
pub worst_exact :
    (positions : List Position) (w : ℤ)
    → worst positions ≡ some (amount w)
    → ((prices : Key → ℕ) → w ≤ℤ value prices positions)
      × ((prices : Key → ℕ) × (w ≡ value prices positions))
unfolding worst group_worth
worst_exact positions w e =
    let (gs, is_gs, is_w) = worst_groups positions (amount w) (groups_from [] positions) e in
    let (low, reached) = worst_of_groups_exact gs w is_w in
    let prices = prices_for worst_price gs in
    (
      λ prices. subst (λ a. w ≤ℤ a) (total prices gs is_gs) (low prices),
      (
        prices,
        reached
            ∙ sym (
                group_worth-prices_for worst_price gs
                  (IsDistinct-groups_from [] positions gs is_gs tt))
            ∙ total prices gs is_gs,
      ),
    )
  where
    nothing : (a : ℤ) → pos 0 +ℤ a ≡ a
    nothing a = omega int_laws

    total :
        (prices : Key → ℕ) (gs : List Group)
        → groups_from [] positions ≡ some gs
        → group_worth prices gs ≡ value prices positions
    total prices gs is_gs =
        group_worth-groups_from prices [] positions gs is_gs ∙ nothing (value prices positions)
