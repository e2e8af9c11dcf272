-- ===== src/Arena/Risk/Limitless.antt =====
-- Where a book's loss has no floor: Worst and Unbounded of testbed/proxy/risk.go.
use swiftward_alpaca_options.Prelude.{
  ℕ, ◌≡◌, ◌≢◌, refl, sym, ◌∙◌, true, false, Option, none, some, List, [], ◌∷◌, inl, inr, Bool-cases,
  All, arith, if◌then◌else◌,
}
use swiftward_alpaca_options.Prelude.Int.{
  ℤ, pos, ◌+ℤ◌, ◌-ℤ◌, ◌≤ℤ◌, ◌<ℤ◌, ltb_ℤ, min, min_le_left, min_le_right, int_laws,
}
use swiftward_alpaca_options.Market.Payoff.{Stake, payoff, net_calls}
use swiftward_alpaca_options.Market.Floor.{loss_without_floor}
use swiftward_alpaca_options.Market.Exposure.{highest}
use swiftward_alpaca_options.Market.Exposure.Floor.{highest-Within}
use swiftward_alpaca_options.Arena.Order.{Position, Class, option, equity}
use swiftward_alpaca_options.Arena.Contract.{Occ, parse_occ}
use swiftward_alpaca_options.Arena.Risk.{
  Key, Group, groups_from, grouped, then_group, Worth, limitless, amount, add_worth, worst_of_group,
  worst_of_groups, worst, short_groups, seen, seen_from, unbounded,
}
use swiftward_alpaca_options.Arena.Risk.Groups.{
  value, group_worth, group_worth-groups_from, IsDistinct-groups_from, prices_for, sum_for,
  group_worth-prices_for,
}
use swiftward_alpaca_options.Arena.Risk.Exact.{worst_groups}
use mathlib.Core.Option.{some-injective}

-- A price that sinks a group below a bound, where the group has no floor.
record Sinks (bound : ℤ) (stakes : List Stake) : Type 0 where
  price : ℕ
  deep : ltb_ℤ (net_calls stakes) (pos 0) ≡ true → payoff stakes price <ℤ bound
  still : ltb_ℤ (net_calls stakes) (pos 0) ≡ false → price ≡ 0

sinks : (bound : ℤ) (stakes : List Stake) → Sinks bound stakes
sinks bound stakes = elim (Bool-cases (ltb_ℤ (net_calls stakes) (pos 0))) [
  | inl short ↦
      let (price, deep) =
        loss_without_floor bound stakes (highest stakes) (highest-Within stakes)
          (below (net_calls stakes) short) in
      record {
        price = price;
        deep = λ _. deep;
        still = λ covered. absurd (contra (sym short ∙ covered));
      }
  | inr covered ↦ record {
    price = 0;
    deep = λ short. absurd (contra (sym short ∙ covered));
    still = λ _. refl;
  }
]
  where
    below : (a : ℤ) → ltb_ℤ a (pos 0) ≡ true → a <ℤ pos 0
    below a h = ground arith

    contra : true ≡ false → ⊥
    contra e = cc

-- What the groups with a floor are worth at zero.
calm : List Group → ℤ
calm [] = pos 0
calm (g ∷ gs) = (if ltb_ℤ (net_calls g.stakes) (pos 0) then pos 0 else payoff g.stakes 0) +ℤ calm gs

sink : ℤ → List Stake → ℕ
sink bound stakes = (sinks bound stakes).price

sum_for-le-calm :
    (bound : ℤ) (gs : List Group) → bound ≤ℤ pos 0 → sum_for (sink bound) gs ≤ℤ calm gs
unfolding sum_for calm sink
sum_for-le-calm bound [] h = omega arith
sum_for-le-calm bound (g ∷ gs) h = elim (Bool-cases (ltb_ℤ (net_calls g.stakes) (pos 0))) [
  | inl short ↦
      rw short (omega (int_laws, (sinks bound g.stakes).deep short, sum_for-le-calm bound gs h, h))
  | inr covered ↦
      rw (covered, (sinks bound g.stakes).still covered)
        (omega (int_laws, sum_for-le-calm bound gs h))
]

sum_for-sinks :
    (bound : ℤ) (gs : List Group)
    → bound ≤ℤ pos 0
    → worst_of_groups gs ≡ limitless
    → sum_for (sink bound) gs <ℤ bound +ℤ calm gs
unfolding sum_for calm sink worst_of_groups
sum_for-sinks bound [] h e = cc
sum_for-sinks bound (g ∷ gs) h e = elim (Bool-cases (ltb_ℤ (net_calls g.stakes) (pos 0))) [
  | inl short ↦
      rw short (omega (int_laws, (sinks bound g.stakes).deep short, sum_for-le-calm bound gs h))
  | inr covered ↦
      rw (covered, (sinks bound g.stakes).still covered)
        (omega (
          int_laws,
          sum_for-sinks bound gs h (rest_limitless (worst_of_groups gs) (rw covered at e)),
        ))
]
  where
    rest_limitless :
        (rest : Worth) → add_worth (worst_of_group g.stakes) rest ≡ limitless → rest ≡ limitless
    rest_limitless limitless e = refl
    rest_limitless (amount a) e = cc

-- Where Worst says that there is no floor there is none: whatever the bound, the underlyings can
-- settle so that the options of the book are worth less.
pub worst_limitless :
    (positions : List Position) (bound : ℤ)
    → worst positions ≡ some limitless
    → (prices : Key → ℕ) × (value prices positions <ℤ bound)
unfolding worst group_worth
worst_limitless positions bound e =
    let (gs, is_gs, is_limitless) = worst_groups positions limitless (groups_from [] positions) e in
    let deep = min (pos 0) (bound -ℤ calm gs) in
    let sunk = sum_for-sinks deep gs (min_le_left (pos 0) (bound -ℤ calm gs)) is_limitless in
    let prices = prices_for (sink deep) gs in
    let each =
      group_worth-prices_for (sink deep) gs (IsDistinct-groups_from [] positions gs is_gs tt) in
    let all = group_worth-groups_from prices [] positions gs is_gs in
    (
      prices,
      under (value prices positions) _ (calm gs) deep (sym all ∙ each) sunk
          (min_le_right (pos 0) (bound -ℤ calm gs)),
    )
  where
    under : (a s c d : ℤ) → pos 0 +ℤ a ≡ s → s <ℤ d +ℤ c → d ≤ℤ bound -ℤ c → a <ℤ bound
    under a s c d e h k = let low : pos 0 +ℤ a <ℤ d +ℤ c = rw e h in omega (int_laws, low, k)

-- Shares have no contract symbol.
abbrev pub AreNamed : List Position → Type 0
AreNamed = All (λ p. p.class ≡ equity → parse_occ p.symbol ≡ none)

seen_from-groups_from :
    (gs : List Group) (ps : List Position) (end : List Group)
    → AreNamed ps
    → groups_from gs ps ≡ some end
    → seen_from gs ps ≡ end
unfolding seen_from groups_from
seen_from-groups_from gs [] end named e = some-injective _ _ e
seen_from-groups_from gs (p ∷ ps) end named e =
    by_class p.class (parse_occ p.symbol) named.0
      (λ more. seen_from-groups_from more ps end named.1) e
  where
    by_class :
        (class : Class) (o : Option Occ)
        → (class ≡ equity → o ≡ none)
        → ((more : List Group) → groups_from more ps ≡ some end → seen_from more ps ≡ end)
        → then_group (λ more. groups_from more ps) (grouped gs p class o) ≡ some end
        → seen_from (seen gs p o) ps ≡ end
    by_class equity none named ih e = ih gs e
    by_class equity (some c) named ih e = absurd (contra (named refl))
      where
        contra : some c ≡ none → ⊥
        contra e = cc
    by_class option none named ih e = cc
    by_class option (some c) named ih e = ih _ e

short_groups_named : (gs : List Group) → worst_of_groups gs ≡ limitless → short_groups gs ≢ []
unfolding worst_of_groups short_groups
short_groups_named [] e none_short = cc
short_groups_named (g ∷ gs) e none_short = elim (Bool-cases (ltb_ℤ (net_calls g.stakes) (pos 0))) [
  | inl short ↦ nonempty (rw short at none_short)
  | inr covered ↦
      short_groups_named gs (rest_limitless (worst_of_groups gs) (rw covered at e))
        (rw covered at none_short)
]
  where
    nonempty : g.key ∷ short_groups gs ≡ [] → ⊥
    nonempty e = cc

    rest_limitless :
        (rest : Worth) → add_worth (worst_of_group g.stakes) rest ≡ limitless → rest ≡ limitless
    rest_limitless limitless e = refl
    rest_limitless (amount a) e = cc

-- A refusal without a sum is always explained: where no sum is enough for a book, in which the symbol of
-- no shares reads as a contract's, Unbounded names a group that is short of calls.
pub unbounded_explains :
    (positions : List Position)
    → AreNamed positions
    → worst positions ≡ some limitless
    → unbounded positions ≢ []
unfolding worst unbounded
unbounded_explains positions named e =
    let (gs, is_gs, is_limitless) = worst_groups positions limitless (groups_from [] positions) e in
    rw (seen_from-groups_from [] positions gs named is_gs) (short_groups_named gs is_limitless)
