-- ===== src/Market/Exposure/Short.antt =====
-- The calls that a series is left short of, by group and by WithoutAFloor
-- (golang/internal/marketdata/exposure.go).
use swiftward_alpaca_options.Prelude.{
  ◌≡◌, refl, sym, ap, ◌∙◌, Bool, true, false, ◌||◌, inl, inr, Option, none, some, List, [], ◌∷◌,
  arith, if◌then◌else◌, Bool-cases, All,
}
use swiftward_alpaca_options.Prelude.Int.{ℤ, pos, ◌+ℤ◌, ◌≤ℤ◌, ltb_ℤ, int_laws}
use swiftward_alpaca_options.Market.Symbol.{
  Kind, call, put, Contract, Series, contract_from, series_of, series_eq,
}
use swiftward_alpaca_options.Market.Payoff.{net_calls, net_one}
use swiftward_alpaca_options.Market.Order.{Position}
use swiftward_alpaca_options.Market.Exposure.{
  stakes_of, Group, add_to, add_if, group_from, Nets, add_net, net_kind, net_if, net_from,
  short_series, without_a_floor,
}
use swiftward_alpaca_options.Market.Exposure.Groups.{
  series_eq→eq, series_eq_self, net_calls-stakes_of-append,
}

-- The calls that the groups and the running sums hold in one series.
group_net : Series → List Group → ℤ
group_net t [] = pos 0
group_net t (g ∷ gs) = if series_eq t g.series then net_calls (stakes_of g.held) else group_net t gs

net_at : Series → Nets → ℤ
net_at t [] = pos 0
net_at t ((s, n) ∷ rest) = if series_eq t s then n else net_at t rest

series_eq_sym : (a b : Series) → series_eq a b ≡ series_eq b a
series_eq_sym a b = elim (Bool-cases (series_eq a b)) [
  | inl same ↦
      let e : a ≡ b = series_eq→eq a b same in
      ap (λ x. series_eq x b) e ∙ sym (ap (λ x. series_eq b x) e)
  | inr apart ↦ elim (Bool-cases (series_eq b a)) [
    | inl same ↦
        let e : b ≡ a = series_eq→eq b a same in
        absurd (contra (sym apart ∙ ap (λ x. series_eq a x) e ∙ series_eq_self a))
    | inr apart' ↦ apart ∙ sym apart'
  ]
]
  where
    contra : false ≡ true → ⊥
    contra h = cc

-- Equal series are interchangeable.
series_eq_trans : (t s g : Series) → series_eq s g ≡ true → series_eq t g ≡ series_eq t s
series_eq_trans t s g same = let e = series_eq→eq s g same in rw e

group_net-add_to :
    (t s : Series) (p : Position) (gs : List Group)
    → group_net t (add_to s p gs)
      ≡ group_net t gs +ℤ (if series_eq t s then net_calls (stakes_of (p ∷ [])) else pos 0)
unfolding group_net add_to
group_net-add_to t s p [] = elim (Bool-cases (series_eq t s)) [
  | inl same ↦ rw same (omega int_laws)
  | inr apart ↦ rw apart (omega int_laws)
]
group_net-add_to t s p (g ∷ gs) = elim (Bool-cases (series_eq s g.series)) [
  | inl here ↦ elim (Bool-cases (series_eq t s)) [
    | inl same ↦
        rw (here, series_eq_trans t s g.series here, same, net_calls-stakes_of-append p g.held)
    | inr apart ↦ rw (here, series_eq_trans t s g.series here, apart) (omega int_laws)
  ]
  | inr there ↦ elim (Bool-cases (series_eq t g.series)) [
    | inl same ↦
        let e = series_eq→eq t g.series same in
        let apart : series_eq t s ≡ false = rw e (series_eq_sym g.series s ∙ there) in
        rw (there, same, apart) (omega int_laws)
    | inr other ↦ rw (there, other) (group_net-add_to t s p gs)
  ]
]

net_at-add_net :
    (t s : Series) (q : ℤ) (nets : Nets)
    → net_at t (add_net s q nets) ≡ net_at t nets +ℤ (if series_eq t s then q else pos 0)
unfolding net_at add_net
net_at-add_net t s q [] = elim (Bool-cases (series_eq t s)) [
  | inl same ↦ rw same (omega int_laws)
  | inr apart ↦ rw apart (omega int_laws)
]
net_at-add_net t s q ((g, n) ∷ rest) = elim (Bool-cases (series_eq s g)) [
  | inl here ↦ elim (Bool-cases (series_eq t s)) [
    | inl same ↦ rw (here, series_eq_trans t s g here, same)
    | inr apart ↦ rw (here, series_eq_trans t s g here, apart) (omega int_laws)
  ]
  | inr there ↦ elim (Bool-cases (series_eq t g)) [
    | inl same ↦
        let e = series_eq→eq t g same in
        let apart : series_eq t s ≡ false = rw e (series_eq_sym g s ∙ there) in
        rw (there, same, apart) (omega int_laws)
    | inr other ↦ rw (there, other) (net_at-add_net t s q rest)
  ]
]

single :
    (p : Position) (c : Contract)
    → contract_from p.symbol ≡ some c
    → net_calls (stakes_of (p ∷ [])) ≡ net_one c.kind p.quantity
unfolding stakes_of net_calls
single p c e = rw e (omega int_laws)

-- The groups and the running sums agree on every series.
by_kind :
    (t s : Series) (k : Kind) (q : ℤ) (nets : Nets)
    → net_at t nets +ℤ (if series_eq t s then net_one k q else pos 0)
      ≡ net_at t (net_kind k s q nets)
by_kind t s call q nets = sym (net_at-add_net t s q nets)
by_kind t s put q nets = elim (Bool-cases (series_eq t s)) [
  | inl same ↦ rw same (omega int_laws)
  | inr apart ↦ rw apart (omega int_laws)
]

agree_step :
    (t : Series) (p : Position) (o : Option Contract) (gs : List Group) (nets : Nets)
    → contract_from p.symbol ≡ o
    → group_net t gs ≡ net_at t nets
    → group_net t (add_if p o gs) ≡ net_at t (net_if p o nets)
agree_step t p none gs nets e h = h
agree_step t p (some c) gs nets e h =
    rw (group_net-add_to t (series_of c) p gs, single p c e, h)
      (by_kind t (series_of c) c.kind p.quantity nets)

agree :
    (t : Series) (gs : List Group) (nets : Nets) (ps : List Position)
    → group_net t gs ≡ net_at t nets
    → group_net t (group_from gs ps) ≡ net_at t (net_from nets ps)
unfolding group_from net_from
agree t gs nets [] h = h
agree t gs nets (p ∷ ps) h =
    agree t (add_if p (contract_from p.symbol) gs) (net_if p (contract_from p.symbol) nets) ps
      (agree_step t p (contract_from p.symbol) gs nets refl h)

nonneg_at : (t : Series) (nets : Nets) → short_series nets ≡ [] → pos 0 ≤ℤ net_at t nets
unfolding net_at short_series
nonneg_at t [] h = omega arith
nonneg_at t ((s, n) ∷ rest) h = elim (Bool-cases (ltb_ℤ n (pos 0))) [
  | inl short ↦ absurd (cons_nil (rw short at h))
  | inr enough ↦ ground (arith, nonneg_at t rest (rw enough at h))
]
  where
    cons_nil : s ∷ short_series rest ≡ [] → ⊥
    cons_nil e = cc

-- No series has two groups.
has : Series → List Group → Bool
has t [] = false
has t (g ∷ gs) = series_eq t g.series || has t gs

abbrev Distinct : List Group → Type 0
Distinct [] = Unit
Distinct (g ∷ gs) = (has g.series gs ≡ false) × Distinct gs

has-add_to :
    (t s : Series) (p : Position) (gs : List Group)
    → series_eq t s ≡ false
    → has t (add_to s p gs) ≡ has t gs
unfolding has add_to
has-add_to t s p [] apart = rw apart
has-add_to t s p (g ∷ gs) apart = elim (Bool-cases (series_eq s g.series)) [
  | inl here ↦ rw here
  | inr there ↦ rw (there, has-add_to t s p gs apart)
]

add_to-Distinct :
    (s : Series) (p : Position) (gs : List Group) → Distinct gs → Distinct (add_to s p gs)
unfolding has add_to
add_to-Distinct s p [] d = (refl, tt)
add_to-Distinct s p (g ∷ gs) d = elim (Bool-cases (series_eq s g.series)) [
  | inl here ↦ rw here d
  | inr there ↦ rw there (
    has-add_to g.series s p gs (series_eq_sym g.series s ∙ there) ∙ d.0,
    add_to-Distinct s p gs d.1,
  )
]

group_from-Distinct :
    (gs : List Group) (ps : List Position) → Distinct gs → Distinct (group_from gs ps)
unfolding group_from
group_from-Distinct gs [] d = d
group_from-Distinct gs (p ∷ ps) d =
    group_from-Distinct (add_if p (contract_from p.symbol) gs) ps (one (contract_from p.symbol))
  where
    one : (o : Option Contract) → Distinct (add_if p o gs)
    one none = d
    one (some c) = add_to-Distinct (series_of c) p gs d

abbrev pub Floored : List Group → Type 0
Floored gs = All (λ g. pos 0 ≤ℤ net_calls (stakes_of g.held)) gs

absent : (t : Series) (gs : List Group) → has t gs ≡ false → group_net t gs ≡ pos 0
unfolding has group_net
absent t [] h = refl
absent t (g ∷ gs) h = elim (Bool-cases (series_eq t g.series)) [
  | inl same ↦ absurd (contra (rw same at h))
  | inr apart ↦ rw apart (absent t gs (rw apart at h))
]
  where
    contra : true ≡ false → ⊥
    contra e = cc

floored : (gs : List Group) → Distinct gs → ((t : Series) → pos 0 ≤ℤ group_net t gs) → Floored gs
unfolding group_net
floored [] d h = tt
floored (g ∷ gs) d h = (first, floored gs d.1 others)
  where
    first : pos 0 ≤ℤ net_calls (stakes_of g.held)
    first = rw (series_eq_self g.series) at (h g.series)

    others : (t : Series) → pos 0 ≤ℤ group_net t gs
    others t = elim (Bool-cases (series_eq t g.series)) [
      | inl same ↦
          let e = series_eq→eq t g.series same in rw (e, absent g.series gs d.0) (omega arith)
      | inr apart ↦ rw apart at (h t)
    ]

-- Where WithoutAFloor names nothing, no group is left short of calls.
pub floored_groups : (ps : List Position) → without_a_floor ps ≡ [] → Floored (group_from [] ps)
unfolding without_a_floor net_at group_net
floored_groups ps h =
    floored (group_from [] ps) (group_from-Distinct [] ps tt)
      λ t. rw (agree t [] [] ps refl) (nonneg_at t (net_from [] ps) h)
