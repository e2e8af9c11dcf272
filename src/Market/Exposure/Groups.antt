-- ===== src/Market/Exposure/Groups.antt =====
-- What grouping does to the value of a book: AtRisk of golang/internal/marketdata/exposure.go.
use swiftward_alpaca_options.Prelude.{
  ℕ, ◌*◌, ◌≡◌, refl, ap, true, inl, inr, Option, none, some, List, [], ◌∷◌, ◌++◌, arith, Bool-cases,
}
use swiftward_alpaca_options.Prelude.Int.{ℤ, pos, ◌+ℤ◌, ◌-ℤ◌, scale, int_laws}
use swiftward_alpaca_options.Prelude.Text.{text_eq→eq, text_eq_self}
use swiftward_alpaca_options.Market.Symbol.{
  Contract, Date, Series, contract_from, series_of, series_eq, date_eq,
}
use swiftward_alpaca_options.Market.Payoff.{Stake, intrinsic, payoff, net_calls}
use swiftward_alpaca_options.Market.Order.{Position}
use swiftward_alpaca_options.Market.Exposure.{
  stake_of, stake_if, stakes_of, settled_if, settled, group_value, Group, add_to, add_if,
  group_from,
}

date_eq→eq : (a b : Date) → date_eq a b ≡ true → a ≡ b
date_eq→eq a b h = ground arith

pub series_eq→eq : (a b : Series) → series_eq a b ≡ true → a ≡ b
unfolding series_eq
series_eq→eq a b h = ground (arith, text_eq→eq a.root b.root, date_eq→eq a.expires b.expires)

pub series_eq_self : (a : Series) → series_eq a a ≡ true
unfolding series_eq
series_eq_self a = ground (arith, text_eq_self a.root)

-- What one position comes to when the underlying of each series settles at a price of its own: its
-- value at expiry less what was paid for it. A position that cannot be read comes to nothing.
abbrev pub outcome_if : (Series → ℕ) → Position → Option Contract → ℤ
outcome_if prices p none = pos 0
outcome_if prices p (some c) =
    scale (100 * intrinsic c.kind c.strike (prices (series_of c))) p.quantity -ℤ p.cost_basis

pub outcome : (Series → ℕ) → List Position → ℤ
outcome prices [] = pos 0
outcome prices (p ∷ ps) = outcome_if prices p (contract_from p.symbol) +ℤ outcome prices ps

stakes_of-append :
    (p : Position) (held : List Position)
    → stakes_of (held ++ p ∷ []) ≡ stakes_of held ++ stakes_of (p ∷ [])
unfolding stakes_of
stakes_of-append p [] = refl
stakes_of-append p (q ∷ held) = place (contract_from q.symbol) (stakes_of-append p held)
  where
    place :
        (o : Option Contract)
        → stakes_of (held ++ p ∷ []) ≡ stakes_of held ++ stakes_of (p ∷ [])
        → stake_if q o (stakes_of (held ++ p ∷ []))
          ≡ stake_if q o (stakes_of held) ++ stakes_of (p ∷ [])
    place none e = e
    place (some c) e = ap (λ rest. stake_of c q.quantity ∷ rest) e

settled-append :
    (p : Position) (held : List Position)
    → settled (held ++ p ∷ []) ≡ settled held +ℤ settled (p ∷ [])
unfolding settled
settled-append p [] = omega int_laws
settled-append p (q ∷ held) = place (contract_from q.symbol) (settled-append p held)
  where
    place :
        (o : Option Contract)
        → settled (held ++ p ∷ []) ≡ settled held +ℤ settled (p ∷ [])
        → settled_if q o (settled (held ++ p ∷ []))
          ≡ settled_if q o (settled held) +ℤ settled (p ∷ [])
    place none e = e
    place (some c) e = rw e (omega int_laws)

pub payoff-append :
    (xs ys : List Stake) (price : ℕ) → payoff (xs ++ ys) price ≡ payoff xs price +ℤ payoff ys price
unfolding payoff
payoff-append [] ys price = omega int_laws
payoff-append (x ∷ xs) ys price = rw (payoff-append xs ys price) (omega int_laws)

pub net_calls-append : (xs ys : List Stake) → net_calls (xs ++ ys) ≡ net_calls xs +ℤ net_calls ys
unfolding net_calls
net_calls-append [] ys = omega int_laws
net_calls-append (x ∷ xs) ys = rw (net_calls-append xs ys) (omega int_laws)

pub net_calls-stakes_of-append :
    (p : Position) (held : List Position)
    → net_calls (stakes_of (held ++ p ∷ []))
      ≡ net_calls (stakes_of held) +ℤ net_calls (stakes_of (p ∷ []))
net_calls-stakes_of-append p held =
    rw (stakes_of-append p held) (net_calls-append (stakes_of held) (stakes_of (p ∷ [])))

group_value-append :
    (p : Position) (held : List Position) (price : ℕ)
    → group_value (held ++ p ∷ []) price ≡ group_value held price +ℤ group_value (p ∷ []) price
group_value-append p held price =
    rw (stakes_of-append p held, settled-append p held, payoff-append (stakes_of held) _ price)
      (omega int_laws)

module _ (prices : Series → ℕ) where
  unfoldable pub worth : List Group → ℤ
  worth [] = pos 0
  worth (g ∷ gs) = group_value g.held (prices g.series) +ℤ worth gs

  worth-add_to :
      (s : Series) (p : Position) (gs : List Group)
      → worth (add_to s p gs) ≡ worth gs +ℤ group_value (p ∷ []) (prices s)
  unfolding worth add_to
  worth-add_to s p [] = omega int_laws
  worth-add_to s p (g ∷ gs) = elim (Bool-cases (series_eq s g.series)) [
    | inl same ↦
        let e : s ≡ g.series = series_eq→eq s g.series same in
        rw same (rw (group_value-append p g.held (prices g.series), e) (omega int_laws))
    | inr other ↦ rw other (rw (worth-add_to s p gs) (omega int_laws))
  ]

  worth-add_if :
      (p : Position) (o : Option Contract) (gs : List Group)
      → contract_from p.symbol ≡ o
      → worth (add_if p o gs) ≡ worth gs +ℤ outcome_if prices p o
  unfolding payoff stakes_of settled
  worth-add_if p none gs e = omega int_laws
  worth-add_if p (some c) gs e = rw (worth-add_to (series_of c) p gs) (rw e (omega int_laws))

  -- The groups together are worth what their positions come to.
  pub worth-group_from :
      (gs : List Group) (ps : List Position)
      → worth (group_from gs ps) ≡ worth gs +ℤ outcome prices ps
  unfolding group_from outcome
  worth-group_from gs [] = omega int_laws
  worth-group_from gs (p ∷ ps) =
      rw
        (
          worth-group_from (add_if p (contract_from p.symbol) gs) ps,
          worth-add_if p (contract_from p.symbol) gs refl,
        )
        (omega int_laws)
