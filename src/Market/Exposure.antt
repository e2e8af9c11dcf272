-- ===== src/Market/Exposure.antt =====
-- What the whole book can lose at expiry: golang/internal/marketdata/exposure.go.
pub mod Groups
pub mod Short
pub mod Floor
use swiftward_alpaca_options.Prelude.{
  ℕ, ◌*◌, Bool, true, false, ◌&&◌, Option, none, some, List, [], ◌∷◌, ◌++◌, map, leb, ◌==◌,
  if◌then◌else◌, any, take, length, ◌-◌,
}
use swiftward_alpaca_options.Prelude.Text.{Text, text_eq}
use swiftward_alpaca_options.Prelude.Int.{ℤ, pos, ◌+ℤ◌, ◌-ℤ◌, neg, ltb_ℤ, min}
use swiftward_alpaca_options.Market.Symbol.{
  Kind, call, put, Contract, Series, contract_from, underlying, series_of, series_eq,
}
use swiftward_alpaca_options.Market.Payoff.{Stake, payoff, least, net_one}
use swiftward_alpaca_options.Market.Order.{Position, Order, Leg, active}

abbrev pub stake_of : Contract → ℤ → Stake
stake_of c held = record { kind = c.kind; strike = c.strike; held = held }

-- The positions whose symbol can be read.
abbrev pub stake_if : Position → Option Contract → List Stake → List Stake
stake_if p none rest = rest
stake_if p (some c) rest = stake_of c p.quantity ∷ rest

unfoldable pub stakes_of : List Position → List Stake
stakes_of [] = []
stakes_of (p ∷ ps) = stake_if p (contract_from p.symbol) (stakes_of ps)

-- Money already taken: a credit has a negative cost basis.
abbrev pub settled_if : Position → Option Contract → ℤ → ℤ
settled_if p none rest = rest
settled_if p (some c) rest = rest -ℤ p.cost_basis

unfoldable pub settled : List Position → ℤ
settled [] = pos 0
settled (p ∷ ps) = settled_if p (contract_from p.symbol) (settled ps)

abbrev max_ℕ : ℕ → ℕ → ℕ
max_ℕ a b = if leb a b then b else a

unfoldable pub highest : List Stake → ℕ
highest [] = 0
highest (one ∷ rest) = max_ℕ one.strike (highest rest)

abbrev pub strikes : List Stake → List ℕ
strikes = map (λ one. one.strike)

-- What one group is worth at a price, money already settled included.
abbrev pub group_value : List Position → ℕ → ℤ
group_value held price = payoff (stakes_of held) price +ℤ settled held

unfoldable pub worst_at_expiry : List Position → ℤ
worst_at_expiry held =
    least (group_value held) 0 (strikes (stakes_of held) ++ (highest (stakes_of held) * 2) ∷ [])

pub record Group : Type 0 where
  pub series : Series
  pub held : List Position

-- groups[key] = append(groups[key], position)
unfoldable pub add_to : Series → Position → List Group → List Group
add_to s p [] = record { series = s; held = p ∷ [] } ∷ []
add_to s p (g ∷ gs) =
    if series_eq s g.series
    then record { series = g.series; held = g.held ++ p ∷ [] } ∷ gs
    else g ∷ add_to s p gs

abbrev pub add_if : Position → Option Contract → List Group → List Group
add_if p none groups = groups
add_if p (some c) groups = add_to (series_of c) p groups

unfoldable pub group_from : List Group → List Position → List Group
group_from groups [] = groups
group_from groups (p ∷ ps) = group_from (add_if p (contract_from p.symbol) groups) ps

unfoldable pub worst_total : List Group → ℤ
worst_total [] = pos 0
worst_total (g ∷ gs) = min (pos 0) (worst_at_expiry g.held) +ℤ worst_total gs

-- AtRisk
unfoldable pub at_risk : List Position → ℤ
at_risk positions = neg (worst_total (group_from [] positions))

abbrev pub Nets : Type 0
Nets = List (Series × ℤ)

-- net[key] += position.Quantity
unfoldable pub add_net : Series → ℤ → Nets → Nets
add_net s q [] = (s, q) ∷ []
add_net s q ((t, n) ∷ rest) =
    if series_eq s t then (t, n +ℤ q) ∷ rest else (t, n) ∷ add_net s q rest

abbrev pub net_kind : Kind → Series → ℤ → Nets → Nets
net_kind call s q nets = add_net s q nets
net_kind put s q nets = nets

abbrev pub net_if : Position → Option Contract → Nets → Nets
net_if p none nets = nets
net_if p (some c) nets = net_kind c.kind (series_of c) p.quantity nets

unfoldable pub net_from : Nets → List Position → Nets
net_from nets [] = nets
net_from nets (p ∷ ps) = net_from (net_if p (contract_from p.symbol) nets) ps

unfoldable pub short_series : Nets → List Series
short_series [] = []
short_series ((s, n) ∷ rest) = if ltb_ℤ n (pos 0) then s ∷ short_series rest else short_series rest

-- WithoutAFloor
unfoldable pub without_a_floor : List Position → List Series
without_a_floor positions = short_series (net_from [] positions)

-- One underlying and one side of the market.
pub record SideOf : Type 0 where
  pub root : Text
  pub kind : Kind

abbrev pub kind_eq : Kind → Kind → Bool
kind_eq call call = true
kind_eq put put = true
kind_eq _ _ = false

abbrev pub side_eq : SideOf → SideOf → Bool
side_eq a b = text_eq a.root b.root && kind_eq a.kind b.kind

abbrev pub see_if : Option Contract → List SideOf → List SideOf
see_if none sides = sides
see_if (some c) sides =
    let side : SideOf = record { root = underlying c; kind = c.kind } in
    if any (side_eq side) sides then sides else sides ++ side ∷ []

unfoldable pub see_symbols : List SideOf → List Text → List SideOf
see_symbols sides [] = sides
see_symbols sides (symbol ∷ rest) = see_symbols (see_if (contract_from symbol) sides) rest

-- The legs of an order, or the order itself where it has none.
abbrev pub symbols_of : Order → List Leg → List Text
symbols_of order [] = order.symbol ∷ []
symbols_of order (leg ∷ legs) = map (λ one. one.symbol) (leg ∷ legs)

unfoldable pub sides_from : List SideOf → List Order → List SideOf
sides_from sides [] = sides
sides_from sides (order ∷ rest) =
    sides_from (if active order then see_symbols sides (symbols_of order order.legs) else sides)
      rest

-- RestingSides
unfoldable pub resting_sides : List Order → List SideOf
resting_sides orders = sides_from [] orders
