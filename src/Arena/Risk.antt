-- ===== src/Arena/Risk.antt =====
-- The worst case of a book, and the money held against it: testbed/proxy/risk.go. Money and prices
-- are in mills.
pub mod Groups
pub mod Exact
pub mod Held
pub mod Limitless
use swiftward_alpaca_options.Prelude.{
  ℕ, ◌+◌, ◌-◌, ◌*◌, Bool, true, false, ◌&&◌, ◌||◌, Option, none, some, List, [], ◌∷◌, ◌++◌,
  if◌then◌else◌,
}
use swiftward_alpaca_options.Prelude.Int.{ℤ, pos, ◌+ℤ◌, neg, scale, abs, ltb_ℤ, leb_ℤ}
use swiftward_alpaca_options.Prelude.Frac.{Frac, whole, plus, ltb_frac}
use swiftward_alpaca_options.Prelude.Text.{Text, text_eq}
use swiftward_alpaca_options.Market.Symbol.{Kind, call, put}
use swiftward_alpaca_options.Market.Payoff.{Stake, payoff, net_calls, least}
use swiftward_alpaca_options.Market.Exposure.{highest, strikes}
use swiftward_alpaca_options.Arena.Order.{Position, Class, option, equity}
use swiftward_alpaca_options.Arena.Contract.{Occ, parse_occ}

-- What positions are grouped by.
pub record Key : Type 0 where
  pub root : Text
  pub expiry : Text

abbrev pub key_of : Occ → Key
key_of c = record { root = c.root; expiry = c.expiry }

unfoldable pub key_eq : Key → Key → Bool
key_eq a b = text_eq a.root b.root && text_eq a.expiry b.expiry

pub record Group : Type 0 where
  pub key : Key
  pub stakes : List Stake

abbrev pub stake_of : Occ → ℤ → Stake
stake_of c held = record { kind = c.kind; strike = c.strike; held = held }

unfoldable pub add_stake : Key → Stake → List Group → List Group
add_stake key one [] = record { key = key; stakes = one ∷ [] } ∷ []
add_stake key one (g ∷ gs) =
    if key_eq key g.key
    then record { key = g.key; stakes = g.stakes ++ one ∷ [] } ∷ gs
    else g ∷ add_stake key one gs

-- Shares are left out; a symbol that cannot be read is an error.
abbrev pub grouped : List Group → Position → Class → Option Occ → Option (List Group)
grouped groups p equity o = some groups
grouped groups p option none = none
grouped groups p option (some c) = some (add_stake (key_of c) (stake_of c p.quantity) groups)

abbrev pub then_group :
    (List Group → Option (List Group)) → Option (List Group) → Option (List Group)
then_group go none = none
then_group go (some groups) = go groups

unfoldable pub groups_from : List Group → List Position → Option (List Group)
groups_from groups [] = some groups
groups_from groups (p ∷ ps) =
    then_group (λ gs. groups_from gs ps) (grouped groups p p.class (parse_occ p.symbol))

-- A value, or a loss that has no floor.
pub data Worth : Type 0 where
  limitless : Worth
  amount : ℤ → Worth

abbrev pub add_worth : ℤ → Worth → Worth
add_worth a limitless = limitless
add_worth a (amount b) = amount (a +ℤ b)

-- The least value of a group over zero, its strikes and the last of them once more.
unfoldable pub worst_of_group : List Stake → ℤ
worst_of_group stakes = least (payoff stakes) 0 (strikes stakes ++ highest stakes ∷ [])

unfoldable pub worst_of_groups : List Group → Worth
worst_of_groups [] = amount (pos 0)
worst_of_groups (g ∷ gs) =
    let rest = worst_of_groups gs in
    if ltb_ℤ (net_calls g.stakes) (pos 0)
    then limitless
    else add_worth (worst_of_group g.stakes) rest

-- Worst
abbrev pub worst_if : Option (List Group) → Option Worth
worst_if none = none
worst_if (some groups) = some (worst_of_groups groups)

unfoldable pub worst : List Position → Option Worth
worst positions = worst_if (groups_from [] positions)

-- What must be held: a sum, no sum that is enough, or what cannot be counted.
pub data Demand : Type 0 where
  unreadable endless : Demand
  needs : Frac → Demand

-- Half as much again as the price of the shares sold, at the last price known or the entry price.
abbrev pub price_known : Position → Frac
price_known p = if leb_ℤ p.mark (pos 0) then p.average_price else whole p.mark

abbrev pub short_shares : Position → Class → Frac
short_shares p option = whole (pos 0)
short_shares p equity = if leb_ℤ (pos 0) p.quantity then whole (pos 0) else record {
  num = scale (3 * abs p.quantity) (price_known p).num;
  den = 2 * (price_known p).den;
}

unfoldable pub shares_from : Frac → List Position → Frac
shares_from need [] = need
shares_from need (p ∷ ps) = shares_from (plus need (short_shares p p.class)) ps

abbrev pub demand_of : List Position → Option Worth → Demand
demand_of positions none = unreadable
demand_of positions (some limitless) = endless
demand_of positions (some (amount w)) =
    needs (shares_from (whole (if ltb_ℤ w (pos 0) then neg w else pos 0)) positions)

-- Requirement
unfoldable pub requirement : List Position → Demand
requirement positions = demand_of positions (worst positions)

-- Unbounded: the groups that calls are short in; the source names one of them.
unfoldable pub short_groups : List Group → List Key
short_groups [] = []
short_groups (g ∷ gs) =
    let rest = short_groups gs in if ltb_ℤ (net_calls g.stakes) (pos 0) then g.key ∷ rest else rest

abbrev pub seen : List Group → Position → Option Occ → List Group
seen groups p none = groups
seen groups p (some c) = add_stake (key_of c) (stake_of c p.quantity) groups

unfoldable pub seen_from : List Group → List Position → List Group
seen_from groups [] = groups
seen_from groups (p ∷ ps) = seen_from (seen groups p (parse_occ p.symbol)) ps

unfoldable pub unbounded : List Position → List Key
unbounded positions = short_groups (seen_from [] positions)
