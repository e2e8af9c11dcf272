-- ===== src/Market/Exposure/Floor.antt =====
-- What AtRisk promises, and where it promises nothing (golang/internal/marketdata/exposure.go).
use swiftward_alpaca_options.Prelude.{
  ℕ, ◌*◌, ◌≡◌, if◌then◌else◌, List, [], ◌∷◌, ◌++◌, arith, leb, All,
}
use swiftward_alpaca_options.Prelude.Int.{ℤ, pos, ◌+ℤ◌, ◌-ℤ◌, neg, ◌≤ℤ◌, int_laws, min_le_right}
use swiftward_alpaca_options.Market.Symbol.{Series}
use swiftward_alpaca_options.Market.Payoff.{Stake, payoff, net_calls, Within, least}
use swiftward_alpaca_options.Market.Floor.{probed_floor, least_bounds, least_attained}
use swiftward_alpaca_options.Market.Order.{Position}
use swiftward_alpaca_options.Market.Exposure.{
  stakes_of, settled, highest, strikes, group_value, worst_at_expiry, Group, group_from,
  worst_total, at_risk, without_a_floor,
}
use swiftward_alpaca_options.Market.Exposure.Groups.{worth, worth-group_from, outcome}
use swiftward_alpaca_options.Market.Exposure.Short.{Floored, floored_groups}

pub highest-Within : (stakes : List Stake) → Within stakes (highest stakes)
unfolding highest
highest-Within [] = tt
highest-Within (one ∷ rest) =
    ground (arith, raise one.strike (highest rest) rest (highest-Within rest))
  where
    raise : (a b : ℕ) (xs : List Stake) → Within xs b → Within xs (if leb a b then b else a)
    raise a b [] h = tt
    raise a b (x ∷ xs) h = (ground arith, raise a b xs h.1)

strike_bounds :
    (bound : ℤ) (f : ℕ → ℤ) (xs : List Stake) (ys : List ℕ)
    → All (λ x. bound ≤ℤ f x) (strikes xs ++ ys)
    → All (λ one. bound ≤ℤ f one.strike) xs
strike_bounds bound f [] ys h = tt
strike_bounds bound f (x ∷ xs) ys h = (h.0, strike_bounds bound f xs ys h.1)

shift_bounds :
    (worst paid : ℤ) (f : ℕ → ℤ) (xs : List Stake)
    → All (λ one. worst ≤ℤ f one.strike +ℤ paid) xs
    → All (λ one. worst -ℤ paid ≤ℤ f one.strike) xs
shift_bounds worst paid f [] h = tt
shift_bounds worst paid f (x ∷ xs) h = (omega (int_laws, h.0), shift_bounds worst paid f xs h.1)

-- A least value over zero and the strikes bounds the value everywhere, where calls are covered.
pub least_floor :
    (stakes : List Stake) (paid : ℤ) (more : List ℕ)
    → pos 0 ≤ℤ net_calls stakes
    → (price : ℕ)
    → least (λ p. payoff stakes p +ℤ paid) 0 (strikes stakes ++ more) ≤ℤ payoff stakes price +ℤ paid
least_floor stakes paid more covered price =
    let f : ℕ → ℤ = λ p. payoff stakes p +ℤ paid in
    let worst = least f 0 (strikes stakes ++ more) in
    let (at_zero, at_probes) = least_bounds f worst 0 (strikes stakes ++ more) (omega arith) in
    let at_strikes =
      shift_bounds worst paid (payoff stakes) stakes
        (strike_bounds worst f stakes more at_probes) in
    let low : worst -ℤ paid ≤ℤ payoff stakes price =
      probed_floor (worst -ℤ paid) stakes
        (record { at_zero = omega (int_laws, at_zero); at_strikes = at_strikes }) (highest stakes)
        (highest-Within stakes) covered price in
    omega (int_laws, low)

-- Where a group is not left short of calls, the worst point found is no worse than the true one:
-- no price at expiry leaves the group with less, and some price leaves it with exactly that.
pub worst_at_expiry_exact :
    (held : List Position)
    → pos 0 ≤ℤ net_calls (stakes_of held)
    → ((price : ℕ) → worst_at_expiry held ≤ℤ group_value held price)
      × ((price : ℕ) × (worst_at_expiry held ≡ group_value held price))
unfolding worst_at_expiry
worst_at_expiry_exact held covered = (
  least_floor (stakes_of held) (settled held) (highest (stakes_of held) * 2 ∷ []) covered,
  least_attained (group_value held) 0
      (strikes (stakes_of held) ++ highest (stakes_of held) * 2 ∷ []),
)

worst_total-le-worth :
    (prices : Series → ℕ) (gs : List Group) → Floored gs → worst_total gs ≤ℤ worth prices gs
unfolding worst_total worth
worst_total-le-worth prices [] h = omega arith
worst_total-le-worth prices (g ∷ gs) h =
    let floor = (worst_at_expiry_exact g.held h.0).0 (prices g.series) in
    omega (
      int_laws,
      floor,
      worst_total-le-worth prices gs h.1,
      min_le_right (pos 0) (worst_at_expiry g.held),
    )

-- The most that the book can lose: where WithoutAFloor names no series, then wherever the
-- underlyings settle, each series at a price of its own, the positions come to no less than minus
-- AtRisk.
pub at_risk_bounds_loss :
    (positions : List Position)
    → without_a_floor positions ≡ []
    → (prices : Series → ℕ) → neg (at_risk positions) ≤ℤ outcome prices positions
unfolding at_risk worth
at_risk_bounds_loss positions floor prices =
    let total =
      worst_total-le-worth prices (group_from [] positions) (floored_groups positions floor) in
    let low : worst_total (group_from [] positions) ≤ℤ pos 0 +ℤ outcome prices positions =
      rw (worth-group_from prices [] positions) at total in
    omega (int_laws, low)
