-- ===== src/Market/Tests.antt =====
-- The theorems about the book's exposure, applied to a vertical and to a naked call.
use swiftward_alpaca_options.Prelude.{ℕ, arith, ◌≡◌, refl, List, [], ◌∷◌}
use swiftward_alpaca_options.Prelude.Int.{ℤ, pos, negsuc, neg, ◌≤ℤ◌, ◌+ℤ◌, ◌-ℤ◌, min, scale}
use swiftward_alpaca_options.Prelude.Text.{Text, codes}
use swiftward_alpaca_options.Market.Order.{Position}
use swiftward_alpaca_options.Market.Symbol.{contract_from, series_eq}
use swiftward_alpaca_options.Market.Payoff.{net_calls, payoff, least}
use swiftward_alpaca_options.Market.Exposure.{
  stakes_of, settled, group_value, worst_at_expiry, at_risk, without_a_floor, net_from,
  short_series, worst_total, group_from, add_to, highest,
}
use swiftward_alpaca_options.Market.Exposure.Groups.{outcome}
use swiftward_alpaca_options.Market.Exposure.Floor.{at_risk_bounds_loss, worst_at_expiry_exact}

abbrev position : Text → ℤ → ℤ → Position
position symbol quantity cost_basis = record {
  symbol = symbol;
  asset_class = codes "us_option";
  quantity = quantity;
  average_entry_price = pos 2000;
  cost_basis = cost_basis;
}

-- A credit vertical: the put at 500 is sold for 2.00, that at 490 bought for 1.00.
abbrev vertical : List Position
vertical =
    position (codes "SPY261218P00500000") (negsuc 0) (neg (pos 200000))
    ∷ position (codes "SPY261218P00490000") (pos 1) (pos 100000)
    ∷ []

-- A call that is sold alone.
abbrev naked : List Position
naked = position (codes "SPY261218C00500000") (negsuc 0) (neg (pos 200000)) ∷ []

at_risk-vertical : at_risk vertical ≡ pos 900000
unfolding at_risk neg worst_total group_from contract_from add_to series_eq ◌+ℤ◌ min worst_at_expiry
    least stakes_of payoff scale settled ◌-ℤ◌ highest
at_risk-vertical = refl

vertical_floor : without_a_floor vertical ≡ []
unfolding without_a_floor short_series net_from contract_from
vertical_floor = refl

vertical_covered : net_calls (stakes_of vertical) ≡ pos 0
unfolding net_calls stakes_of contract_from ◌+ℤ◌
vertical_covered = refl

naked_short : net_calls (stakes_of naked) ≡ negsuc 0
unfolding net_calls stakes_of contract_from ◌+ℤ◌
naked_short = refl

at_risk_bounds_loss_example : neg (at_risk vertical) ≤ℤ outcome (λ series. 480000) vertical
at_risk_bounds_loss_example = at_risk_bounds_loss vertical vertical_floor (λ series. 480000)

worst_at_expiry_exact_example :
    ((price : ℕ) → worst_at_expiry vertical ≤ℤ group_value vertical price)
    × ((price : ℕ) × (worst_at_expiry vertical ≡ group_value vertical price))
worst_at_expiry_exact_example = worst_at_expiry_exact vertical (rw vertical_covered (omega arith))
