-- ===== src/Market/Payoff.antt =====
-- The value at expiry of contracts on one underlying and one day, as a function of the price it
-- settles at: the arithmetic inside worstAtExpiry (golang/internal/marketdata/exposure.go) and
-- WorstCase (golang/internal/execution/toobig.go). Prices and strikes are in mills.
use swiftward_alpaca_options.Prelude.{
  ℕ, suc, ◌-◌, ◌*◌, ◌≤◌, ◌≡◌, refl, Bool, false, ◌||◌, inl, inr, List, [], ◌∷◌, arith, leb, ◌==◌,
  if◌then◌else◌, Bool-cases, All,
}
use swiftward_alpaca_options.Prelude.Int.{scale-add, ℤ, pos, ◌+ℤ◌, neg, scale, min, int_laws}
use mathlib.Core.Path.{ap₂, ◌∙◌}
use swiftward_alpaca_options.Market.Symbol.{Kind, call, put}

pub record Stake : Type 0 where
  pub kind : Kind
  pub strike : ℕ
  -- Signed: what is sold is negative.
  pub held : ℤ

-- What one share's worth of a contract pays when the underlying settles at a price.
unfoldable pub intrinsic : Kind → ℕ → ℕ → ℕ
intrinsic call strike price = price - strike
intrinsic put strike price = strike - price

-- A contract carries a hundred shares.
unfoldable pub payoff : List Stake → ℕ → ℤ
unfolding intrinsic
payoff [] price = pos 0
payoff (one ∷ rest) price =
    scale (100 * intrinsic one.kind one.strike price) one.held +ℤ payoff rest price

-- The least value of a function over a price and more prices.
unfoldable pub least : (ℕ → ℤ) → ℕ → List ℕ → ℤ
least f p [] = f p
least f p (x ∷ xs) = min (f p) (least f x xs)

abbrev pub net_one : Kind → ℤ → ℤ
net_one call held = held
net_one put held = pos 0

-- Calls bought less calls sold.
unfoldable pub net_calls : List Stake → ℤ
net_calls [] = pos 0
net_calls (one ∷ rest) = net_one one.kind one.held +ℤ net_calls rest

-- By how much the value of a share of each contract changes when the price rises by a mill.
abbrev slope_one : Kind → ℕ → ℤ → ℕ → ℤ
slope_one call strike held price = if leb strike price then held else pos 0
slope_one put strike held price = if leb strike price then pos 0 else neg held

pub slope : List Stake → ℕ → ℤ
slope [] price = pos 0
slope (one ∷ rest) price = slope_one one.kind one.strike one.held price +ℤ slope rest price

abbrev pub is_strike : List Stake → ℕ → Bool
is_strike [] price = false
is_strike (one ∷ rest) price = (one.strike == price) || is_strike rest price

scale_step : (d : ℕ) (held : ℤ) → scale (100 * suc d) held ≡ scale (100 * d) held +ℤ scale 100 held
scale_step d held = omega int_laws

scale_step_back :
    (d : ℕ) (held : ℤ) → scale (100 * d) held ≡ scale (100 * suc d) held +ℤ scale 100 (neg held)
scale_step_back d held = omega int_laws

scale_flat : (n : ℕ) (held : ℤ) → scale n held ≡ scale n held +ℤ scale 100 (pos 0)
scale_flat n held = omega int_laws

intrinsic_rises :
    (kind : Kind) (strike : ℕ) (held : ℤ) (price : ℕ)
    → scale (100 * intrinsic kind strike (suc price)) held
      ≡ scale (100 * intrinsic kind strike price) held
        +ℤ scale 100 (slope_one kind strike held price)
unfolding intrinsic
intrinsic_rises call strike held price = elim (Bool-cases (leb strike price)) [
  | inl inside ↦
      let e : suc price - strike ≡ suc (price - strike) = ground arith in
      rw (inside, e) (scale_step (price - strike) held)
  | inr outside ↦
      let e : suc price - strike ≡ price - strike = ground arith in
      rw (outside, e) (scale_flat (100 * (price - strike)) held)
]
intrinsic_rises put strike held price = elim (Bool-cases (leb strike price)) [
  | inl outside ↦
      let e : strike - suc price ≡ strike - price = ground arith in
      rw (outside, e) (scale_flat (100 * (strike - price)) held)
  | inr inside ↦
      let e : strike - price ≡ suc (strike - suc price) = ground arith in
      rw (inside, e) (scale_step_back (strike - suc price) held)
]

regroup : (a b c d : ℤ) → (a +ℤ scale 100 b) +ℤ (c +ℤ scale 100 d) ≡ (a +ℤ c) +ℤ scale 100 (b +ℤ d)
regroup a b c d = rw (scale-add 100 b d) (omega int_laws)

-- One mill higher, the value differs by the slope, a hundred shares to the contract.
pub payoff_rises :
    (stakes : List Stake) (price : ℕ)
    → payoff stakes (suc price) ≡ payoff stakes price +ℤ scale 100 (slope stakes price)
unfolding payoff slope
payoff_rises [] price = omega int_laws
payoff_rises (one ∷ rest) price =
    ap₂ ◌+ℤ◌ (intrinsic_rises one.kind one.strike one.held price) (payoff_rises rest price)
    ∙ regroup _ _ _ _

slope_one_same :
    (kind : Kind) (strike : ℕ) (held : ℤ) (price : ℕ)
    → (strike == suc price) ≡ false
    → slope_one kind strike held (suc price) ≡ slope_one kind strike held price
slope_one_same call strike held price h = ground arith
slope_one_same put strike held price h = ground arith

-- The slope changes at strikes only.
pub slope_same :
    (stakes : List Stake) (price : ℕ)
    → is_strike stakes (suc price) ≡ false
    → slope stakes (suc price) ≡ slope stakes price
unfolding slope
slope_same [] price h = refl
slope_same (one ∷ rest) price h =
    let first : (one.strike == suc price) ≡ false = ground arith in
    let others : is_strike rest (suc price) ≡ false = ground arith in
    rw (slope_one_same one.kind one.strike one.held price first, slope_same rest price others)

-- Beyond every strike only the calls move.
slope_one_far :
    (kind : Kind) (strike : ℕ) (held : ℤ) (price : ℕ)
    → strike ≤ price
    → slope_one kind strike held price ≡ net_one kind held
slope_one_far call strike held price h = ground arith
slope_one_far put strike held price h = ground arith

abbrev pub Within : List Stake → ℕ → Type 0
Within stakes price = All (λ one. one.strike ≤ price) stakes

pub slope_far :
    (stakes : List Stake) (price : ℕ) → Within stakes price → slope stakes price ≡ net_calls stakes
unfolding slope net_calls
slope_far [] price h = refl
slope_far (one ∷ rest) price h =
    ap₂ ◌+ℤ◌ (slope_one_far one.kind one.strike one.held price h.0) (slope_far rest price h.1)

pub Within-suc : (stakes : List Stake) (price : ℕ) → Within stakes price → Within stakes (suc price)
Within-suc [] price h = tt
Within-suc (one ∷ rest) price h = (omega arith, Within-suc rest price h.1)
