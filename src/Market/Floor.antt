-- ===== src/Market/Floor.antt =====
-- The least value at expiry is found at zero and at the strikes: why worstAtExpiry
-- (golang/internal/marketdata/exposure.go) and WorstCase (golang/internal/execution/toobig.go)
-- may look at those prices alone.
use swiftward_alpaca_options.Prelude.{
  ℕ, zero, suc, ◌+◌, ◌*◌, ◌≡◌, refl, true, inl, inr, List, [], ◌∷◌, arith, ◌==◌, Bool-cases, All,
}
use swiftward_alpaca_options.Prelude.Int.{
  scale_negative, min_cases, ℤ, pos, ◌+ℤ◌, scale, ◌≤ℤ◌, ◌<ℤ◌, leb_ℤ, int_laws, min_le_left,
  min_le_right, abs,
}
use Prim.Native.Nat.add
use mathlib.Core.Path.{◌∙◌}
use swiftward_alpaca_options.Market.Payoff.{
  Stake, payoff, least, net_calls, slope, is_strike, Within, payoff_rises, slope_same, slope_far,
}

-- A bound that holds at zero and at every strike.
pub record Probed (bound : ℤ) (stakes : List Stake) : Type 0 where
  pub at_zero : bound ≤ℤ payoff stakes zero
  pub at_strikes : All (λ one. bound ≤ℤ payoff stakes one.strike) stakes

strike_bound :
    (bound : ℤ) (f : ℕ → ℤ) (stakes : List Stake) (price : ℕ)
    → All (λ one. bound ≤ℤ f one.strike) stakes
    → is_strike stakes price ≡ true
    → bound ≤ℤ f price
strike_bound bound f [] price h s = cc
strike_bound bound f (one ∷ rest) price h s = elim (Bool-cases (one.strike == price)) [
  | inl here ↦ let e : one.strike ≡ price = ground arith in rw e at h.0
  | inr there ↦ strike_bound bound f rest price h.1 (ground arith)
]

Within-later :
    (highest price : ℕ) (stakes : List Stake)
    → Within stakes highest
    → Within stakes (price + highest)
Within-later highest price [] h = tt
Within-later highest price (one ∷ rest) h = (omega arith, Within-later highest price rest h.1)

module _ (bound : ℤ) (stakes : List Stake) (probed : Probed bound stakes) where
  at_strike : (price : ℕ) → is_strike stakes price ≡ true → bound ≤ℤ payoff stakes price
  at_strike price = strike_bound bound (payoff stakes) stakes price probed.at_strikes

  -- Where the value does not fall on the way up, walk down to the strike below, or to zero.
  walk_down : (price : ℕ) → pos 0 ≤ℤ slope stakes price → bound ≤ℤ payoff stakes (suc price)
  walk_down zero up = rw (payoff_rises stakes zero) (omega (int_laws, probed.at_zero))
  walk_down (suc price) up =
      let below : bound ≤ℤ payoff stakes (suc price) =
        elim (Bool-cases (is_strike stakes (suc price))) [
          | inl s ↦ at_strike (suc price) s
          | inr plain ↦ walk_down price (rw (slope_same stakes price plain) at up)
        ] in
      rw (payoff_rises stakes (suc price)) (omega (int_laws, below))

  -- Where it falls, walk up to the next strike; past the last one it does not fall.
  walk_up :
      (rounds price : ℕ)
      → Within stakes (price + rounds)
      → pos 0 ≤ℤ net_calls stakes
      → slope stakes price <ℤ pos 0
      → bound ≤ℤ payoff stakes price
  walk_up zero price far floor down =
      let e : price + 0 ≡ price = omega arith in
      let same = slope_far stakes price (rw e at far) in absurd (unfalling (rw same at down))
    where
      unfalling : net_calls stakes <ℤ pos 0 → ⊥
      unfalling h = omega arith
  walk_up (suc rounds) price far floor down =
      let e : price + suc rounds ≡ suc price + rounds = omega arith in
      let above : bound ≤ℤ payoff stakes (suc price) =
        elim (Bool-cases (is_strike stakes (suc price))) [
          | inl s ↦ at_strike (suc price) s
          | inr plain ↦
              walk_up rounds (suc price) (rw e at far) floor
                (rw (slope_same stakes price plain) down)
        ] in
      lower above (payoff_rises stakes price)
    where
      lower :
          bound ≤ℤ payoff stakes (suc price)
          → payoff stakes (suc price) ≡ payoff stakes price +ℤ scale 100 (slope stakes price)
          → bound ≤ℤ payoff stakes price
      lower above e = let h = (rw e at above) in omega (int_laws, h)

  -- No price is worse.
  pub probed_floor :
      (highest : ℕ)
      → Within stakes highest
      → pos 0 ≤ℤ net_calls stakes
      → (price : ℕ) → bound ≤ℤ payoff stakes price
  probed_floor highest far floor zero = probed.at_zero
  probed_floor highest far floor (suc price) = elim (Bool-cases (is_strike stakes (suc price))) [
    | inl s ↦ at_strike (suc price) s
    | inr plain ↦ elim (Bool-cases (leb_ℤ (pos 0) (slope stakes price))) [
      | inl up ↦ walk_down price (ground arith)
      | inr down ↦
          walk_up highest (suc price) (Within-later highest (suc price) stakes far) floor
            (rw (slope_same stakes price plain) (ground arith))
    ]
  ]

-- What a least value says of each value that was looked at.
pub least_bounds :
    (f : ℕ → ℤ) (bound : ℤ) (p : ℕ) (xs : List ℕ)
    → bound ≤ℤ least f p xs
    → (bound ≤ℤ f p) × All (λ x. bound ≤ℤ f x) xs
unfolding least
least_bounds f bound p [] h = (h, tt)
least_bounds f bound p (x ∷ xs) h = (
  omega (int_laws, min_le_left (f p) (least f x xs)),
  least_bounds f bound x xs (omega (int_laws, min_le_right (f p) (least f x xs))),
)

pub least_attained : (f : ℕ → ℤ) (p : ℕ) (xs : List ℕ) → (price : ℕ) × (least f p xs ≡ f price)
unfolding least
least_attained f p [] = (p, refl)
least_attained f p (x ∷ xs) = elim (min_cases (f p) (least f x xs)) [
  | inl (_, e) ↦ (p, e)
  | inr (_, e) ↦ let (price, e') = least_attained f x xs in (price, e ∙ e')
]

-- Past the last strike the value moves by the calls alone.
payoff_far :
    (stakes : List Stake) (highest further : ℕ)
    → Within stakes highest
    → payoff stakes (further + highest)
      ≡ payoff stakes highest +ℤ scale (100 * further) (net_calls stakes)
payoff_far stakes highest zero far = rw add.zero (omega int_laws)
payoff_far stakes highest (suc further) far =
    rw
      (
        add.suc,
        payoff_rises stakes (further + highest),
        payoff_far stakes highest further far,
        slope_far stakes (further + highest) (Within-later highest further stakes far),
      )
      (omega int_laws)

-- A net short position in calls loses more than any bound.
pub loss_without_floor :
    (bound : ℤ) (stakes : List Stake) (highest : ℕ)
    → Within stakes highest
    → net_calls stakes <ℤ pos 0
    → (price : ℕ) × (payoff stakes price <ℤ bound)
loss_without_floor bound stakes highest far short =
    let further : ℕ = abs (payoff stakes highest) + abs bound + 1 in
    let deep = scale_negative (100 * further) (net_calls stakes) short in
    (further + highest, rw (payoff_far stakes highest further far) (omega (int_laws, deep)))
