-- ===== src/Execution/Ladder/Pass.antt =====
-- What a whole pass asks of the broker: visit and step of golang/internal/execution/execution.go.
use swiftward_alpaca_options.Prelude.{
  ℕ, ◌≤◌, ◌≡◌, refl, Bool, true, Option, List, [], ◌∷◌, Bool-cases, All, inl, inr,
}
use swiftward_alpaca_options.Prelude.Int.{ℤ}
use swiftward_alpaca_options.Prelude.Text.{Text}
use swiftward_alpaca_options.Market.Order.{Order, Position}
use swiftward_alpaca_options.Execution.Price.Round.{IsCents}
use swiftward_alpaca_options.Execution.Checks.{only_closes}
use swiftward_alpaca_options.Execution.Ages.{Ages, working}
use swiftward_alpaca_options.Execution.Ladder.{
  Config, Effect, fill_noted, said, cancel_sent, replace_sent, cancel_recorded, walk_recorded,
  woken, Broker, State, Limits, unless, cancel, report, unbounded_out, too_big, too_much,
  rest_or_walk, opening, visit, visits, step, wake_once,
}
use swiftward_alpaca_options.Execution.Ladder.Trace.{
  All-snoc, Justified, if-Holds, unless-Holds, report-Holds, cancel-Holds, withdrawn-Holds,
  unbounded_out-Holds, too_big-Holds, too_much-Holds, rest_or_walk-Holds,
}
use mathlib.Core.List.{Memᴰ}

module _ (config : Config) (broker : Broker) (now pass : ℕ) (Q : Effect → Type 0)
    (tick : 10 ≤ config.tick) where
  module _ (order : Order) (limit_cents : IsCents order.limit_price)
      (justified : (e : Effect) → Justified broker now order e → Q e) where
    opening-Holds :
        (limits : Limits) (s : State)
        → working order ≡ true
        → All Q s.effects
        → All Q (opening config broker now pass limits order s).effects
    unfolding opening
    opening-Holds limits s live h =
        let t = (unbounded_out config broker now pass order s).1 in
        let u = (too_big config broker now pass order limits.ceiling t).1 in
        unless-Holds config broker now pass Q tick (unbounded_out config broker now pass order s).0
          t
          (λ t. unless (too_big config broker now pass order limits.ceiling t) (λ u.
            unless (too_much config broker now pass order limits.book u)
              (rest_or_walk config broker now pass order)))
          (unbounded_out-Holds config broker now pass Q tick order limit_cents justified s h live)
          (λ h1.
            unless-Holds config broker now pass Q tick
              (too_big config broker now pass order limits.ceiling t).0 u
              (λ u.
                unless (too_much config broker now pass order limits.book u)
                  (rest_or_walk config broker now pass order))
              (too_big-Holds config broker now pass Q tick order limit_cents justified
                limits.ceiling t h1 live)
              (λ h2.
                let v = (too_much config broker now pass order limits.book u).1 in
                unless-Holds config broker now pass Q tick
                  (too_much config broker now pass order limits.book u).0 v
                  (rest_or_walk config broker now pass order)
                  (too_much-Holds config broker now pass Q tick order limit_cents justified
                    limits.book u h2 live)
                  (rest_or_walk-Holds config broker now pass Q tick order limit_cents justified v
                    live)))

    visit-Holds :
        (limits : Limits) (s : State)
        → All Q s.effects
        → All Q (visit config broker now pass limits s order).effects
    unfolding visit
    visit-Holds limits s h =
        let t = report config broker now pass order s in
        let told = report-Holds config broker now pass Q tick order limit_cents justified s h in
        elim (Bool-cases (working order)) [
          | inr dead ↦ rw dead told
          | inl live ↦ elim (Bool-cases (only_closes order)) [
            | inl closing ↦
                rw (live, closing)
                  (rest_or_walk-Holds config broker now pass Q tick order limit_cents justified t
                    live told)
            | inr opens ↦
                let c = cancel config broker now pass order.id t in
                rw (live, opens)
                  (if-Holds config broker now pass Q tick limits.fused _ _
                    (withdrawn-Holds config broker now pass Q tick order limit_cents justified c.0
                      c.1
                      (cancel-Holds config broker now pass Q tick order limit_cents justified t told
                        live))
                    (opening-Holds limits t live told))
          ]
        ]

  visits-Holds :
      (orders : List Order) (limits : Limits) (s : State)
      → All (λ order. IsCents order.limit_price) orders
      → ((order : Order) → Memᴰ order orders → (e : Effect) → Justified broker now order e → Q e)
      → All Q s.effects
      → All Q (visits config broker now pass limits s orders).effects
  unfolding visits
  visits-Holds [] limits s cents justified h = h
  visits-Holds (order ∷ orders) limits s cents justified h =
      visits-Holds orders limits (visit config broker now pass limits s order) cents.1
        (λ o m. justified o (Memᴰ.tail m))
        (visit-Holds order cents.0 (justified order (Memᴰ.head refl)) limits s h)

-- Whether an order of the pass justifies an effect; a wake needs none.
abbrev pub Warranted : Broker → ℕ → List Order → Effect → Type 0
Warranted broker now orders (woken ids) = Unit
Warranted broker now orders e = (order : Order) × Memᴰ order orders × Justified broker now order e

warranted :
    (broker : Broker) (now : ℕ) (orders : List Order) (order : Order)
    → Memᴰ order orders
    → (e : Effect) → Justified broker now order e
    → Warranted broker now orders e
warranted broker now orders order m (fill_noted id answer) j = (order, m, j)
warranted broker now orders order m (said id) j = (order, m, j)
warranted broker now orders order m (cancel_sent id ok) j = (order, m, j)
warranted broker now orders order m (replace_sent id price name answer) j = (order, m, j)
warranted broker now orders order m (cancel_recorded id limit) j = (order, m, j)
warranted broker now orders order m (walk_recorded id old next shown floor new) j = (order, m, j)
warranted broker now orders order m (woken ids) j = tt

module _ (config : Config) (broker : Broker) (now pass : ℕ) (orders : List Order) where
  wake_once-Holds :
      (s : State) (ids : List Text)
      → All (Warranted broker now orders) s.effects
      → All (Warranted broker now orders) (wake_once config broker now pass s ids).effects
  wake_once-Holds s [] h = h
  wake_once-Holds s (id ∷ ids) h = elim (Bool-cases config.waking) [
    | inl on ↦ rw on (All-snoc (Warranted broker now orders) s.effects _ h tt)
    | inr off ↦ rw off h
  ]

-- With a tick of a cent or more and limits in whole cents, every replacement that a pass asks of
-- the broker is of a working order of the pass whose name states a worst price, is sent under that
-- name with a fresh stamp, and is at a price in whole cents that stands to the order's limit, the
-- stated worst price, and what a set costs at the broker's quotes for its legs, rounded to the cent, as
-- Concedes says; and every cancellation is of a working order.
pub step-Warranted :
    (config : Config) (broker : Broker) (now pass : ℕ) (ceiling book : Option (Option ℤ))
    (positions : Option (List Position)) (fuse : Option (Option Bool)) (orders : List Order)
    (ages : Ages)
    → 10 ≤ config.tick
    → All (λ order. IsCents order.limit_price) orders
    → All
        (Warranted broker now orders)
        (step config broker now pass ceiling book positions fuse orders ages).effects
unfolding step
step-Warranted config broker now pass ceiling book positions fuse orders ages tick cents =
    wake_once-Holds config broker now pass orders _ _ (
      visits-Holds config broker now pass (Warranted broker now orders) tick orders _ _ cents
        (warranted broker now orders) tt)
