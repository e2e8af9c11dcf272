-- ===== src/Execution/Ladder/Trace.antt =====
-- What a pass asks of the broker, over any orders: step of
-- golang/internal/execution/execution.go.
use swiftward_alpaca_options.Prelude.{
  ℕ, ◌-◌, ◌≤◌, ◌≡◌, refl, Bool, true, false, ◌&&◌, ◌||◌, inl, inr, Option, none, some, List, [],
  ◌∷◌, ◌++◌, arith, ltb, if◌then◌else◌, Bool-cases, All, length, map,
}
use swiftward_alpaca_options.Prelude.Int.{ℤ, eqb_ℤ}
use swiftward_alpaca_options.Prelude.Text.{Text}
use swiftward_alpaca_options.Prelude.Frac.{Frac}
use swiftward_alpaca_options.Market.Order.{Quote, Order}
use swiftward_alpaca_options.Execution.Price.{worse_than, round, showing}
use swiftward_alpaca_options.Execution.Ladder.Shown.{Shows, showing-Shows}
use swiftward_alpaca_options.Execution.Price.Round.{IsCents}
use swiftward_alpaca_options.Execution.Name.{reservation, name_carrying}
use swiftward_alpaca_options.Execution.Name.Fields.{reservation-IsCents}
use swiftward_alpaca_options.Execution.Checks.{unbounded, worst_case}
use swiftward_alpaca_options.Execution.Ages.{life_of, working}
use swiftward_alpaca_options.Execution.Ladder.{
  Config, Effect, cancel_sent, replace_sent, Broker, State, emit, unless, rests, is_filled,
  next_price, cancel, recorded, withdrawn, refused, reported, report, unbounded_out, over_ceiling,
  too_big, over_book, too_much, refuses_the_floor, replaced, floored, shown_at, quoted, walk,
  rest_or_walk, emit_if, book_known,
}
use swiftward_alpaca_options.Execution.Ladder.Walks.{Concedes, next_price-Concedes, showing-IsCents}

pub All-snoc {ℓ κ} :
    {A : Type ℓ} (P : A → Type κ) (xs : List A) (x : A) → All P xs → P x → All P (xs ++ x ∷ [])
All-snoc P [] x h p = (p, tt)
All-snoc P (y ∷ ys) x h p = (h.0, All-snoc P ys x h.1 p)

-- What justifies a call or a note about an order. A replacement is asked for at a price that
-- concedes within the worst price that the order's own name states, and is no worse than what a set
-- costs at the facing sides of the broker's quotes for its legs, under a name that carries it.
abbrev pub Justified : Broker → ℕ → Order → Effect → Type 0
Justified broker now order (replace_sent id price name answer) =
    (floor : ℤ) × (shown : ℤ) × (total : ℤ) × (call : ℕ) × (quotes : Text → Option Quote)
    × (broker.quotes call (map (λ leg. leg.symbol) order.legs) ≡ some quotes)
    × Shows quotes order.legs total
    × (shown ≡ round total)
    × (id ≡ order.id)
    × (reservation order.client_id ≡ some floor)
    × (name ≡ name_carrying order.client_id now)
    × Concedes order.limit_price floor shown price
    × (working order ≡ true)
Justified broker now order (cancel_sent id ok) = (id ≡ order.id) × (working order ≡ true)
Justified broker now order _ = Unit

module _ (config : Config) (broker : Broker) (now pass : ℕ) (Q : Effect → Type 0)
    (tick : 10 ≤ config.tick) where
  abbrev pub Holds : State → Type 0
  Holds s = All Q s.effects

  pub if-Holds : (b : Bool) (s t : State) → Holds s → Holds t → Holds (if b then s else t)
  if-Holds true s t h k = h
  if-Holds false s t h k = k

  pub unless-Holds :
      (out : Bool) (s : State) (go : State → State)
      → Holds s
      → (Holds s → Holds (go s))
      → Holds (unless (out, s) go)
  unless-Holds true s go h k = h
  unless-Holds false s go h k = k h

  -- An order whose justified effects have the property.
  module _ (order : Order) (limit_cents : IsCents order.limit_price)
      (justified : (e : Effect) → Justified broker now order e → Q e) where
    emit-Holds :
        (e : Effect) (s : State) → Holds s → Justified broker now order e → Holds (emit e s)
    emit-Holds e s h j = All-snoc Q s.effects e h (justified e j)

    pub emit_if-Holds :
        (on : Bool) (e : Effect) (s : State)
        → Holds s
        → Justified broker now order e
        → Holds (emit_if on e s)
    emit_if-Holds true e s h j = emit-Holds e s h j
    emit_if-Holds false e s h j = h

    recorded-Holds : (s : State) → Holds s → Holds (recorded config broker now pass order s)
    recorded-Holds s h = emit_if-Holds config.recording _ s h tt

    reported-Holds :
        (answer : Option Bool) (s : State)
        → Holds s
        → Holds (reported config broker now pass order answer s)
    reported-Holds (some true) s h = emit_if-Holds (broker.news order) _ _ (emit-Holds _ s h tt) tt
    reported-Holds (some false) s h = emit-Holds _ s h tt
    reported-Holds none s h = emit-Holds _ s h tt

    pub report-Holds : (s : State) → Holds s → Holds (report config broker now pass order s)
    unfolding report
    report-Holds s h =
        if-Holds ((is_filled order.status || ltb 0 order.filled_quantity) && config.recording)
          (reported config broker now pass order (broker.note_fill (length s.effects) order.id) s) s
          (reported-Holds (broker.note_fill (length s.effects) order.id) s h) h

    pub cancel-Holds :
        (s : State)
        → Holds s
        → working order ≡ true
        → Holds (cancel config broker now pass order.id s).1
    unfolding cancel
    cancel-Holds s h live = emit-Holds _ s h (refl, live)

    refused-Holds :
        (ok : Bool) (s : State) → Holds s → Holds (refused config broker now pass order (ok, s)).1
    refused-Holds true s h =
        emit_if-Holds config.waking _ (recorded config broker now pass order s) (recorded-Holds s h)
          tt
    refused-Holds false s h = h

    pub withdrawn-Holds :
        (ok : Bool) (s : State) → Holds s → Holds (withdrawn config broker now pass order (ok, s))
    withdrawn-Holds true s h = emit_if-Holds config.recording _ _ h tt
    withdrawn-Holds false s h = h

    cancelled-Holds :
        (s : State)
        → Holds s
        → working order ≡ true
        → Holds (refused config broker now pass order (cancel config broker now pass order.id s)).1
    cancelled-Holds s h live =
        refused-Holds (cancel config broker now pass order.id s).0 _ (cancel-Holds s h live)

    pub unbounded_out-Holds :
        (s : State)
        → Holds s
        → working order ≡ true
        → Holds (unbounded_out config broker now pass order s).1
    unfolding unbounded_out
    unbounded_out-Holds s h live = elim (Bool-cases (unbounded order)) [
      | inl exposed ↦ rw exposed (cancelled-Holds s h live)
      | inr covered ↦ rw covered h
    ]

    pub too_big-Holds :
        (ceiling : Option ℤ) (s : State)
        → Holds s
        → working order ≡ true
        → Holds (too_big config broker now pass order ceiling s).1
    unfolding too_big
    too_big-Holds none s h live = h
    too_big-Holds (some ceiling) s h live =
        elim (Bool-cases (over_ceiling order ceiling (worst_case order))) [
          | inl over ↦ rw over (cancelled-Holds s h live)
          | inr under ↦ rw under h
        ]

    book_known-Holds :
        (limit : ℤ) (worst : Option Frac) (s : State)
        → Holds s
        → working order ≡ true
        → Holds (book_known config broker now pass order limit worst s).1
    book_known-Holds limit none s h live = h
    book_known-Holds limit (some worst) s h live =
        elim (Bool-cases (over_book order limit worst s.risk)) [
          | inl over ↦ rw over (cancelled-Holds s h live)
          | inr under ↦ rw under h
        ]

    pub too_much-Holds :
        (limit : Option ℤ) (s : State)
        → Holds s
        → working order ≡ true
        → Holds (too_much config broker now pass order limit s).1
    unfolding too_much
    too_much-Holds none s h live = h
    too_much-Holds (some limit) s h live = book_known-Holds limit (worst_case order) s h live

    replaced-Holds :
        (shown floor next : ℤ) (answer : Option Text) (s : State)
        → Holds s
        → Holds (replaced config broker now pass order shown floor next answer s)
    replaced-Holds shown floor next none s h = h
    replaced-Holds shown floor next (some id) s h = emit_if-Holds config.recording _ _ h tt

    floored-Holds :
        (shown : ℤ) (quotes : Text → Option Quote) (floor : Option ℤ) (s : State)
        → (call : ℕ) → broker.quotes call (map (λ leg. leg.symbol) order.legs) ≡ some quotes
        → showing quotes order.legs ≡ some shown
        → reservation order.client_id ≡ floor
        → working order ≡ true
        → IsCents shown
        → worse_than shown order.limit_price ≡ true
        → Holds s
        → Holds (floored config broker now pass order shown quotes floor s)
    floored-Holds shown quotes none s call asked seen named live sc worse h = h
    floored-Holds shown quotes (some floor) s call asked seen named live sc worse h =
        let (life, ages) = life_of order now s.ages in
        let next = next_price config now order life.placed shown floor in
        elim (Bool-cases (
          refuses_the_floor config broker now pass order floor quotes
          || eqb_ℤ next order.limit_price)) [
            | inl stays ↦ rw stays h
            | inr moves ↦
                let (total, shows, rounded) = showing-Shows quotes order.legs shown seen in
                let fc = reservation-IsCents order.client_id floor named in
                let good =
                  next_price-Concedes config now order life.placed shown floor tick limit_cents sc
                    fc worse
                    (second (refuses_the_floor config broker now pass order floor quotes)
                      (eqb_ℤ next order.limit_price) moves) in
                rw moves (
                  replaced-Holds shown floor next _ _ (
                    emit-Holds _ s h (
                      floor, shown, total, call, quotes, asked, shows, rounded, refl, named, refl,
                      good, live,
                    )))
          ]
      where
        second : (a b : Bool) → (a || b) ≡ false → b ≡ false
        second a b e = ground arith

    shown_at-Holds :
        (quotes : Text → Option Quote) (shown : Option ℤ) (s : State)
        → (call : ℕ) → broker.quotes call (map (λ leg. leg.symbol) order.legs) ≡ some quotes
        → showing quotes order.legs ≡ shown
        → working order ≡ true
        → Holds s
        → Holds (shown_at config broker now pass order quotes shown s)
    shown_at-Holds quotes none s call asked e live h = h
    shown_at-Holds quotes (some shown) s call asked e live h =
        elim (Bool-cases (worse_than shown order.limit_price)) [
          | inl worse ↦ rw worse (
              floored-Holds shown quotes (reservation order.client_id) s call asked e refl live
                (showing-IsCents quotes order.legs shown e) worse h)
          | inr better ↦ rw better h
        ]

    quoted-Holds :
        (answer : Option (Text → Option Quote)) (s : State) (call : ℕ)
        → broker.quotes call (map (λ leg. leg.symbol) order.legs) ≡ answer
        → working order ≡ true
        → Holds s
        → Holds (quoted config broker now pass order answer s)
    quoted-Holds none s call asked live h = h
    quoted-Holds (some quotes) s call asked live h =
        shown_at-Holds quotes (showing quotes order.legs) s call asked refl live h

    pub rest_or_walk-Holds :
        (s : State)
        → working order ≡ true
        → Holds s
        → Holds (rest_or_walk config broker now pass order s)
    unfolding rest_or_walk walk
    rest_or_walk-Holds s live h =
        let (life, ages) = life_of order now s.ages in
        let t : State = record s { ages = ages } in
        elim (Bool-cases (rests config now pass life)) [
          | inl resting ↦ rw resting h
          | inr ready ↦ elim (Bool-cases (ltb config.patience (now - life.placed))) [
            | inl late ↦ rw (ready, late) (withdrawn-Holds _ _ (cancel-Holds t h live))
            | inr early ↦ rw (ready, early) (quoted-Holds _ t _ refl live h)
          ]
        ]
