-- ===== src/Execution/Ladder.antt =====
-- One pass of the ladder over the orders in the book: step, walk and the checks that cancel, of
-- golang/internal/execution/execution.go. The broker and the record are asked through `Broker`;
-- what a pass asks of them, and writes down, is the list of its effects, in order.
pub mod Pass
pub mod Refusals
pub mod Shown
pub mod Trace
pub mod Walks
use swiftward_alpaca_options.Prelude.{
  ℕ, ◌+◌, ◌-◌, ◌*◌, Bool, true, false, not, ◌&&◌, ◌||◌, Option, none, some, List, [], ◌∷◌, ◌++◌,
  map, ltb, leb, ◌==◌, if◌then◌else◌, length,
}
use swiftward_alpaca_options.Prelude.Int.{ℤ, pos, ltb_ℤ, eqb_ℤ}
use swiftward_alpaca_options.Prelude.Frac.{Frac, whole, negate, minus, divide, ltb_frac, leb_frac}
use swiftward_alpaca_options.Prelude.Text.{Text}
use swiftward_alpaca_options.Market.Symbol.{Series}
use swiftward_alpaca_options.Market.Order.{Quote, Position, Status, Leg, Order}
use swiftward_alpaca_options.Market.Exposure.{at_risk, without_a_floor}
use swiftward_alpaca_options.Execution.Price.{StrideKind, stride, toward, showing, worse_than}
use swiftward_alpaca_options.Execution.Name.{reservation, name_carrying}
use swiftward_alpaca_options.Execution.Checks.{
  only_closes, only_opens, unbounded, worst_case, edge_at,
}
use swiftward_alpaca_options.Execution.Ages.{
  Age, Ages, erase, life_of, carried, working, forget_what_is_done,
}

-- What the ladder is set up with. `min_edge` is MinEdgePoints: absent, or its answer for the pass.
pub record Config : Type 0 where
  pub every : ℕ
  pub patience : ℕ
  pub tick : ℕ
  pub kind : StrideKind
  pub recording : Bool
  pub waking : Bool
  pub min_edge : Option (Option Frac)

pub data Effect : Type 0 where
  fill_noted : Text → Option Bool → Effect
  said : Text → Effect
  cancel_sent : Text → Bool → Effect
  replace_sent : Text → ℤ → Text → Option Text → Effect
  cancel_recorded : Text → ℤ → Effect
  walk_recorded : Text → ℤ → ℤ → ℤ → ℤ → Text → Effect
  woken : List Text → Effect

-- The broker and the record answer each call; the number of the call is given, so that the same
-- question asked twice may be answered in two ways. `none` and `false` are errors. `news` says of a
-- fill whether it is younger than the ladder and there is somebody to tell.
pub record Broker : Type 0 where
  pub quotes : ℕ → List Text → Option (Text → Option Quote)
  pub cancel : ℕ → Text → Bool
  pub replace : ℕ → Text → ℤ → Text → Option Text
  pub note_fill : ℕ → Text → Option Bool
  pub news : Order → Bool

-- What the book already risks: a figure, or no figure, where a position's loss has no floor.
pub data Risk : Type 0 where
  figure : Frac → Risk
  no_floor : Risk

pub record State : Type 0 where
  pub ages : Ages
  pub risk : Risk
  pub cancelled : List Text
  pub effects : List Effect

-- The limits of a pass: what one position may lose, what the book may lose, and the day's fuse.
pub record Limits : Type 0 where
  pub ceiling : Option ℤ
  pub book : Option ℤ
  pub fused : Bool

abbrev pub emit : Effect → State → State
emit e s = record s { effects = s.effects ++ e ∷ [] }

abbrev pub emit_if : Bool → Effect → State → State
emit_if on e s = if on then emit e s else s

abbrev pub is_filled : Status → Bool
is_filled Status.filled = true
is_filled _ = false

-- A breach of the ceiling by the rounding that one set forces is forgiven.
abbrev pub over_ceiling : Order → ℤ → Option Frac → Bool
over_ceiling order ceiling none = false
over_ceiling order ceiling (some worst) =
    let resting = order.quantity - order.filled_quantity in
    let loss = negate worst in
    not (leb_frac loss (whole ceiling))
    && not (ltb 1 resting && ltb_frac (minus loss (whole ceiling)) (divide loss resting))

-- Whether the book would be past its limit, and what it risks with this order added.
abbrev pub over_book : Order → ℤ → Frac → Risk → Bool
over_book order limit worst no_floor = true
over_book order limit worst (figure held) =
    let resting = order.quantity - order.filled_quantity in
    let over = minus (minus held worst) (whole limit) in
    ltb_frac (whole (pos 0)) over
    && (leb resting 1 || leb_frac (divide (negate worst) resting) over)

abbrev pub adds : Frac → Risk → Risk
adds worst no_floor = no_floor
adds worst (figure held) = figure (minus held worst)

-- refusesTheFloor
abbrev pub edge_refused : Option Frac → Option (Option Frac) → Bool
edge_refused (some edge) (some (some least)) = not (leb_frac least edge)
edge_refused _ _ = false

abbrev pub symbols : List Leg → List Text
symbols legs = map (λ leg. leg.symbol) legs

-- The price that a walk offers next: none where it leaves the order alone.
abbrev pub target_of : ℤ → ℤ → ℤ
target_of shown floor = if worse_than shown floor then floor else shown

abbrev pub unless : Bool × State → (State → State) → State
unless (out, s) go = elim out [ true ↦ s | false ↦ go s ]

-- What the limits are asked for a pass: absent, asked without an answer, or answered.
abbrev pub answered {ℓ} : {A : Type ℓ} → Option (Option A) → Option A
answered none = none
answered (some answer) = answer

abbrev pub both : Option ℤ → Option (List Position) → Option (ℤ × List Position)
both (some limit) (some positions) = some (limit, positions)
both _ _ = none

abbrev pub is_over : Option Bool → Bool
is_over (some over) = over
is_over none = false

abbrev pub risk_of : List Position → List Series → Risk
risk_of positions [] = figure (whole (at_risk positions))
risk_of positions (s ∷ more) = no_floor

abbrev pub risk_held : Option (ℤ × List Position) → Risk
risk_held none = figure (whole (pos 0))
risk_held (some (limit, positions)) = risk_of positions (without_a_floor positions)

abbrev pub limit_held : Option (ℤ × List Position) → Option ℤ
limit_held none = none
limit_held (some (limit, positions)) = some limit

-- Whether an order rests on this pass: it has not rested an interval yet, or was moved on it.
abbrev pub rests : Config → ℕ → ℕ → Age → Bool
rests config now pass life =
    ((life.moved_on == 0) && ltb (now - life.placed) config.every) || (life.moved_on == pass)

-- The price that a walk offers next.
unfoldable pub next_price : Config → ℕ → Order → ℕ → ℤ → ℤ → ℤ
next_price config now order placed shown floor =
    let target = target_of shown floor in
    toward order.limit_price target (
      stride config.kind config.tick order.limit_price target (config.patience + placed - now)
        config.every)

module _ (config : Config) (broker : Broker) (now pass : ℕ) where
  -- Broker.CancelOrder
  unfoldable pub cancel : Text → State → Bool × State
  cancel id s = let ok = broker.cancel (length s.effects) id in (ok, emit (cancel_sent id ok) s)

  -- wroteDown a cancellation, then Wake.
  abbrev pub recorded : Order → State → State
  recorded order s = emit_if config.recording (cancel_recorded order.id order.limit_price) s

  abbrev pub told : Order → State → State
  told order s = emit_if config.waking (woken (order.id ∷ [])) s

  -- A cancellation that one wake at the end of the pass tells of.
  abbrev pub withdrawn : Order → Bool × State → State
  withdrawn order (ok, s) = elim ok [
    | true ↦
        let t = recorded order (record s { ages = erase order.id s.ages }) in
        record t { cancelled = t.cancelled ++ order.id ∷ [] }
    | false ↦ s
  ]

  -- A cancellation that is told of at once; whether the order is out of the ladder's hands.
  abbrev pub refused : Order → Bool × State → Bool × State
  refused order (ok, s) = elim ok [
    | true ↦ (true, told order (recorded order s))
    | false ↦ (false, s)
  ]

  abbrev pub reported : Order → Option Bool → State → State
  reported order answer s =
      let t = emit (fill_noted order.id answer) s in
      elim answer [
        | some true ↦ emit_if (broker.news order) (said order.id) t
        | some false ↦ t
        | none ↦ t
      ]

  -- report
  unfoldable pub report : Order → State → State
  report order s =
      if (is_filled order.status || ltb 0 order.filled_quantity) && config.recording
      then reported order (broker.note_fill (length s.effects) order.id) s
      else s

  -- unbounded
  unfoldable pub unbounded_out : Order → State → Bool × State
  unfolding cancel
  unbounded_out order s = if unbounded order then refused order (cancel order.id s) else (false, s)

  -- tooBig
  unfoldable pub too_big : Order → Option ℤ → State → Bool × State
  unfolding cancel
  too_big order none s = (false, s)
  too_big order (some ceiling) s =
      if over_ceiling order ceiling (worst_case order)
      then refused order (cancel order.id s)
      else (false, s)

  abbrev pub book_known : Order → ℤ → Option Frac → State → Bool × State
  book_known order limit none s = (false, s)
  book_known order limit (some worst) s =
      if over_book order limit worst s.risk
      then (true, (refused order (cancel order.id s)).1)
      else (false, record s { risk = adds worst s.risk })

  -- The check against the whole book, with overBook.
  unfoldable pub too_much : Order → Option ℤ → State → Bool × State
  unfolding cancel
  too_much order none s = (false, s)
  too_much order (some limit) s = book_known order limit (worst_case order) s

  unfoldable pub refuses_the_floor : Order → ℤ → (Text → Option Quote) → Bool
  refuses_the_floor order floor quotes =
      only_opens order && edge_refused (edge_at quotes floor order.legs) config.min_edge

  abbrev pub replaced : Order → ℤ → ℤ → ℤ → Option Text → State → State
  replaced order shown floor next none s = s
  replaced order shown floor next (some id) s =
      emit_if config.recording (walk_recorded order.id order.limit_price next shown floor id)
        (record s { ages = carried pass order.id id s.ages })

  abbrev pub offer : Order → ℤ → ℤ → ℤ → State → State
  offer order shown floor next s =
      let name = name_carrying order.client_id now in
      let answer = broker.replace (length s.effects) order.id next name in
      replaced order shown floor next answer (emit (replace_sent order.id next name answer) s)

  abbrev pub floored : Order → ℤ → (Text → Option Quote) → Option ℤ → State → State
  floored order shown quotes none s = s
  floored order shown quotes (some floor) s =
      let (life, ages) = life_of order now s.ages in
      let next = next_price config now order life.placed shown floor in
      if refuses_the_floor order floor quotes || eqb_ℤ next order.limit_price
      then s
      else offer order shown floor next s

  abbrev pub shown_at : Order → (Text → Option Quote) → Option ℤ → State → State
  shown_at order quotes none s = s
  shown_at order quotes (some shown) s =
      if worse_than shown order.limit_price
      then floored order shown quotes (reservation order.client_id) s
      else s

  abbrev pub quoted : Order → Option (Text → Option Quote) → State → State
  quoted order none s = s
  quoted order (some quotes) s = shown_at order quotes (showing quotes order.legs) s

  -- walk
  unfoldable pub walk : Order → State → State
  walk order s = quoted order (broker.quotes (length s.effects) (symbols order.legs)) s

  -- The end of a visit, once the checks have let the order stand: rest, cancel on patience, or walk.
  unfoldable pub rest_or_walk : Order → State → State
  unfolding cancel
  rest_or_walk order s =
      let (life, ages) = life_of order now s.ages in
      let t = record s { ages = ages } in
      if rests config now pass life
      then t
      else (if ltb config.patience (now - life.placed)
          then withdrawn order (cancel order.id t)
          else walk order t)

  -- The checks of an order that opens, one behind the other.
  unfoldable pub opening : Limits → Order → State → State
  opening limits order s = unless (unbounded_out order s) (λ t.
      unless (too_big order limits.ceiling t)
        (λ u. unless (too_much order limits.book u) (rest_or_walk order)))

  -- One order of a pass.
  unfoldable pub visit : Limits → State → Order → State
  unfolding cancel
  visit limits s order =
      let t = report order s in
      if not (working order)
      then t
      else (if only_closes order
          then rest_or_walk order t
          else (if limits.fused
              then withdrawn order (cancel order.id t)
              else opening limits order t))

  unfoldable pub visits : Limits → State → List Order → State
  visits limits s [] = s
  visits limits s (order ∷ orders) = visits limits (visit limits s order) orders

  -- One wake for all that was cancelled in the pass.
  abbrev pub wake_once : State → List Text → State
  wake_once s [] = s
  wake_once s (id ∷ ids) = emit_if config.waking (woken (id ∷ ids)) s

  -- step, once the orders have been read.
  unfoldable pub step :
      Option (Option ℤ)
      → Option (Option ℤ)
      → Option (List Position)
      → Option (Option Bool)
      → List Order
      → Ages
      → State
  step ceiling book positions fuse orders ages =
      let held = both (answered book) positions in
      let limits : Limits = record {
        ceiling = answered ceiling;
        book = limit_held held;
        fused = is_over (answered fuse);
      } in
      let start : State = record {
        ages = forget_what_is_done orders now (config.patience + config.every) ages;
        risk = risk_held held;
        cancelled = [];
        effects = [];
      } in
      let end = visits limits start orders in wake_once end end.cancelled
