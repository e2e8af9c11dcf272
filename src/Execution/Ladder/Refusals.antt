-- ===== src/Execution/Ladder/Refusals.antt =====
-- The orders that a pass refuses: the fuse, unbounded and tooBig of
-- golang/internal/execution/execution.go.
use swiftward_alpaca_options.Prelude.{
  ℕ, ◌≡◌, refl, sym, ap, ◌∙◌, inl, inr, Bool, true, false, ◌&&◌, ◌||◌, ltb, if◌then◌else◌, Option,
  none, some, List, [], ◌∷◌, ◌++◌, Bool-cases, length,
}
use swiftward_alpaca_options.Prelude.Int.{ℤ}
use swiftward_alpaca_options.Prelude.Text.{Text}
use swiftward_alpaca_options.Market.Order.{Order}
use swiftward_alpaca_options.Execution.Checks.{only_closes, unbounded, worst_case}
use swiftward_alpaca_options.Execution.Ages.{working, erase}
use swiftward_alpaca_options.Execution.Ladder.{
  Config, Effect, fill_noted, said, cancel_sent, replace_sent, cancel_recorded, walk_recorded,
  woken, Broker, State, Limits, emit, emit_if, is_filled, unless, cancel, refused, withdrawn,
  reported, report, over_ceiling, unbounded_out, too_big, too_much, rest_or_walk, opening, visit,
}
use mathlib.Core.List.{Memᴰ}

-- The orders that a replacement was asked for.
pub offers : List Effect → List Text
offers [] = []
offers (replace_sent id price name answer ∷ effects) = id ∷ offers effects
offers (_ ∷ effects) = offers effects

abbrev is_quiet : Effect → Bool
is_quiet (replace_sent id price name answer) = false
is_quiet _ = true

offers-snoc :
    (es : List Effect) (e : Effect) → is_quiet e ≡ true → offers (es ++ e ∷ []) ≡ offers es
unfolding offers
offers-snoc [] (fill_noted id answer) q = refl
offers-snoc [] (said id) q = refl
offers-snoc [] (cancel_sent id ok) q = refl
offers-snoc [] (replace_sent id price name answer) q = cc
offers-snoc [] (cancel_recorded id limit) q = refl
offers-snoc [] (walk_recorded id old new shown floor to) q = refl
offers-snoc [] (woken ids) q = refl
offers-snoc (fill_noted id answer ∷ es) e q = offers-snoc es e q
offers-snoc (said id ∷ es) e q = offers-snoc es e q
offers-snoc (cancel_sent id ok ∷ es) e q = offers-snoc es e q
offers-snoc (replace_sent id price name answer ∷ es) e q = ap (λ ids. id ∷ ids) (offers-snoc es e q)
offers-snoc (cancel_recorded id limit ∷ es) e q = offers-snoc es e q
offers-snoc (walk_recorded id old new shown floor to ∷ es) e q = offers-snoc es e q
offers-snoc (woken ids ∷ es) e q = offers-snoc es e q

Memᴰ-snoc {ℓ} : {A : Type ℓ} (a x : A) (xs : List A) → Memᴰ a xs → Memᴰ a (xs ++ x ∷ [])
Memᴰ-snoc a x _ (Memᴰ.head e) = Memᴰ.head e
Memᴰ-snoc a x _ (Memᴰ.tail {xs = ys} m) = Memᴰ.tail (Memᴰ-snoc a x ys m)

Memᴰ_last {ℓ} : {A : Type ℓ} (a : A) (xs : List A) → Memᴰ a (xs ++ a ∷ [])
Memᴰ_last a [] = Memᴰ.head refl
Memᴰ_last a (x ∷ xs) = Memᴰ.tail (Memᴰ_last a xs)

-- A state reached from another without an offer, in which a cancellation of the order was accepted.
pub record Withdraws (id : Text) (before after : State) : Type 0 where
  pub no_offer : offers after.effects ≡ offers before.effects
  pub accepted : Memᴰ (cancel_sent id true) after.effects

emit_if-Withdraws :
    (on : Bool) (e : Effect) (id : Text) (s t : State)
    → is_quiet e ≡ true
    → Withdraws id s t
    → Withdraws id s (emit_if on e t)
emit_if-Withdraws true e id s t q w = record {
  no_offer = offers-snoc t.effects e q ∙ w.no_offer;
  accepted = Memᴰ-snoc (cancel_sent id true) e t.effects w.accepted;
}
emit_if-Withdraws false e id s t q w = w

sent-Withdraws : (id : Text) (s : State) → Withdraws id s (emit (cancel_sent id true) s)
sent-Withdraws id s = record {
  no_offer = offers-snoc s.effects (cancel_sent id true) refl;
  accepted = Memᴰ_last (cancel_sent id true) s.effects;
}

after-Withdraws :
    (id : Text) (r s t : State)
    → offers s.effects ≡ offers r.effects
    → Withdraws id s t
    → Withdraws id r t
after-Withdraws id r s t same w = record { no_offer = w.no_offer ∙ same; accepted = w.accepted }

-- What is refused whatever the book shows: everything that opens, once the fuse has blown; an
-- order whose loss has no floor; an order past the ceiling of one position.
pub data IsRefused (limits : Limits) (order : Order) : Type 0 where
  fuse_blown : limits.fused ≡ true → IsRefused limits order
  floorless : unbounded order ≡ true → IsRefused limits order
  too_large :
      (ceiling : ℤ)
      → limits.ceiling ≡ some ceiling
      → over_ceiling order ceiling (worst_case order) ≡ true
      → IsRefused limits order

module _ (config : Config) (broker : Broker) (now pass : ℕ)
    (accepts : (call : ℕ) (id : Text) → broker.cancel call id ≡ true) where
  offers-report :
      (order : Order) (s : State)
      → offers (report config broker now pass order s).effects ≡ offers s.effects
  unfolding report
  offers-report order s =
      by_test ((is_filled order.status || ltb 0 order.filled_quantity) && config.recording)
        (broker.note_fill (length s.effects) order.id)
    where
      news :
          (on : Bool) (t : State) → offers (emit_if on (said order.id) t).effects ≡ offers t.effects
      news true t = offers-snoc t.effects (said order.id) refl
      news false t = refl

      by_answer :
          (answer : Option Bool)
          → offers (reported config broker now pass order answer s).effects ≡ offers s.effects
      by_answer (some true) = news (broker.news order) _ ∙ offers-snoc s.effects _ refl
      by_answer (some false) = offers-snoc s.effects _ refl
      by_answer none = offers-snoc s.effects _ refl

      by_test :
          (on : Bool) (answer : Option Bool)
          → offers (if on then reported config broker now pass order answer s else s).effects
            ≡ offers s.effects
      by_test true answer = by_answer answer
      by_test false answer = refl

  cancel_accepted :
      (id : Text) (s : State)
      → cancel config broker now pass id s ≡ (true, emit (cancel_sent id true) s)
  unfolding cancel
  cancel_accepted id s = rw (accepts (length s.effects) id)

  refused-Withdraws :
      (order : Order) (s : State)
      → let out = refused config broker now pass order (cancel config broker now pass order.id s) in
        (out.0 ≡ true) × Withdraws order.id s out.1
  refused-Withdraws order s = rw (cancel_accepted order.id s) (
    refl,
    emit_if-Withdraws config.waking (woken (order.id ∷ [])) order.id s
        (emit_if config.recording (cancel_recorded order.id order.limit_price)
          (emit (cancel_sent order.id true) s))
        refl
        (emit_if-Withdraws config.recording (cancel_recorded order.id order.limit_price) order.id s
          (emit (cancel_sent order.id true) s) refl (sent-Withdraws order.id s)),
  )

  withdrawn-Withdraws :
      (order : Order) (s : State)
      → Withdraws order.id s
          (withdrawn config broker now pass order (cancel config broker now pass order.id s))
  withdrawn-Withdraws order s =
      let sent = emit (cancel_sent order.id true) s in
      let forgotten : State = record sent { ages = erase order.id sent.ages } in
      let same : Withdraws order.id s forgotten = record {
        no_offer = (sent-Withdraws order.id s).no_offer;
        accepted = (sent-Withdraws order.id s).accepted;
      } in
      let noted =
        emit_if-Withdraws config.recording (cancel_recorded order.id order.limit_price) order.id s
          forgotten refl same in
      rw (cancel_accepted order.id s)
        (record { no_offer = noted.no_offer; accepted = noted.accepted })

  out_of_hands :
      (id : Text) (s : State) (p : Bool × State) (go : State → State)
      → (p.0 ≡ true) × Withdraws id s p.1
      → Withdraws id s (unless p go)
  out_of_hands id s (true, t) go (out, w) = w
  out_of_hands id s (false, t) go (out, w) = absurd (contra out)
    where
      contra : false ≡ true → ⊥
      contra e = cc

  unbounded_out-Withdraws :
      (order : Order) (s : State)
      → unbounded order ≡ true
      → let out = unbounded_out config broker now pass order s in
        (out.0 ≡ true) × Withdraws order.id s out.1
  unfolding unbounded_out
  unbounded_out-Withdraws order s exposed = rw exposed (refused-Withdraws order s)

  too_big-Withdraws :
      (order : Order) (ceiling : ℤ) (s : State)
      → over_ceiling order ceiling (worst_case order) ≡ true
      → let out = too_big config broker now pass order (some ceiling) s in
        (out.0 ≡ true) × Withdraws order.id s out.1
  unfolding too_big
  too_big-Withdraws order ceiling s over = rw over (refused-Withdraws order s)

  passed_over :
      (order : Order) (s : State)
      → unbounded order ≡ false
      → unbounded_out config broker now pass order s ≡ (false, s)
  unfolding unbounded_out
  passed_over order s covered = rw covered

  opening-Withdraws :
      (limits : Limits) (order : Order) (s : State)
      → IsRefused limits order
      → limits.fused ≡ false
      → Withdraws order.id s (opening config broker now pass limits order s)
  unfolding opening
  opening-Withdraws limits order s why whole = elim (Bool-cases (unbounded order)) [
    | inl exposed ↦
        out_of_hands order.id s (unbounded_out config broker now pass order s)
          (λ t. unless (too_big config broker now pass order limits.ceiling t) (λ u.
            unless (too_much config broker now pass order limits.book u)
              (rest_or_walk config broker now pass order)))
          (unbounded_out-Withdraws order s exposed)
    | inr covered ↦ by_reason why covered
  ]
    where
      contra : false ≡ true → ⊥
      contra e = cc

      by_reason :
          IsRefused limits order
          → unbounded order ≡ false
          → Withdraws order.id s (opening config broker now pass limits order s)
      by_reason (fuse_blown blown) covered = absurd (contra (sym whole ∙ blown))
      by_reason (floorless exposed) covered = absurd (contra (sym covered ∙ exposed))
      by_reason (too_large ceiling held over) covered =
          rw (passed_over order s covered, held)
            (out_of_hands order.id s (too_big config broker now pass order (some ceiling) s)
              (λ u.
                unless (too_much config broker now pass order limits.book u)
                  (rest_or_walk config broker now pass order))
              (too_big-Withdraws order ceiling s over))

  -- A broker that accepts cancellations withdraws every order that is refused: a visit to a working
  -- order that does not only close, once the fuse has blown, or with a loss that has no floor, or
  -- past the ceiling of one position, cancels it and asks for no replacement.
  pub visit-Withdraws :
      (limits : Limits) (order : Order) (s : State)
      → working order ≡ true
      → only_closes order ≡ false
      → IsRefused limits order
      → Withdraws order.id s (visit config broker now pass limits s order)
  unfolding visit
  visit-Withdraws limits order s live opens why =
      let t = report config broker now pass order s in
      after-Withdraws order.id s t (visit config broker now pass limits s order)
        (offers-report order s)
        (elim (Bool-cases limits.fused) [
          | inl blown ↦
              rw (live, opens) (if_true limits.fused _ _ blown (withdrawn-Withdraws order t))
          | inr whole ↦
              rw (live, opens)
                (if_false limits.fused _ _ whole (opening-Withdraws limits order t why whole))
        ])
    where
      if_true :
          (b : Bool) (x y : State)
          → b ≡ true
          → Withdraws order.id (report config broker now pass order s) x
          → Withdraws order.id (report config broker now pass order s) (if b then x else y)
      if_true true x y e w = w
      if_true false x y e w = cc

      if_false :
          (b : Bool) (x y : State)
          → b ≡ false
          → Withdraws order.id (report config broker now pass order s) y
          → Withdraws order.id (report config broker now pass order s) (if b then x else y)
      if_false true x y e w = cc
      if_false false x y e w = w
