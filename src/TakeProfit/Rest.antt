-- ===== src/TakeProfit/Rest.antt =====
-- A structure that was closed is left alone for ten minutes: consider and step of
-- golang/internal/takeprofit/step.go.
use swiftward_alpaca_options.Prelude.{
  ℕ, ◌+◌, ◌-◌, ◌≤◌, ◌<◌, ◌≡◌, refl, sym, ap, ◌∙◌, Bool, true, ◌&&◌, ◌||◌, Option, none, some, List,
  [], ◌∷◌, ◌++◌, inl, inr, any, map, length, ltb, Bool-cases, All, arith, if◌then◌else◌,
}
use swiftward_alpaca_options.Prelude.Int.{pos, leb_ℤ}
use swiftward_alpaca_options.Prelude.Frac.{Frac, whole, ltb_frac}
use swiftward_alpaca_options.Prelude.Text.{Text, text_eq, text_eq_self, to_upper}
use swiftward_alpaca_options.Market.Symbol.{Date}
use swiftward_alpaca_options.Market.Order.{Quote, Position, Order}
use mathlib.Core.Option.{some-injective}
use mathlib.Core.Path.{subst}
use swiftward_alpaca_options.TakeProfit.{Closing, closing_of, buy_back}
use swiftward_alpaca_options.TakeProfit.Group.{Structure, name_of, group}
use swiftward_alpaca_options.TakeProfit.Watch.{
  Effect, close_sent, share, Broker, State, emit, is_in, decline, expired, standing, sent_lately,
  share_of, has_id, answered, close, priced, quoted, consider, consider_all, shared, with_orders,
  walking, step,
}

-- When a name was last closed.
pub last_sent : Text → List (Text × ℕ) → Option ℕ
last_sent name [] = none
last_sent name ((other, at) ∷ rest) =
    let more = last_sent name rest in if text_eq other name then some at else more

-- It was closed at a moment or later.
abbrev Recent : Text → ℕ → List (Text × ℕ) → Type 0
Recent name since sent = (at : ℕ) × (last_sent name sent ≡ some at) × (since ≤ at)

pub sent_lately-last_sent :
    (now : ℕ) (name : Text) (sent : List (Text × ℕ)) (at : ℕ)
    → last_sent name sent ≡ some at
    → sent_lately now name sent ≡ ltb (now - at) standing
unfolding last_sent sent_lately
sent_lately-last_sent now name [] at e = cc
sent_lately-last_sent now name ((other, when) ∷ rest) at e =
    elim (Bool-cases (text_eq other name)) [
      | inl same ↦
          rw same (ap (λ t. ltb (now - t) standing) (some-injective when at (rw same at e)))
      | inr apart ↦ rw apart (sent_lately-last_sent now name rest at (rw apart at e))
    ]

Recent-sent_lately :
    (name : Text) (since now : ℕ) (sent : List (Text × ℕ))
    → Recent name since sent
    → now < since + standing
    → sent_lately now name sent ≡ true
Recent-sent_lately name since now sent (at, last, late) soon =
    sent_lately-last_sent now name sent at last ∙ within at late
  where
    within : (at : ℕ) → since ≤ at → ltb (now - at) standing ≡ true
    within at late = ground arith

Recent-more :
    (name other : Text) (since now : ℕ) (sent : List (Text × ℕ))
    → since ≤ now
    → Recent name since sent
    → Recent name since ((other, now) ∷ sent)
unfolding last_sent
Recent-more name other since now sent late (at, last, h) = elim (Bool-cases (text_eq other name)) [
  | inl same ↦ (now, rw same refl, late)
  | inr apart ↦ (at, rw apart last, h)
]

Recent-here :
    (name : Text) (now : ℕ) (sent : List (Text × ℕ)) → Recent name now ((name, now) ∷ sent)
unfolding last_sent
Recent-here name now sent = (now, rw (text_eq_self name) refl, omega arith)

-- What considering a structure comes to: nothing, a close that the broker turns down, or a close that
-- is accepted and remembered.
consider_cases :
    (broker : Broker) (recording : Bool) (now : ℕ) (today : Date) (busy : List Text) (share : Frac)
    (s : State) (one : Structure) (Q : State → Type 0)
    → Q s
    → ((legs : List Closing) (sets : ℕ) (cost : Frac) (name : Text)
        → Q (emit (close_sent legs sets cost name none) s))
    → ((t : State) → t.sent ≡ (name_of one.key, now) ∷ s.sent → Q t)
    → Q (consider broker recording now today busy share s one)
unfolding consider
consider_cases broker recording now today busy share s one Q still refused remembered =
    elim (Bool-cases (
      leb_ℤ one.credit.num (pos 0)
      || expired today one
      || sent_lately now (name_of one.key) s.sent
      || any (λ leg. is_in (to_upper leg.symbol) busy) one.legs)) [
        | inl left ↦ rw left still
        | inr free ↦
            rw free
              (by_quotes (broker.quotes (length s.effects) (map (λ leg. leg.symbol) one.legs)))
      ]
  where
    by_answer :
        (legs : List Closing) (cost : Frac) (name : Text) (answer : Option Text)
        → Q (
            answered broker recording now today
              (name_of one.key)
              cost
              answer
              (emit (close_sent legs one.sets cost name answer) s))
    by_answer legs cost name none = refused legs one.sets cost name
    by_answer legs cost name (some id) = elim (Bool-cases (recording && has_id id)) [
      | inl noted ↦ remembered _ (rw noted refl)
      | inr silent ↦ remembered _ (rw silent refl)
    ]

    by_legs :
        (cost : Frac) (legs : Option (List Closing))
        → Q (close broker recording now today one share cost legs s)
    by_legs cost none = still
    by_legs cost (some legs) = by_answer legs cost _ _

    by_cost : (cost : Option Frac) → Q (priced broker recording now today one share cost s)
    by_cost none = still
    by_cost (some cost) =
        elim (Bool-cases
          (ltb_frac cost (whole (pos 0)) || ltb_frac (share_of one.credit share) cost)) [
            | inl dear ↦ rw dear still
            | inr cheap ↦ rw cheap (by_legs cost (closing_of one.sets one.legs))
          ]

    by_quotes :
        (quotes : Option (Text → Option Quote))
        → Q (quoted broker recording now today one share quotes s)
    by_quotes none = still
    by_quotes (some quotes) = by_cost (buy_back quotes one.legs)

-- A pass over a structure leaves the list of closes, or adds a close of the structure to it.
consider_sent :
    (broker : Broker) (recording : Bool) (now : ℕ) (today : Date) (busy : List Text) (share : Frac)
    (s : State) (one : Structure) (P : List (Text × ℕ) → Type 0)
    → P s.sent
    → P ((name_of one.key, now) ∷ s.sent)
    → P (consider broker recording now today busy share s one).sent
consider_sent broker recording now today busy share s one P still more =
    consider_cases broker recording now today busy share s one (λ t. P t.sent) still
      (λ legs sets cost name. still) (λ t same. subst P (sym same) more)

not_longer : (es : List Effect) (e : Effect) (more : List Effect) → ¬ (es ≡ es ++ e ∷ more)
not_longer [] e more h = cc
not_longer (x ∷ es) e more h = not_longer es e more cc

same_next :
    (es : List Effect) (a b : Effect) (more : List Effect) → es ++ a ∷ [] ≡ es ++ b ∷ more → a ≡ b
same_next [] a b more h = cc
same_next (x ∷ es) a b more h = same_next es a b more cc

-- A close that the broker accepted is remembered.
consider_remembers :
    (broker : Broker) (recording : Bool) (now : ℕ) (today : Date) (busy : List Text) (share : Frac)
    (s : State) (one : Structure) (legs : List Closing) (sets : ℕ) (cost : Frac) (name id : Text)
    (more : List Effect)
    → (consider broker recording now today busy share s one).effects
      ≡ s.effects ++ close_sent legs sets cost name (some id) ∷ more
    → Recent (name_of one.key) now (consider broker recording now today busy share s one).sent
consider_remembers broker recording now today busy share s one legs sets cost name id more =
    consider_cases broker recording now today busy share s one
      (λ t.
        t.effects ≡ s.effects ++ close_sent legs sets cost name (some id) ∷ more
        → Recent (name_of one.key) now t.sent)
      (λ same. absurd (not_longer s.effects _ more same))
      (λ legs_then sets_then cost_then name_then same.
        absurd
          (answers legs_then sets_then cost_then name_then (same_next s.effects _ _ more same)))
      (λ t kept same.
        subst (Recent (name_of one.key) now) (sym kept) (Recent-here (name_of one.key) now s.sent))
  where
    answers :
        (legs_then : List Closing) (sets_then : ℕ) (cost_then : Frac) (name_then : Text)
        → ¬ (
            close_sent legs_then sets_then cost_then name_then none
            ≡ close_sent legs sets cost name (some id))
    answers legs_then sets_then cost_then name_then same = cc

consider_all-Recent :
    (broker : Broker) (recording : Bool) (now : ℕ) (today : Date) (busy : List Text) (share : Frac)
    (structures : List Structure) (s : State) (name : Text) (since : ℕ)
    → since ≤ now
    → Recent name since s.sent
    → Recent name since (consider_all broker recording now today busy share s structures).sent
unfolding consider_all
consider_all-Recent broker recording now today busy share [] s name since late h = h
consider_all-Recent broker recording now today busy share (one ∷ rest) s name since late h =
    consider_all-Recent broker recording now today busy share rest _ name since late (
      consider_sent broker recording now today busy share s one (Recent name since) h
        (Recent-more name (name_of one.key) since now s.sent late h))

decline_sent : (names : List Text) (s : State) → (decline names s).sent ≡ s.sent
unfolding decline
decline_sent [] s = refl
decline_sent (name ∷ names) s = decline_sent names _ ∙ elim (Bool-cases (is_in name s.declined)) [
  | inl known ↦ rw known refl
  | inr fresh ↦ rw fresh refl
]

-- A pass: the moment, and what the broker, the record and the settings answer in it.
pub record Pass : Type 0 where
  pub broker : Broker
  pub recording : Bool
  pub now : ℕ
  pub today : Date
  pub held : Option (List Position)
  pub orders : Option (List Order)
  pub at : Option Frac

abbrev pub pass : State → Pass → State
pass s p = step p.broker p.recording p.now p.today p.held p.orders p.at s

unfoldable pub passes : State → List Pass → State
passes s [] = s
passes s (p ∷ rest) = passes (pass s p) rest

pass-Recent :
    (p : Pass) (s : State) (name : Text) (since : ℕ)
    → since ≤ p.now
    → Recent name since s.sent
    → Recent name since (pass s p).sent
unfolding step
pass-Recent p s name since late h = by_held p.held
  where
    declined : (ambiguous : List Text) → Recent name since (decline ambiguous s).sent
    declined ambiguous = subst (Recent name since) (sym (decline_sent ambiguous s)) h

    by_share :
        (part : Option Frac) (orders : List Order) (structures : List Structure) (t : State)
        → Recent name since t.sent
        → Recent name since
            (shared p.broker p.recording p.now p.today part orders structures t).sent
    by_share none orders structures t k = k
    by_share (some part) orders structures t k =
        consider_all-Recent p.broker p.recording p.now p.today (walking orders) part structures t
          name since late k

    by_orders :
        (orders : Option (List Order)) (structures : List Structure) (t : State)
        → Recent name since t.sent
        → Recent name since
            (with_orders p.broker p.recording p.now p.today p.at orders structures t).sent
    by_orders none structures t k = k
    by_orders (some orders) structures t k = by_share (share p.at) orders structures t k

    by_held :
        (held : Option (List Position))
        → Recent name since (step p.broker p.recording p.now p.today held p.orders p.at s).sent
    by_held none = h
    by_held (some held) = by_orders p.orders (group held).0 _ (declined (group held).1)

passes-Recent :
    (rest : List Pass) (s : State) (name : Text) (since : ℕ)
    → All (λ p. since ≤ p.now) rest
    → Recent name since s.sent
    → Recent name since (passes s rest).sent
unfolding passes
passes-Recent [] s name since late h = h
passes-Recent (p ∷ rest) s name since late h =
    passes-Recent rest (pass s p) name since late.1 (pass-Recent p s name since late.0 h)

-- A structure is not closed twice in ten minutes: where considering it has the broker accept a close,
-- whether the close is recorded or not, then whatever else that pass considers and whatever passes
-- follow, none of them earlier, until ten minutes are over considering a structure of the same name
-- changes nothing and asks the broker for nothing.
pub consider_rests :
    (broker : Broker) (recording : Bool) (now : ℕ) (today : Date) (busy : List Text) (share : Frac)
    (s : State) (one : Structure) (legs : List Closing) (sets : ℕ) (cost : Frac) (name id : Text)
    (more : List Effect) (others : List Structure) (rest : List Pass) (broker_then : Broker)
    (recording_then : Bool) (later : ℕ) (today_then : Date) (busy_then : List Text)
    (share_then : Frac) (again : Structure)
    → let closed = consider broker recording now today busy share s one in
      closed.effects ≡ s.effects ++ close_sent legs sets cost name (some id) ∷ more
      → All (λ p. now ≤ p.now) rest
      → name_of again.key ≡ name_of one.key
      → later < now + standing
      → let after =
          passes (consider_all broker recording now today busy share closed others) rest in
        consider broker_then recording_then later today_then busy_then share_then after again
        ≡ after
unfolding consider
consider_rests broker recording now today busy share s one legs sets cost name id more others rest
      broker_then recording_then later today_then busy_then share_then again accepted late same
      soon =
    let closed = consider broker recording now today busy share s one in
    let after = passes (consider_all broker recording now today busy share closed others) rest in
    let recent : Recent (name_of one.key) now closed.sent =
      consider_remembers broker recording now today busy share s one legs sets cost name id more
        accepted in
    let still : Recent (name_of one.key) now after.sent =
      passes-Recent rest _ (name_of one.key) now late (
        consider_all-Recent broker recording now today busy share others closed (name_of one.key)
          now (omega arith) recent) in
    let quiet : sent_lately later (name_of again.key) after.sent ≡ true =
      subst (λ name. sent_lately later name after.sent ≡ true) (sym same)
        (Recent-sent_lately (name_of one.key) now later after.sent still soon) in
    rw
      (shut (leb_ℤ again.credit.num (pos 0)) (expired today_then again)
        (sent_lately later (name_of again.key) after.sent)
        (any (λ leg. is_in (to_upper leg.symbol) busy_then) again.legs) quiet)
      refl
  where
    shut : (a b c d : Bool) → c ≡ true → (a || b || c || d) ≡ true
    shut a b c d e = ground arith
