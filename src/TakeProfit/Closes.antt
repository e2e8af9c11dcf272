-- ===== src/TakeProfit/Closes.antt =====
-- When a structure is closed: consider of golang/internal/takeprofit/step.go.
use swiftward_alpaca_options.Prelude.{
  ℕ, ◌+◌, ◌-◌, ◌*◌, ◌/◌, ◌≤◌, ◌<◌, ◌≡◌, refl, sym, ap, ◌∙◌, inl, inr, ◌⊎◌, Bool, true, false, not,
  ◌&&◌, ◌==◌, ◌||◌, Option, none, some, List, [], ◌∷◌, ◌++◌, map, length, any, ltb, if◌then◌else◌,
  Bool-cases, Option-cases, All, arith,
}
use swiftward_alpaca_options.Prelude.Int.{
  ℤ, pos, negsuc, neg, scale, abs, ◌+ℤ◌, ◌<ℤ◌, ◌≤ℤ◌, leb_ℤ, ltb_ℤ, int_laws,
}
use swiftward_alpaca_options.Prelude.Frac.{Frac, whole, ltb_frac}
use swiftward_alpaca_options.Prelude.Text.{Text, to_upper, codes}
use swiftward_alpaca_options.Market.Order.{Quote, Position}
use swiftward_alpaca_options.Market.Symbol.{Date}
use swiftward_alpaca_options.Execution.Price.{round_ratio}
use swiftward_alpaca_options.Execution.Price.Round.{round_ratio-IsCents}
use swiftward_alpaca_options.Execution.Name.{
  worst_prefix, show_price, show, is_separator, flatten, reservation,
}
use swiftward_alpaca_options.Execution.Name.Digits.{read_price-show_price, all-show_price}
use swiftward_alpaca_options.Execution.Name.Fields.{
  or_else, stated, reservation-stated, stated-stamped, stated_field_name,
}
use mathlib.Core.Option.{some-injective}
use mathlib.Core.List.{append_assoc}
use mathlib.Core.Path.{subst}
use swiftward_alpaca_options.TakeProfit.{
  Closing, sets_in, closing_of, is_quoted, is_sold, cost_of, per_set, buy_back,
}
use swiftward_alpaca_options.TakeProfit.Sets.{Flattens, closing_of-Flattens}
use swiftward_alpaca_options.TakeProfit.Group.{Structure, name_of}
use swiftward_alpaca_options.TakeProfit.Rest.{last_sent, sent_lately-last_sent}
use swiftward_alpaca_options.TakeProfit.Watch.{
  Effect, close_sent, placed_recorded, Broker, State, standing, is_in, expired, sent_lately,
  share_of, closing_name, has_id, answered, close, priced, quoted, consider,
}

-- What a quantity costs to undo: what is owed is bought at the ask, what is held is sold at the bid.
abbrev pub undone_at : ℤ → Quote → ℤ
undone_at (pos n) quote = neg (scale n quote.bid)
undone_at (negsuc n) quote = scale (ℕ.suc n) quote.ask

-- The legs cost so much to undo, where each has a quote that has both sides and is not crossed.
abbrev pub Costs : (Text → Option Quote) → List Position → ℤ → Type 0
Costs quotes [] cost = cost ≡ pos 0
Costs quotes (leg ∷ legs) cost =
    (quote : Quote) × (rest : ℤ) × (quotes leg.symbol ≡ some quote)
    × (pos 0 <ℤ quote.bid)
    × (quote.bid ≤ℤ quote.ask)
    × (cost ≡ undone_at leg.quantity quote +ℤ rest)
    × Costs quotes legs rest

-- The order of the calendar.
abbrev pub NotAfter : Date → Date → Type 0
NotAfter a b =
    (a.year < b.year)
    ⊎ ((a.year ≡ b.year) × ((a.month < b.month) ⊎ ((a.month ≡ b.month) × (a.day ≤ b.day))))

-- What makes a close right. The structure brought in a credit, today is not after its day, no close of
-- it is as little as ten minutes old, and none of its legs is in an order. The broker was asked for the
-- quotes of its legs, and at these the sets cost, all in all, cost.num to buy back: nothing or
-- more, and no more than the share of the credit. The close is of all the sets, its legs undo the holding
-- leg by leg, and its name states the share of the credit, rounded to the cent, as its worst price.
abbrev pub Rightful : Broker → ℕ → Date → List Text → Frac → State → Structure → Effect → Type 0
Rightful broker now today busy share s one (close_sent legs sets cost name answer) =
    (quotes : Text → Option Quote) × (pos 0 <ℤ one.credit.num)
    × NotAfter today one.key.expiration
    × ((last_sent (name_of one.key) s.sent ≡ none)
        ⊎ ((at : ℕ) × (last_sent (name_of one.key) s.sent ≡ some at) × (at + standing ≤ now)))
    × All (λ leg. is_in (to_upper leg.symbol) busy ≡ false) one.legs
    × (broker.quotes (length s.effects) (map (λ leg. leg.symbol) one.legs) ≡ some quotes)
    × Costs quotes one.legs cost.num
    × (cost.den ≡ sets)
    × (pos 0 ≤ℤ cost.num)
    × (scale (share.den * one.credit.den) cost.num
        ≤ℤ scale sets (scale (abs share.num) one.credit.num))
    × (sets ≡ sets_in one.legs)
    × Flattens sets one.legs legs
    × (reservation name
        ≡ some (round_ratio (scale (abs share.num) one.credit.num) (share.den * one.credit.den)))
Rightful broker now today busy share s one _ = Unit

nothing : (n : ℕ) → n < n → ⊥
nothing n h = omega arith

same_size : (n : ℕ) → n + 0 ≡ n
same_size n = omega arith

nothing_more : (n : ℕ) → 0 + n ≡ n
nothing_more n = omega arith

cost_of-Costs :
    (quotes : Text → Option Quote) (legs : List Position) (cost : ℤ)
    → cost_of quotes legs ≡ some cost
    → Costs quotes legs cost
unfolding cost_of
cost_of-Costs quotes [] cost e = sym (some-injective _ _ e)
cost_of-Costs quotes (leg ∷ legs) cost e = elim (Option-cases (quotes leg.symbol)) [
  | inl missing ↦ absurd (contra (rw missing at e))
  | inr (quote, here) ↦ elim (Option-cases (cost_of quotes legs)) [
    | inl unpriced ↦ absurd (contra (rw (here, unpriced) at e))
    | inr (rest, behind) ↦ elim (Bool-cases (is_quoted quote)) [
      | inr bad ↦ absurd (contra (rw (here, behind, bad) at e))
      | inl good ↦
          let same = some-injective _ _ (rw (here, behind, good) at e) in
          (
            quote,
            rest,
            here,
            ground arith,
            ground arith,
            sym same ∙ ap (λ c. c +ℤ rest) (faced leg.quantity quote),
            cost_of-Costs quotes legs rest behind,
          )
    ]
  ]
]
  where
    contra : none ≡ some cost → ⊥
    contra e = cc

    faced :
        (q : ℤ) (quote : Quote)
        → (if is_sold (record leg { quantity = q })
            then scale (abs q) quote.ask
            else neg (scale (abs q) quote.bid))
          ≡ undone_at q quote
    faced (pos n) quote = elim (Bool-cases (is_sold (record leg { quantity = pos n }))) [
      | inl sold ↦ absurd (nothing n (ground arith))
      | inr bought ↦ rw bought (ap (λ m. neg (scale m quote.bid)) (same_size n))
    ]
    faced (negsuc n) quote = elim (Bool-cases (is_sold (record leg { quantity = negsuc n }))) [
      | inl sold ↦ rw sold (ap (λ m. scale m quote.ask) (nothing_more (ℕ.suc n)))
      | inr bought ↦ absurd (nothing n (ground arith))
    ]

expired-NotAfter :
    (today : Date) (one : Structure) → expired today one ≡ false → NotAfter today one.key.expiration
unfolding expired
expired-NotAfter today one e =
    calendar today.year today.month today.day one.key.expiration.year one.key.expiration.month
      one.key.expiration.day e
  where
    calendar :
        (y m d y_end m_end d_end : ℕ)
        → (ltb y_end y || ((y_end == y) && (ltb m_end m || ((m_end == m) && ltb d_end d)))) ≡ false
        → (y < y_end) ⊎ ((y ≡ y_end) × ((m < m_end) ⊎ ((m ≡ m_end) × (d ≤ d_end))))
    calendar y m d y_end m_end d_end e = ground arith

quiet_since :
    (now : ℕ) (name : Text) (sent : List (Text × ℕ))
    → sent_lately now name sent ≡ false
    → (last_sent name sent ≡ none)
      ⊎ ((at : ℕ) × (last_sent name sent ≡ some at) × (at + standing ≤ now))
quiet_since now name sent quiet = elim (Option-cases (last_sent name sent)) [
  | inl never ↦ inl never
  | inr (at, last) ↦
      inr (at, last, long_ago at (sym (sent_lately-last_sent now name sent at last) ∙ quiet))
]
  where
    long_ago : (at : ℕ) → ltb (now - at) standing ≡ false → at + standing ≤ now
    long_ago at e = ground arith

free_legs :
    (busy : List Text) (legs : List Position)
    → any (λ leg. is_in (to_upper leg.symbol) busy) legs ≡ false
    → All (λ leg. is_in (to_upper leg.symbol) busy ≡ false) legs
free_legs busy [] e = tt
free_legs busy (leg ∷ legs) e =
    let (here, rest) = neither (is_in (to_upper leg.symbol) busy) _ e in
    (here, free_legs busy legs rest)
  where
    neither : (a b : Bool) → (a || b) ≡ false → (a ≡ false) × (b ≡ false)
    neither a b e = ground arith

regroup : (a b c d e : Text) → a ++ b ++ c ++ d ++ e ≡ a ++ (b ++ c ++ d ++ e)
regroup a b c d e =
    ap (λ t. t ++ e) (ap (λ t. t ++ d) (append_assoc a b c) ∙ append_assoc a (b ++ c) d)
    ∙ append_assoc a (b ++ c ++ d) e

-- The name of a closing order states its worst price.
reservation-closing_name :
    (worst : Frac) (name : Text) (now : ℕ)
    → reservation (closing_name worst name now) ≡ some (round_ratio worst.num worst.den)
unfolding closing_name
reservation-closing_name worst name now =
    let price = round_ratio worst.num worst.den in
    let after : Text = codes "tp-" ++ name ++ codes "-" ++ show (now / 1000000000) [] in
    let split : closing_name worst name now ≡ worst_prefix ++ show_price price ++ (b';' ∷ after) =
      regroup (worst_prefix ++ show_price price) (codes ";tp-") name (codes "-")
        (show (now / 1000000000) []) in
    let field : stated (worst_prefix ++ show_price price) ≡ some (some price) =
      stated_field_name (show_price price)
        (all-show_price (λ c. not (is_separator c)) (λ v small. ground arith) price refl refl)
      ∙ ap some (read_price-show_price price (round_ratio-IsCents worst.num worst.den)) in
    reservation-stated (closing_name worst name now)
    ∙ ap flatten (
        ap stated split
        ∙ stated-stamped (worst_prefix ++ show_price price) after
        ∙ ap (λ o. or_else o (stated after)) field)

module _ (broker : Broker) (recording : Bool) (now : ℕ) (today : Date) (Q : Effect → Type 0) where
  All-snoc : (es : List Effect) (e : Effect) → All Q es → Q e → All Q (es ++ e ∷ [])
  All-snoc [] e h q = (q, tt)
  All-snoc (x ∷ es) e h q = (h.0, All-snoc es e h.1 q)

  answered-All :
      (name : Text) (cost : Frac) (answer : Option Text) (s : State)
      → ((id : Text) → Q (placed_recorded id cost))
      → All Q s.effects
      → All Q (answered broker recording now today name cost answer s).effects
  answered-All name cost none s q h = h
  answered-All name cost (some id) s q h = elim (Bool-cases (recording && has_id id)) [
    | inl noted ↦ rw noted (All-snoc s.effects (placed_recorded id cost) h (q id))
    | inr silent ↦ rw silent h
  ]

  module _ (busy : List Text) (share : Frac) (one : Structure) (s : State)
      (rightful : (e : Effect) → Rightful broker now today busy share s one e → Q e)
      (whole_sets : one.sets ≡ sets_in one.legs) (some_sets : 0 < one.sets) (h : All Q s.effects)
      (credit : pos 0 <ℤ one.credit.num) (in_time : expired today one ≡ false)
      (quiet : sent_lately now (name_of one.key) s.sent ≡ false)
      (free : any (λ leg. is_in (to_upper leg.symbol) busy) one.legs ≡ false)
      (quotes : Text → Option Quote)
      (asked : broker.quotes (length s.effects) (map (λ leg. leg.symbol) one.legs)
        ≡ some quotes) where
    flattens :
        (legs : List Closing)
        → closing_of one.sets one.legs ≡ some legs
        → Flattens one.sets one.legs legs
    flattens legs e =
        let (order, made, flat) =
          closing_of-Flattens one.legs (subst (λ n. 0 < n) whole_sets some_sets) in
        let same : order ≡ legs =
          some-injective _ _ (sym made ∙ ap (λ n. closing_of n one.legs) (sym whole_sets) ∙ e) in
        subst (λ n. Flattens n one.legs legs) (sym whole_sets)
          (subst (Flattens (sets_in one.legs) one.legs) same flat)

    close-All :
        (cost : ℤ) (legs : Option (List Closing))
        → Costs quotes one.legs cost
        → pos 0 ≤ℤ cost
        → (scale (share.den * one.credit.den) cost
            ≤ℤ scale one.sets (scale (abs share.num) one.credit.num))
        → closing_of one.sets one.legs ≡ legs
        → All Q
            (close broker recording now today one share
              (record { num = cost; den = sets_in one.legs })
              legs
              s).effects
    close-All cost none costs some_cost within e = h
    close-All cost (some legs) costs some_cost within e =
        let paid : Frac = record { num = cost; den = sets_in one.legs } in
        answered-All (name_of one.key) paid _ _ (λ id. rightful (placed_recorded id paid) tt)
          (All-snoc s.effects _ h (
            rightful _ (
              quotes,
              credit,
              expired-NotAfter today one in_time,
              quiet_since now (name_of one.key) s.sent quiet,
              free_legs busy one.legs free,
              asked,
              costs,
              sym whole_sets,
              some_cost,
              within,
              whole_sets,
              flattens legs e,
              reservation-closing_name (share_of one.credit share) (name_of one.key) now,
            )))

    priced-All :
        (cost : Option ℤ)
        → cost_of quotes one.legs ≡ cost
        → All Q
            (priced broker recording now today one share
              (per_set (sets_in one.legs) cost)
              s).effects
    priced-All none e = h
    priced-All (some cost) e =
        let paid : Frac = record { num = cost; den = sets_in one.legs } in
        elim (Bool-cases
          (ltb_frac paid (whole (pos 0)) || ltb_frac (share_of one.credit share) paid)) [
            | inl stays ↦ rw stays h
            | inr closes ↦
                let (some_cost, within) =
                  neither (ltb_frac paid (whole (pos 0)))
                    (ltb_frac (share_of one.credit share) paid) closes in
                rw closes (
                  close-All cost (closing_of one.sets one.legs)
                    (cost_of-Costs quotes one.legs cost e)
                    (not_below (sets_in one.legs) cost some_cost)
                    (subst
                      (λ n.
                        scale (share.den * one.credit.den) cost
                        ≤ℤ scale n (scale (abs share.num) one.credit.num))
                      (sym whole_sets)
                      (not_over (scale (sets_in one.legs) (share_of one.credit share).num)
                        (scale (share_of one.credit share).den cost) within))
                    refl)
          ]
      where
        neither : (a b : Bool) → (a || b) ≡ false → (a ≡ false) × (b ≡ false)
        neither a b e = ground arith

        not_over : (a b : ℤ) → ltb_ℤ a b ≡ false → b ≤ℤ a
        not_over a b e = ground arith

        not_below : (n : ℕ) (a : ℤ) → ltb_ℤ (scale 1 a) (scale n (pos 0)) ≡ false → pos 0 ≤ℤ a
        not_below n a e =
            let low = not_over (scale 1 a) (scale n (pos 0)) e in omega (int_laws, low)

-- Whatever the broker answers, a structure whose sets, one or more, are those of its legs is considered
-- with no effect but rightful ones: what holds of the effects so far, and of every effect that is
-- Rightful, holds of the effects afterwards. A close that is Rightful is of a structure with a credit,
-- whose day is not over, which was not closed in the last ten minutes and has no leg in an order; at the
-- broker's quotes of its legs it costs nothing or more, and no more than the share of the credit; it
-- undoes the holding leg by leg; and its name states that share, rounded to the cent, as its worst
-- price.
pub consider-Rightful :
    (broker : Broker) (recording : Bool) (now : ℕ) (today : Date) (busy : List Text) (share : Frac)
    (one : Structure) (s : State) (Q : Effect → Type 0)
    → one.sets ≡ sets_in one.legs
    → 0 < one.sets
    → ((e : Effect) → Rightful broker now today busy share s one e → Q e)
    → All Q s.effects
    → All Q (consider broker recording now today busy share s one).effects
unfolding consider buy_back
consider-Rightful broker recording now today busy share one s Q whole_sets some_sets rightful h =
    by_tests (leb_ℤ one.credit.num (pos 0)) (expired today one)
      (sent_lately now (name_of one.key) s.sent)
      (any (λ leg. is_in (to_upper leg.symbol) busy) one.legs) _
      (λ a b c d. by_quotes (not_least one.credit.num a) b c d _ refl)
  where
    not_least : (a : ℤ) → leb_ℤ a (pos 0) ≡ false → pos 0 <ℤ a
    not_least a e = ground arith

    by_quotes :
        pos 0 <ℤ one.credit.num
        → expired today one ≡ false
        → sent_lately now (name_of one.key) s.sent ≡ false
        → any (λ leg. is_in (to_upper leg.symbol) busy) one.legs ≡ false
        → (quotes : Option (Text → Option Quote))
        → broker.quotes (length s.effects) (map (λ leg. leg.symbol) one.legs) ≡ quotes
        → All Q (quoted broker recording now today one share quotes s).effects
    by_quotes a b c d none e = h
    by_quotes a b c d (some quotes) e =
        priced-All broker recording now today Q busy share one s rightful whole_sets some_sets h a b
          c d quotes e (cost_of quotes one.legs) refl

    by_tests :
        (a b c d : Bool) (t : State)
        → (a ≡ false → b ≡ false → c ≡ false → d ≡ false → All Q t.effects)
        → All Q (if a || b || c || d then s else t).effects
    by_tests false false false false t go = go refl refl refl refl
    by_tests true b c d t go = h
    by_tests false true c d t go = h
    by_tests false false true d t go = h
    by_tests false false false true t go = h
