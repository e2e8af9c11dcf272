-- ===== src/Execution/Ages/Chain.antt =====
-- The chain of an order survives its replacements and the sweep: lifeOf, carried and
-- forgetWhatIsDone of golang/internal/execution/execution.go.
use swiftward_alpaca_options.Prelude.{
  ℕ, ◌+◌, ◌≤◌, ◌≡◌, ◌≢◌, refl, sym, ap, ◌∙◌, Bool, true, false, not, ◌&&◌, ◌⊎◌, inl, inr, Option,
  none, some, List, [], ◌∷◌, arith, ltb, if◌then◌else◌, any, Bool-cases,
}
use swiftward_alpaca_options.Prelude.Text.{Text, text_eq, text_eq→eq, text_eq_self}
use swiftward_alpaca_options.Market.Order.{Order}
use swiftward_alpaca_options.Execution.Ages.{
  Age, Ages, is_nothing, life_found, lookup, erase, insert, life_of, carried, working, drop_done,
  shown_working, sweep, forget_what_is_done,
}

lookup-erase :
    (j id : Text) (ages : Ages)
    → lookup j (erase id ages) ≡ (if text_eq id j then none else lookup j ages)
unfolding lookup erase
lookup-erase j id [] = elim (Bool-cases (text_eq id j)) [ inl e ↦ rw e | inr e ↦ rw e ]
lookup-erase j id ((key, age) ∷ ages) = elim (Bool-cases (text_eq key id)) [
  | inl same ↦
      let e = text_eq→eq key id same in rw (same, lookup-erase j id ages, e) (once (text_eq id j))
  | inr apart ↦ elim (Bool-cases (text_eq key j)) [
    | inl here ↦
        let e = text_eq→eq key j here in
        let other : text_eq id j ≡ false = not_same key id j here apart in rw (apart, here, other)
    | inr there ↦ rw (apart, there) (lookup-erase j id ages)
  ]
]
  where
    once :
        (b : Bool)
        → (if b then none else lookup j ages)
          ≡ (if b then none else (if b then some age else lookup j ages))
    once true = refl
    once false = refl

    not_same :
        (key id j : Text) → text_eq key j ≡ true → text_eq key id ≡ false → text_eq id j ≡ false
    not_same key id j here apart = elim (Bool-cases (text_eq id j)) [
      | inr e ↦ e
      | inl same ↦
          let e = text_eq→eq key j here ∙ sym (text_eq→eq id j same) in
          absurd (contra (sym (text_eq_self id) ∙ ap (λ k. text_eq k id) (sym e) ∙ apart))
    ]
      where
        contra : true ≡ false → ⊥
        contra e = cc

lookup-insert :
    (j id : Text) (age : Age) (ages : Ages)
    → lookup j (insert id age ages) ≡ (if text_eq id j then some age else lookup j ages)
unfolding insert lookup
lookup-insert j id age ages = elim (Bool-cases (text_eq id j)) [
  | inl same ↦ rw same
  | inr apart ↦ rw apart (lookup-erase j id ages ∙ rw apart)
]

life_known :
    (order : Order) (now : ℕ) (ages : Ages)
    → lookup order.id (life_of order now ages).1 ≡ some (life_of order now ages).0
unfolding life_of
life_known order now ages = by_lookup (lookup order.id ages) refl
  where
    by_lookup :
        (o : Option Age)
        → lookup order.id ages ≡ o
        → lookup order.id (life_found order now ages o).1 ≡ some (life_found order now ages o).0
    by_lookup (some age) e = e
    by_lookup none e = lookup-insert order.id order.id _ ages ∙ rw (text_eq_self order.id)

found :
    (order : Order) (now : ℕ) (ages : Ages) (age : Age)
    → lookup order.id ages ≡ some age
    → (life_of order now ages).0 ≡ age
unfolding life_of
found order now ages age e = rw e

some_name : (id : Text) → id ≢ [] → is_nothing id ≡ false
some_name [] h = absurd (h refl)
some_name (c ∷ s) h = refl

-- When an order is replaced by one that the broker names, the replacement is as old as the order that the session
-- placed: its age counts from the same moment, whatever submission time the broker shows for it, and it
-- is known to have moved on this pass.
pub life_of-carried :
    (order next : Order) (now later passes : ℕ) (ages : Ages)
    → next.id ≢ []
    → let (age, known) = life_of order now ages in
      (life_of next later (carried passes order.id next.id known)).0
      ≡ record { placed = age.placed; moved_on = passes }
unfolding carried
life_of-carried order next now later passes ages named =
    let (age, known) = life_of order now ages in
    let moved : Age = record { placed = age.placed; moved_on = passes } in
    rw (some_name next.id named, life_known order now ages)
      (found next later (insert next.id moved (erase order.id known)) moved
        (lookup-insert next.id next.id moved (erase order.id known) ∙ rw (text_eq_self next.id)))

-- A shown order that is done takes its chain with it.
unfoldable pub done_shown : List Order → Text → Bool
done_shown orders id = any (λ one. not (working one) && text_eq one.id id) orders

lookup-drop_done :
    (id : Text) (orders : List Order) (ages : Ages)
    → done_shown orders id ≡ false
    → lookup id (drop_done orders ages) ≡ lookup id ages
unfolding drop_done done_shown
lookup-drop_done id [] ages h = refl
lookup-drop_done id (order ∷ orders) ages h = elim (Bool-cases (working order)) [
  | inl live ↦ rw live (lookup-drop_done id orders ages (ground arith))
  | inr done ↦
      let other : text_eq order.id id ≡ false = ground arith in
      rw done (
        lookup-drop_done id orders (erase order.id ages) (ground arith)
        ∙ (lookup-erase id order.id ages ∙ rw other))
]

lookup-sweep_shown :
    (id : Text) (orders : List Order) (now span : ℕ) (ages : Ages)
    → shown_working orders id ≡ true
    → lookup id (sweep orders now span ages) ≡ lookup id ages
unfolding sweep lookup
lookup-sweep_shown id orders now span [] h = refl
lookup-sweep_shown id orders now span ((key, age) ∷ ages) h =
    elim (Bool-cases (not (shown_working orders key) && ltb (age.placed + span) now)) [
      | inl swept ↦
          let other : text_eq key id ≡ false = hidden (Bool-cases (text_eq key id)) swept in
          rw (swept, other) (lookup-sweep_shown id orders now span ages h)
      | inr kept ↦ rw (kept, lookup-sweep_shown id orders now span ages h)
    ]
  where
    hidden :
        (text_eq key id ≡ true) ⊎ (text_eq key id ≡ false)
        → (not (shown_working orders key) && ltb (age.placed + span) now) ≡ true
        → text_eq key id ≡ false
    hidden (inr e) swept = e
    hidden (inl same) swept =
        let e = text_eq→eq key id same in
        let seen : shown_working orders key ≡ true = rw e h in absurd (contra (rw seen at swept))
      where
        contra : false ≡ true → ⊥
        contra e = cc

-- The chain of an order that the broker shows as working, and not as done too, is kept, however
-- old it is.
pub lookup-forget_shown :
    (id : Text) (orders : List Order) (now span : ℕ) (ages : Ages)
    → shown_working orders id ≡ true
    → done_shown orders id ≡ false
    → lookup id (forget_what_is_done orders now span ages) ≡ lookup id ages
unfolding forget_what_is_done
lookup-forget_shown id orders now span ages h d =
    lookup-sweep_shown id orders now span (drop_done orders ages) h
    ∙ lookup-drop_done id orders ages d

swept_young :
    (id : Text) (orders : List Order) (now span : ℕ) (ages : Ages) (age : Age)
    → shown_working orders id ≡ false
    → lookup id (sweep orders now span ages) ≡ some age
    → now ≤ age.placed + span
unfolding sweep lookup
swept_young id orders now span [] age h e = cc
swept_young id orders now span ((key, first) ∷ ages) age h e =
    elim (Bool-cases (not (shown_working orders key) && ltb (first.placed + span) now)) [
      | inl swept ↦ swept_young id orders now span ages age h (rw swept at e)
      | inr kept ↦ elim (Bool-cases (text_eq key id)) [
        | inl same ↦ young (text_eq→eq key id same) (some_eq (rw (kept, same) at e)) kept
        | inr apart ↦ swept_young id orders now span ages age h (rw (kept, apart) at e)
      ]
    ]
  where
    some_eq : some first ≡ some age → first ≡ age
    some_eq e = cc

    young :
        key ≡ id
        → first ≡ age
        → (not (shown_working orders key) && ltb (first.placed + span) now) ≡ false
        → now ≤ age.placed + span
    young same e kept =
        let hidden : shown_working orders key ≡ false = rw same h in
        let late : ltb (first.placed + span) now ≡ false = rw hidden at kept in
        rw e at (not_below late)
      where
        not_below : ltb (first.placed + span) now ≡ false → now ≤ first.placed + span
        not_below h = ground arith

-- A chain of which no order is shown as working is kept only while an order of that age could
-- still be working.
pub lookup-forget_hidden :
    (id : Text) (orders : List Order) (now span : ℕ) (ages : Ages) (age : Age)
    → shown_working orders id ≡ false
    → lookup id (forget_what_is_done orders now span ages) ≡ some age
    → now ≤ age.placed + span
unfolding forget_what_is_done
lookup-forget_hidden id orders now span ages age =
    swept_young id orders now span (drop_done orders ages) age
