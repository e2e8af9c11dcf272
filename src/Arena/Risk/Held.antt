-- ===== src/Arena/Risk/Held.antt =====
-- What orders do to the value of a book: apply and project of testbed/proxy/book.go.
use swiftward_alpaca_options.Prelude.{
  ℕ, ◌+◌, ◌*◌, ◌≡◌, refl, sym, ap, ◌∙◌, true, Option, none, some, List, [], ◌∷◌, inl, inr,
  Bool-cases, All, arith,
}
use swiftward_alpaca_options.Prelude.Int.{
  ℤ, pos, ◌+ℤ◌, scale, scale-add, eqb_ℤ, int_laws, eq_of_parts, pos_part, neg_part,
}
use swiftward_alpaca_options.Prelude.Text.{Text, text_eq, text_eq→eq}
use swiftward_alpaca_options.Market.Payoff.{intrinsic}
use swiftward_alpaca_options.Arena.Order.{Leg, Position, Class, option, equity, signed}
use swiftward_alpaca_options.Arena.Contract.{Occ, parse_occ}
use swiftward_alpaca_options.Arena.Account.{
  opened, moved_position, keep, move_in, move, apply, hold, hold_all, held_only, project,
}
use swiftward_alpaca_options.Arena.Risk.{Key, key_of}
use swiftward_alpaca_options.Arena.Risk.Groups.{value_if, value}

-- A book of options and nothing else.
abbrev pub AreOptions : List Position → Type 0
AreOptions = All (λ p. p.class ≡ option)

keep-AreOptions :
    (p : Position) (ps : List Position) → p.class ≡ option → AreOptions ps → AreOptions (keep p ps)
keep-AreOptions p ps e h = elim (Bool-cases (eqb_ℤ p.quantity (pos 0))) [
  | inl empty ↦ rw empty h
  | inr held ↦ rw held (e, h)
]

move_in-AreOptions :
    (symbol : Text) (moved price : ℤ) (ps : List Position)
    → AreOptions ps
    → AreOptions (move_in symbol option moved price ps)
unfolding move_in
move_in-AreOptions symbol moved price [] h =
    keep-AreOptions (moved_position (opened symbol option) moved price) [] refl tt
move_in-AreOptions symbol moved price (p ∷ ps) h = elim (Bool-cases (text_eq p.symbol symbol)) [
  | inl same ↦ rw same (keep-AreOptions (moved_position p moved price) ps h.0 h.1)
  | inr other ↦ rw other (h.0, move_in-AreOptions symbol moved price ps h.1)
]

move-AreOptions :
    (symbol : Text) (moved price : ℤ) (ps : List Position)
    → AreOptions ps
    → AreOptions (move symbol option moved price ps)
unfolding move
move-AreOptions symbol moved price ps h = elim (Bool-cases (eqb_ℤ moved (pos 0))) [
  | inl nothing ↦ rw nothing h
  | inr something ↦ rw something (move_in-AreOptions symbol moved price ps h)
]

pub apply-AreOptions :
    (legs : List Leg) (sets : ℕ) (leg_price : Text → ℤ) (ps : List Position)
    → AreOptions ps
    → AreOptions (apply legs sets leg_price ps)
unfolding apply
apply-AreOptions [] sets leg_price ps h = h
apply-AreOptions (leg ∷ legs) sets leg_price ps h =
    apply-AreOptions legs sets leg_price _
      (move-AreOptions leg.symbol (signed leg sets) (leg_price leg.symbol) ps h)

pub hold-AreOptions :
    (leg : Leg) (sets : ℕ) (ps : List Position) → AreOptions ps → AreOptions (hold leg sets ps)
unfolding hold
hold-AreOptions leg sets [] h = (refl, tt)
hold-AreOptions leg sets (p ∷ ps) h = elim (Bool-cases (text_eq p.symbol leg.symbol)) [
  | inl same ↦ rw same (refl, h.1)
  | inr other ↦ rw other (h.0, hold-AreOptions leg sets ps h.1)
]

pub hold_all-AreOptions :
    (legs : List Leg) (sets : ℕ) (ps : List Position)
    → AreOptions ps
    → AreOptions (hold_all legs sets ps)
unfolding hold_all
hold_all-AreOptions [] sets ps h = h
hold_all-AreOptions (leg ∷ legs) sets ps h =
    hold_all-AreOptions legs sets (hold leg sets ps) (hold-AreOptions leg sets ps h)

pub held_only-AreOptions : (ps : List Position) → AreOptions ps → AreOptions (held_only ps)
unfolding held_only
held_only-AreOptions [] h = tt
held_only-AreOptions (p ∷ ps) h = keep-AreOptions p (held_only ps) h.0 (held_only-AreOptions ps h.1)

module _ (prices : Key → ℕ) where
  -- So many contracts, at the prices.
  abbrev pub contract_value : Option Occ → ℤ → ℤ
  contract_value none q = pos 0
  contract_value (some c) q = scale (100 * intrinsic c.kind c.strike (prices (key_of c))) q

  contract_value-add :
      (o : Option Occ) (a b : ℤ)
      → contract_value o (a +ℤ b) ≡ contract_value o a +ℤ contract_value o b
  contract_value-add none a b = omega int_laws
  contract_value-add (some c) a b = scale-add _ a b

  contract_value_zero :
      (o : Option Occ) (a : ℤ) → eqb_ℤ a (pos 0) ≡ true → contract_value o a ≡ pos 0
  contract_value_zero none a e = refl
  contract_value_zero (some c) a e =
      let zero : a ≡ pos 0 = eq_of_parts a (pos 0) (level a e) in rw zero (omega int_laws)
    where
      level : (a : ℤ) → eqb_ℤ a (pos 0) ≡ true → pos_part a + 0 ≡ 0 + neg_part a
      level a e = ground arith

  value_option :
      (p : Position) (class : Class) (o : Option Occ)
      → class ≡ option
      → value_if prices p class o ≡ contract_value o p.quantity
  value_option p option none e = refl
  value_option p option (some c) e = refl
  value_option p equity o e = cc

  value-keep :
      (p : Position) (ps : List Position)
      → p.class ≡ option
      → value prices (keep p ps) ≡ contract_value (parse_occ p.symbol) p.quantity +ℤ value prices ps
  unfolding value
  value-keep p ps e = elim (Bool-cases (eqb_ℤ p.quantity (pos 0))) [
    | inl empty ↦
        rw (empty, contract_value_zero (parse_occ p.symbol) p.quantity empty) (omega int_laws)
    | inr held ↦
        rw held (ap (λ v. v +ℤ value prices ps) (value_option p p.class (parse_occ p.symbol) e))
  ]

  swap : (a b c : ℤ) → a +ℤ b +ℤ c ≡ a +ℤ c +ℤ b
  swap a b c = omega int_laws

  value-move_in :
      (symbol : Text) (moved price : ℤ) (ps : List Position)
      → AreOptions ps
      → value prices (move_in symbol option moved price ps)
        ≡ contract_value (parse_occ symbol) moved +ℤ value prices ps
  unfolding move_in value
  value-move_in symbol moved price [] h =
      value-keep (moved_position (opened symbol option) moved price) [] refl
      ∙ ap (λ q. contract_value (parse_occ symbol) q +ℤ pos 0) (nothing moved)
    where
      nothing : (a : ℤ) → pos 0 +ℤ a ≡ a
      nothing a = omega int_laws
  value-move_in symbol moved price (p ∷ ps) h = elim (Bool-cases (text_eq p.symbol symbol)) [
    | inl same ↦ rw same (
        value-keep (moved_position p moved price) ps h.0
        ∙ ap (λ v. v +ℤ value prices ps) (contract_value-add (parse_occ p.symbol) p.quantity moved)
        ∙ ap (λ v. v +ℤ value prices ps)
            (comm _ _ ∙ (λ i.
              contract_value (parse_occ (text_eq→eq p.symbol symbol same i)) moved
              +ℤ sym (value_option p p.class (parse_occ p.symbol) h.0) i))
        ∙ assoc _ _ _)
    | inr other ↦ rw other (
        ap (λ v. value_if prices p p.class (parse_occ p.symbol) +ℤ v)
          (value-move_in symbol moved price ps h.1)
        ∙ exchange _ _ _)
  ]
    where
      comm : (a b : ℤ) → a +ℤ b ≡ b +ℤ a
      comm a b = omega int_laws

      assoc : (a b c : ℤ) → a +ℤ b +ℤ c ≡ a +ℤ (b +ℤ c)
      assoc a b c = omega int_laws

      exchange : (a b c : ℤ) → a +ℤ (b +ℤ c) ≡ b +ℤ (a +ℤ c)
      exchange a b c = omega int_laws

  value-move :
      (symbol : Text) (moved price : ℤ) (ps : List Position)
      → AreOptions ps
      → value prices (move symbol option moved price ps)
        ≡ contract_value (parse_occ symbol) moved +ℤ value prices ps
  unfolding move
  value-move symbol moved price ps h = elim (Bool-cases (eqb_ℤ moved (pos 0))) [
    | inl empty ↦
        rw (empty, contract_value_zero (parse_occ symbol) moved empty)
          (sym (nothing (value prices ps)))
    | inr held ↦ rw held (value-move_in symbol moved price ps h)
  ]
    where
      nothing : (a : ℤ) → pos 0 +ℤ a ≡ a
      nothing a = omega int_laws

  pub value-hold :
      (leg : Leg) (sets : ℕ) (ps : List Position)
      → AreOptions ps
      → value prices (hold leg sets ps)
        ≡ contract_value (parse_occ leg.symbol) (signed leg sets) +ℤ value prices ps
  unfolding hold value
  value-hold leg sets [] h =
      ap (λ v. v +ℤ pos 0)
        (value_option (record (opened leg.symbol option) { quantity = signed leg sets }) option
          (parse_occ leg.symbol) refl)
  value-hold leg sets (p ∷ ps) h = elim (Bool-cases (text_eq p.symbol leg.symbol)) [
    | inl same ↦ rw same (
        ap (λ v. v +ℤ value prices ps)
          (value_option
              (record p {
                symbol = leg.symbol;
                class = option;
                quantity = p.quantity +ℤ signed leg sets;
              })
              option (parse_occ leg.symbol) refl
            ∙ contract_value-add (parse_occ leg.symbol) p.quantity (signed leg sets)
            ∙ comm _ _
            ∙ (λ i.
                contract_value (parse_occ leg.symbol) (signed leg sets)
                +ℤ contract_value (parse_occ (sym (text_eq→eq p.symbol leg.symbol same) i))
                    p.quantity)
            ∙ ap (λ v. contract_value (parse_occ leg.symbol) (signed leg sets) +ℤ v)
                (sym (value_option p p.class (parse_occ p.symbol) h.0)))
        ∙ assoc _ _ _)
    | inr other ↦ rw other (
        ap (λ v. value_if prices p p.class (parse_occ p.symbol) +ℤ v) (value-hold leg sets ps h.1)
        ∙ exchange _ _ _)
  ]
    where
      comm : (a b : ℤ) → a +ℤ b ≡ b +ℤ a
      comm a b = omega int_laws

      assoc : (a b c : ℤ) → a +ℤ b +ℤ c ≡ a +ℤ (b +ℤ c)
      assoc a b c = omega int_laws

      exchange : (a b c : ℤ) → a +ℤ (b +ℤ c) ≡ b +ℤ (a +ℤ c)
      exchange a b c = omega int_laws

  value-apply-hold_all :
      (legs : List Leg) (sets : ℕ) (leg_price : Text → ℤ) (ps qs : List Position)
      → AreOptions ps
      → AreOptions qs
      → value prices ps ≡ value prices qs
      → value prices (apply legs sets leg_price ps) ≡ value prices (hold_all legs sets qs)
  unfolding apply hold_all
  value-apply-hold_all [] sets leg_price ps qs h k e = e
  value-apply-hold_all (leg ∷ legs) sets leg_price ps qs h k e =
      value-apply-hold_all legs sets leg_price _ _
        (move-AreOptions leg.symbol (signed leg sets) (leg_price leg.symbol) ps h)
        (hold-AreOptions leg sets qs k)
        (value-move leg.symbol (signed leg sets) (leg_price leg.symbol) ps h
          ∙ ap (λ v. contract_value (parse_occ leg.symbol) (signed leg sets) +ℤ v) e
          ∙ sym (value-hold leg sets qs k))

  pub value-held_only :
      (ps : List Position) → AreOptions ps → value prices (held_only ps) ≡ value prices ps
  unfolding held_only value
  value-held_only [] h = refl
  value-held_only (p ∷ ps) h =
      value-keep p (held_only ps) h.0
      ∙ (λ i. sym (value_option p p.class (parse_occ p.symbol) h.0) i +ℤ value-held_only ps h.1 i)

  -- Where a book holds options only, the positions that a fill is judged by and the positions that it
  -- leaves are worth the same, at any prices of the underlyings.
  pub value-apply-project :
      (ps : List Position) (legs : List Leg) (sets : ℕ) (leg_price : Text → ℤ)
      → AreOptions ps
      → value prices (apply legs sets leg_price ps) ≡ value prices (project ps legs sets)
  unfolding project
  value-apply-project ps legs sets leg_price h =
      value-apply-hold_all legs sets leg_price ps ps h h refl
      ∙ sym (value-held_only (hold_all legs sets ps) (hold_all-AreOptions legs sets ps h))

pub project-AreOptions :
    (ps : List Position) (legs : List Leg) (sets : ℕ)
    → AreOptions ps
    → AreOptions (project ps legs sets)
unfolding project
project-AreOptions ps legs sets h =
    held_only-AreOptions (hold_all legs sets ps) (hold_all-AreOptions legs sets ps h)
