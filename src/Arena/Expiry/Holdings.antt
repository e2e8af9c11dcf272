-- ===== src/Arena/Expiry/Holdings.antt =====
-- What the positions of a book are worth, and what settlement does to them: Settle and move of
-- testbed/proxy/expiry.go and book.go.
use swiftward_alpaca_options.Prelude.{
  ℕ, ◌+◌, ◌*◌, ◌≡◌, refl, ap, ◌∙◌, true, false, Option, none, some, List, [], ◌∷◌, inl, inr,
  Bool-cases, All, arith,
}
use swiftward_alpaca_options.Prelude.Int.{
  ℤ, pos, ◌+ℤ◌, scale, scale-add, eqb_ℤ, pos_part, neg_part, eq_of_parts, int_laws,
}
use swiftward_alpaca_options.Prelude.Text.{Text, text_eq, text_eq→eq}
use swiftward_alpaca_options.Market.Payoff.{intrinsic}
use swiftward_alpaca_options.Arena.Order.{Class, option, equity, Position}
use swiftward_alpaca_options.Arena.Contract.{Occ, parse_occ}
use swiftward_alpaca_options.Arena.Account.{opened, moved_position, keep, move_in, move}
use swiftward_alpaca_options.Arena.Book.{Book}
use swiftward_alpaca_options.Arena.Expiry.{find_position, delete, mark_held}
use mathlib.Core.Option.{some-injective}
use mathlib.Core.Path.{subst}

-- No other position has this symbol.
abbrev pub Apart : Text → List Position → Type 0
Apart symbol = All (λ p. text_eq p.symbol symbol ≡ false)

abbrev pub AreApart : List Position → Type 0
AreApart [] = Unit
AreApart (p ∷ ps) = Apart p.symbol ps × AreApart ps

-- What is held under a symbol is shares.
abbrev pub AreShares : Text → List Position → Type 0
AreShares symbol = All (λ p. text_eq p.symbol symbol ≡ true → p.class ≡ equity)

delete-Apart : (symbol : Text) (ps : List Position) → Apart symbol ps → delete symbol ps ≡ ps
unfolding delete
delete-Apart symbol [] h = refl
delete-Apart symbol (p ∷ ps) h = rw h.0 (ap (λ rest. p ∷ rest) (delete-Apart symbol ps h.1))

pub All-delete :
    (P : Position → Type 0) (symbol : Text) (ps : List Position)
    → All P ps
    → All P (delete symbol ps)
unfolding delete
All-delete P symbol [] h = tt
All-delete P symbol (p ∷ ps) h = elim (Bool-cases (text_eq p.symbol symbol)) [
  | inl gone ↦ rw gone (All-delete P symbol ps h.1)
  | inr stays ↦ rw stays (h.0, All-delete P symbol ps h.1)
]

pub find_position_symbol :
    (symbol : Text) (ps : List Position) (p : Position)
    → find_position symbol ps ≡ some p
    → p.symbol ≡ symbol
unfolding find_position
find_position_symbol symbol [] p e = cc
find_position_symbol symbol (q ∷ ps) p e = elim (Bool-cases (text_eq q.symbol symbol)) [
  | inl same ↦
      subst (λ x. x.symbol ≡ symbol) (some-injective q p (rw same at e))
        (text_eq→eq q.symbol symbol same)
  | inr other ↦ find_position_symbol symbol ps p (rw other at e)
]

module _ (under : Text → ℕ) where
  -- What one of a position is worth, at the prices of the underlyings.
  unfoldable pub unit_worth : Class → Option Occ → Text → ℕ
  unit_worth equity o symbol = under symbol
  unit_worth option none symbol = 0
  unit_worth option (some c) symbol = 100 * intrinsic c.kind c.strike (under c.root)

  abbrev pub worth : Position → ℤ
  worth p = scale (unit_worth p.class (parse_occ p.symbol) p.symbol) p.quantity

  unfoldable pub holdings : List Position → ℤ
  holdings [] = pos 0
  holdings (p ∷ ps) = worth p +ℤ holdings ps

  -- The cash, the contracts and the shares.
  abbrev pub wealth : Book → ℤ
  wealth book = book.cash +ℤ holdings book.positions

  exchange : (a b c : ℤ) → a +ℤ (b +ℤ c) ≡ b +ℤ (a +ℤ c)
  exchange a b c = omega int_laws

  assoc : (a b c : ℤ) → a +ℤ b +ℤ c ≡ a +ℤ (b +ℤ c)
  assoc a b c = omega int_laws

  pub holdings-delete :
      (symbol : Text) (ps : List Position) (p : Position)
      → find_position symbol ps ≡ some p
      → AreApart ps
      → holdings ps ≡ worth p +ℤ holdings (delete symbol ps)
  unfolding find_position holdings delete
  holdings-delete symbol [] p e h = cc
  holdings-delete symbol (q ∷ ps) p e h = elim (Bool-cases (text_eq q.symbol symbol)) [
    | inl same ↦
        rw
          (
            same,
            delete-Apart symbol ps (subst (λ s. Apart s ps) (text_eq→eq q.symbol symbol same) h.0),
          )
          (ap (λ x. worth x +ℤ holdings ps) (some-injective q p (rw same at e)))
    | inr other ↦ rw other (
        ap (λ v. worth q +ℤ v) (holdings-delete symbol ps p (rw other at e) h.1)
        ∙ exchange (worth q) (worth p) (holdings (delete symbol ps)))
  ]

  holdings-keep :
      (p : Position) (ps : List Position) → holdings (keep p ps) ≡ worth p +ℤ holdings ps
  unfolding holdings
  holdings-keep p ps = elim (Bool-cases (eqb_ℤ p.quantity (pos 0))) [
    | inl empty ↦
        let zero : p.quantity ≡ pos 0 = eq_of_parts p.quantity (pos 0) (level p.quantity empty) in
        rw (empty, zero) (omega int_laws)
    | inr held ↦ rw held refl
  ]
    where
      level : (a : ℤ) → eqb_ℤ a (pos 0) ≡ true → pos_part a + 0 ≡ 0 + neg_part a
      level a e = ground arith

  holdings-move_in :
      (symbol : Text) (moved price : ℤ) (ps : List Position)
      → AreShares symbol ps
      → holdings (move_in symbol equity moved price ps) ≡ scale (under symbol) moved +ℤ holdings ps
  unfolding holdings move_in unit_worth
  holdings-move_in symbol moved price [] h =
      holdings-keep (moved_position (opened symbol equity) moved price) []
      ∙ ap (λ q. scale (under symbol) q +ℤ pos 0) (nothing moved)
    where
      nothing : (a : ℤ) → pos 0 +ℤ a ≡ a
      nothing a = omega int_laws
  holdings-move_in symbol moved price (p ∷ ps) h = elim (Bool-cases (text_eq p.symbol symbol)) [
    | inl same ↦
        let class : p.class ≡ equity = h.0 same in
        let name : p.symbol ≡ symbol = text_eq→eq p.symbol symbol same in
        let unit : unit_worth p.class (parse_occ p.symbol) p.symbol ≡ under symbol =
          (λ i. unit_worth (class i) (parse_occ p.symbol) (name i)) in
        rw same (
          holdings-keep (moved_position p moved price) ps
          ∙ ap (λ v. v +ℤ holdings ps)
              (scale-add (unit_worth p.class (parse_occ p.symbol) p.symbol) p.quantity moved
                ∙ comm _ _
                ∙ ap (λ n. scale n moved +ℤ worth p) unit)
          ∙ assoc _ _ _)
    | inr other ↦ rw other (
        ap (λ v. worth p +ℤ v) (holdings-move_in symbol moved price ps h.1)
        ∙ exchange (worth p) _ _)
  ]
    where
      comm : (a b : ℤ) → a +ℤ b ≡ b +ℤ a
      comm a b = omega int_laws

  pub holdings-move :
      (symbol : Text) (moved price : ℤ) (ps : List Position)
      → AreShares symbol ps
      → holdings (move symbol equity moved price ps) ≡ scale (under symbol) moved +ℤ holdings ps
  unfolding move
  holdings-move symbol moved price ps h = elim (Bool-cases (eqb_ℤ moved (pos 0))) [
    | inl empty ↦
        let zero : moved ≡ pos 0 = eq_of_parts moved (pos 0) (level moved empty) in
        rw (empty, zero) (omega int_laws)
    | inr held ↦ rw held (holdings-move_in symbol moved price ps h)
  ]
    where
      level : (a : ℤ) → eqb_ℤ a (pos 0) ≡ true → pos_part a + 0 ≡ 0 + neg_part a
      level a e = ground arith

  pub holdings-mark_held :
      (symbol : Text) (mark : ℤ) (ps : List Position)
      → holdings (mark_held symbol mark ps) ≡ holdings ps
  unfolding holdings mark_held
  holdings-mark_held symbol mark [] = refl
  holdings-mark_held symbol mark (p ∷ ps) = elim (Bool-cases (text_eq p.symbol symbol)) [
    | inl same ↦ rw same refl
    | inr other ↦ rw other (ap (λ v. worth p +ℤ v) (holdings-mark_held symbol mark ps))
  ]
