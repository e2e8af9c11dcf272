-- ===== src/Execution/Name/Carried.antt =====
-- A replacement's name keeps the worst price that the session stated: NameFor and NameCarrying of
-- golang/internal/execution/reservation.go.
use swiftward_alpaca_options.Prelude.{
  ℕ, ◌≡◌, refl, sym, ap, ◌∙◌, true, not, ◌&&◌, ◌⊎◌, inl, inr, Option, none, some, List, [], ◌∷◌,
  arith, Bool-cases, Option-cases,
}
use swiftward_alpaca_options.Prelude.Int.{ℤ}
use swiftward_alpaca_options.Prelude.Text.{Text, trim_space}
use swiftward_alpaca_options.Execution.Price.{round}
use swiftward_alpaca_options.Execution.Price.Round.{round-IsCents, round_of_IsCents}
use swiftward_alpaca_options.Execution.Name.{
  name_for, show_price, split_by, is_semicolon, is_separator, join, flatten, reservation, is_int64,
  drop_stamp, show, stamped, fits, floor_alone, is_empty, name_carrying,
}
use swiftward_alpaca_options.Execution.Name.Digits.{read_price-show_price, all-show_price}
use swiftward_alpaca_options.Execution.Name.Fields.{
  or_else, stated, reservation-stated, stated-stamped, stated_stamp, stated-show, stated-none,
  split_by_some, stated_field_name, reservation-IsCents,
}

or_else-none : (o : Option (Option ℤ)) → or_else o none ≡ o
or_else-none none = refl
or_else-none (some v) = refl

stated-empty : stated [] ≡ none
stated-empty = stated-none [] refl

stated-join :
    (field : Text) (fields : List Text)
    → stated (join (field ∷ fields)) ≡ or_else (stated field) (stated (join fields))
unfolding join
stated-join field [] = sym (ap (or_else (stated field)) stated-empty ∙ or_else-none (stated field))
stated-join field (next ∷ fields) = stated-stamped field (join (next ∷ fields))

-- Dropping a stamp drops no stated price.
stated-drop_stamp : (fields : List Text) → stated (join (drop_stamp fields)) ≡ stated (join fields)
unfolding drop_stamp join
stated-drop_stamp [] = refl
stated-drop_stamp (field ∷ []) = elim (Bool-cases (is_int64 (trim_space field))) [
  | inl stamp ↦ rw stamp (stated-empty ∙ sym (stated_stamp field stamp))
  | inr kept ↦ rw kept
]
stated-drop_stamp (field ∷ next ∷ fields) =
    stated-join field (drop_stamp (next ∷ fields))
    ∙ ap (or_else (stated field)) (stated-drop_stamp (next ∷ fields))
    ∙ sym (stated-join field (next ∷ fields))

join-push :
    (c : ℕ) (field : Text) (fields : List Text)
    → join ((c ∷ field) ∷ fields) ≡ c ∷ join (field ∷ fields)
unfolding join
join-push c field [] = refl
join-push c field (next ∷ fields) = refl

join-split_by : (s : Text) → join (split_by is_semicolon s) ≡ s
unfolding split_by join
join-split_by [] = refl
join-split_by (c ∷ s) = elim (Bool-cases (is_semicolon c)) [
  | inl here ↦
      let (f, fs, e) = split_by_some is_semicolon s in
      let semicolon : c ≡ b';' = ground arith in
      rw (here, e) (rw semicolon (ap (λ t. b';' ∷ t) (ap join (sym e) ∙ join-split_by s)))
  | inr there ↦
      let (f, fs, e) = split_by_some is_semicolon s in
      rw (there, e) (join-push c f fs ∙ ap (λ t. c ∷ t) (ap join (sym e) ∙ join-split_by s))
]

kept_of : Text → Text
kept_of name = join (drop_stamp (split_by is_semicolon name))

stated-kept : (name : Text) → stated (kept_of name) ≡ stated name
unfolding kept_of
stated-kept name = stated-drop_stamp (split_by is_semicolon name) ∙ ap stated (join-split_by name)

stated-name_for : (price : ℤ) → stated (name_for price) ≡ some (some (round price))
unfolding name_for
stated-name_for price =
    stated_field_name (show_price (round price))
      (all-show_price (λ c. not (is_separator c)) (λ v small. ground arith) (round price) refl refl)
    ∙ ap some (read_price-show_price (round price) (round-IsCents price))

-- A name made for a price states that price, rounded.
pub reservation-name_for : (price : ℤ) → reservation (name_for price) ≡ some (round price)
reservation-name_for price =
    reservation-stated (name_for price) ∙ ap flatten (stated-name_for price)

stated-stamp : (name : Text) (at : ℕ) → stated (stamped name (show at [])) ≡ stated name
stated-stamp name at =
    stated-stamped name (show at [])
    ∙ ap (or_else (stated name)) (stated-show at)
    ∙ or_else-none (stated name)

-- What a replacement carries: the worst price stated in the old name is the one stated in the new
-- name, to the cent; nothing is stated in the new name that was not in the old. The one condition
-- is that a stated price, written out with the time, stays within the broker's limit on names.
pub reservation-name_carrying :
    (name : Text) (at : ℕ)
    → ((floor : ℤ) → reservation name ≡ some floor → fits (name_for floor) (show at []) ≡ true)
    → reservation (name_carrying name at) ≡ reservation name
unfolding name_carrying kept_of
reservation-name_carrying name at room =
    elim (Bool-cases (not (is_empty (kept_of name)) && fits (kept_of name) (show at []))) [
      | inl whole ↦ rw whole (
          reservation-stated (stamped (kept_of name) (show at []))
          ∙ ap flatten (stated-stamp (kept_of name) at ∙ stated-kept name)
          ∙ sym (reservation-stated name))
      | inr long ↦ rw long (alone (Option-cases (reservation name)))
    ]
  where
    alone :
        (reservation name ≡ none) ⊎ ((floor : ℤ) × (reservation name ≡ some floor))
        → reservation (floor_alone (reservation name) (show at [])) ≡ reservation name
    alone (inl unnamed) = rw unnamed (reservation-stated (show at []) ∙ ap flatten (stated-show at))
    alone (inr (floor, named)) =
        rw (named, room floor named)
          (reservation-stated (stamped (name_for floor) (show at []))
            ∙ ap flatten (stated-stamp (name_for floor) at)
            ∙ sym (reservation-stated (name_for floor))
            ∙ reservation-name_for floor
            ∙ ap some (round_of_IsCents floor (reservation-IsCents name floor named)))
