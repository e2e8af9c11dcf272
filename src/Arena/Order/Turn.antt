-- ===== src/Arena/Order/Turn.antt =====
-- The turn of an order that is moved: turnOf of testbed/proxy/book.go and NameCarrying of
-- golang/internal/execution/reservation.go.
use swiftward_alpaca_options.Prelude.{
  ℕ, ◌≡◌, refl, ap, ◌∙◌, Bool, true, false, not, inl, inr, none, List, [], ◌∷◌, ◌++◌, arith, all,
  Bool-cases, ◌==◌,
}
use swiftward_alpaca_options.Prelude.Text.{Text, trim_space, all-trim_space}
use swiftward_alpaca_options.Execution.Name.{
  split_by, is_semicolon, join, is_int64, drop_stamp, show, fits, is_empty, name_carrying,
}
use swiftward_alpaca_options.Execution.Name.Digits.{all-show}
use swiftward_alpaca_options.Execution.Name.Fields.{all-is_int64}
use swiftward_alpaca_options.Execution.Name.Kept.{split_by-name_carrying}
use swiftward_alpaca_options.Arena.Order.{cut_equals, turn_field, turn_in, turn_of}

abbrev no_equals : ℕ → Bool
no_equals c = not (c == b'=')

cut_equals-none : (s : Text) → all no_equals s ≡ true → cut_equals s ≡ none
unfolding cut_equals
cut_equals-none [] h = refl
cut_equals-none (c ∷ s) h =
    let here : (c == b'=') ≡ false = ground arith in
    rw (here, cut_equals-none s (ground arith)) refl

-- A stamp carries no turn, wherever it stands.
turn_in-append :
    (fields : List Text) (s : Text)
    → all no_equals s ≡ true
    → turn_in (fields ++ s ∷ []) ≡ turn_in fields
unfolding turn_in
turn_in-append [] s h = rw (cut_equals-none s h) refl
turn_in-append (field ∷ fields) s h = ap (turn_field (cut_equals field)) (turn_in-append fields s h)

turn_in-drop_stamp : (fields : List Text) → turn_in (drop_stamp fields) ≡ turn_in fields
unfolding turn_in drop_stamp
turn_in-drop_stamp [] = refl
turn_in-drop_stamp (field ∷ []) = elim (Bool-cases (is_int64 (trim_space field))) [
  | inl stamp ↦
      rw
        (
          stamp,
          cut_equals-none field (
              all-trim_space no_equals (λ c space. ground arith) field
                (all-is_int64 no_equals (λ c digit. ground arith) refl refl (trim_space field)
                  stamp)),
        )
        refl
  | inr kept ↦ rw kept refl
]
turn_in-drop_stamp (field ∷ next ∷ fields) =
    ap (turn_field (cut_equals field)) (turn_in-drop_stamp (next ∷ fields))

-- Where the whole name fits, with the time after it, the order that takes another's place under the
-- name that the execution layer gives it belongs to the same turn for the order book.
pub turn_of-name_carrying :
    (name : Text) (at : ℕ)
    → let kept = join (drop_stamp (split_by is_semicolon name)) in
      is_empty kept ≡ false
      → fits kept (show at []) ≡ true
      → turn_of (name_carrying name at) ≡ turn_of name
unfolding turn_of
turn_of-name_carrying name at some_kept room =
    ap turn_in (split_by-name_carrying name at some_kept room)
    ∙ turn_in-append (drop_stamp (split_by is_semicolon name)) (show at [])
        (all-show no_equals (λ v small. ground arith) at [] refl)
    ∙ turn_in-drop_stamp (split_by is_semicolon name)
