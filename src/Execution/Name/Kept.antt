-- ===== src/Execution/Name/Kept.antt =====
-- What else a replacement's name keeps, and its length: NameCarrying of
-- golang/internal/execution/reservation.go.
use swiftward_alpaca_options.Prelude.{
  ℕ, ◌+◌, ◌≤◌, ◌≡◌, refl, ap, ◌∙◌, Bool, true, false, not, ◌&&◌, inl, inr, ◌⊎◌, leb, if◌then◌else◌,
  Option, none, some, List, [], ◌∷◌, ◌++◌, arith, all, Bool-cases, length, length-append,
}
use swiftward_alpaca_options.Prelude.Int.{ℤ}
use swiftward_alpaca_options.Prelude.Text.{Text, trim_space}
use swiftward_alpaca_options.Execution.Name.{
  name_for, split_by, is_semicolon, join, reservation, is_int64, drop_stamp, show, stamped, fits,
  floor_alone, is_empty, name_limit, name_carrying,
}
use swiftward_alpaca_options.Execution.Name.Digits.{all-show}
use swiftward_alpaca_options.Execution.Name.Fields.{split_by-append, split_by_one, split_by_plain}

abbrev plain : Text → Bool
plain = all (λ c. not (is_semicolon c))

split_by-join :
    (field : Text) (fields : List Text)
    → all plain (field ∷ fields) ≡ true
    → split_by is_semicolon (join (field ∷ fields)) ≡ field ∷ fields
unfolding join
split_by-join field [] h = split_by_one is_semicolon field (ground arith)
split_by-join field (next ∷ fields) h =
    let (first, rest) = and_parts (plain field) (all plain (next ∷ fields)) h in
    split_by-append is_semicolon field b';' (join (next ∷ fields)) refl
    ∙ ap (λ fs. fs ++ split_by is_semicolon (join (next ∷ fields)))
        (split_by_one is_semicolon field first)
    ∙ ap (λ fs. field ∷ fs) (split_by-join next fields rest)
  where
    and_parts : (a b : Bool) → (a && b) ≡ true → (a ≡ true) × (b ≡ true)
    and_parts a b e = ground arith

drop_stamp-plain :
    (fields : List Text) → all plain fields ≡ true → all plain (drop_stamp fields) ≡ true
unfolding drop_stamp
drop_stamp-plain [] h = refl
drop_stamp-plain (field ∷ []) h = elim (Bool-cases (is_int64 (trim_space field))) [
  | inl stamp ↦ rw stamp
  | inr kept ↦ rw kept h
]
drop_stamp-plain (field ∷ next ∷ fields) h = ground (arith, drop_stamp-plain (next ∷ fields))

split_by-join-drop_stamp :
    (fields : List Text)
    → all plain fields ≡ true
    → is_empty (join fields) ≡ false
    → split_by is_semicolon (join fields) ≡ fields
unfolding join
split_by-join-drop_stamp [] h e = cc
split_by-join-drop_stamp (field ∷ fields) h e = split_by-join field fields h

-- What stands in a replacement's name that carries the old one whole.
pub split_by-name_carrying :
    (name : Text) (at : ℕ)
    → let kept = join (drop_stamp (split_by is_semicolon name)) in
      is_empty kept ≡ false
      → fits kept (show at []) ≡ true
      → split_by is_semicolon (name_carrying name at)
        ≡ drop_stamp (split_by is_semicolon name) ++ show at [] ∷ []
unfolding name_carrying
split_by-name_carrying name at some_kept room =
    let fields = drop_stamp (split_by is_semicolon name) in
    let fresh_plain = all-show (λ c. not (is_semicolon c)) (λ v small. ground arith) at [] refl in
    rw (some_kept, room)
      (split_by-append is_semicolon (join fields) b';' (show at []) refl
        ∙ ap (λ fs. fs ++ split_by is_semicolon (show at []))
            (split_by-join-drop_stamp fields
              (drop_stamp-plain (split_by is_semicolon name) (split_by_plain is_semicolon name))
              some_kept)
        ∙ ap (λ fs. fields ++ fs) (split_by_one is_semicolon (show at []) fresh_plain))

-- What the session wrote of a name: all its fields, or all but a stamp at the end.
abbrev pub IsKept : List Text → List Text → Type 0
IsKept fields kept =
    ((front : List Text) × (field : Text) × (fields ≡ front ++ field ∷ [])
      × (is_int64 (trim_space field) ≡ false)
      × (kept ≡ fields))
    ⊎ ((stamp : Text) × (fields ≡ kept ++ stamp ∷ []) × (is_int64 (trim_space stamp) ≡ true))

drop_stamp_last :
    (front : List Text) (field : Text)
    → drop_stamp (front ++ field ∷ [])
      ≡ (if is_int64 (trim_space field) then front else front ++ field ∷ [])
unfolding drop_stamp
drop_stamp_last [] field = refl
drop_stamp_last (one ∷ []) field = elim (Bool-cases (is_int64 (trim_space field))) [
  | inl stamp ↦ rw stamp refl
  | inr plain ↦ rw plain refl
]
drop_stamp_last (one ∷ next ∷ front) field =
    ap (λ fields. one ∷ fields) (drop_stamp_last (next ∷ front) field)
    ∙ elim (Bool-cases (is_int64 (trim_space field))) [
      | inl stamp ↦ rw stamp refl
      | inr plain ↦ rw plain refl
    ]

drop_stamp-IsKept : (fields kept : List Text) → IsKept fields kept → drop_stamp fields ≡ kept
drop_stamp-IsKept fields kept (inl (front, field, e, plain, same)) =
    rw (same, e) (drop_stamp_last front field ∙ rw plain refl)
drop_stamp-IsKept fields kept (inr (stamp, e, is_stamp)) =
    rw e (drop_stamp_last kept stamp ∙ rw is_stamp refl)

-- Where what the session wrote of a name fits, with a time behind it, every field of it stands in the
-- replacement's name as it stood, in its place, and the one thing added is the new stamp. What the
-- session wrote is the whole name, or all of it but a number at the end, which is an old stamp.
pub name_carrying-IsKept :
    (name : Text) (at : ℕ) (kept : List Text)
    → IsKept (split_by is_semicolon name) kept
    → is_empty (join kept) ≡ false
    → length (join kept) + 1 + length (show at []) ≤ name_limit
    → split_by is_semicolon (name_carrying name at) ≡ kept ++ show at [] ∷ []
name_carrying-IsKept name at kept h some_kept room =
    let same = drop_stamp-IsKept (split_by is_semicolon name) kept h in
    split_by-name_carrying name at (rw same some_kept)
      (rw same (within (length (join kept)) (length (show at [])) room))
    ∙ ap (λ fields. fields ++ show at [] ∷ []) same
  where
    within : (m n : ℕ) → m + 1 + n ≤ name_limit → leb (m + 1 + n) name_limit ≡ true
    within m n room = ground arith

length-stamped :
    (name fresh : Text) → fits name fresh ≡ true → length (stamped name fresh) ≤ name_limit
length-stamped name fresh room =
    let e = length-append name (b';' ∷ fresh) in
    let h : length name + 1 + length fresh ≤ 128 = ground arith in omega (arith, e, h)

-- No name is longer than the broker accepts, as long as a time alone is not.
pub length-name_carrying :
    (name : Text) (at : ℕ)
    → length (show at []) ≤ name_limit
    → length (name_carrying name at) ≤ name_limit
unfolding name_carrying
length-name_carrying name at short =
    let kept = join (drop_stamp (split_by is_semicolon name)) in
    elim (Bool-cases (not (is_empty kept) && fits kept (show at []))) [
      | inl whole ↦ rw whole (
          length-stamped kept (show at [])
            (second (not (is_empty kept)) (fits kept (show at [])) whole))
      | inr long ↦ rw long (alone (reservation name))
    ]
  where
    second : (a b : Bool) → (a && b) ≡ true → b ≡ true
    second a b e = ground arith

    alone : (o : Option ℤ) → length (floor_alone o (show at [])) ≤ name_limit
    alone none = short
    alone (some floor) = elim (Bool-cases (fits (name_for floor) (show at []))) [
      | inl room ↦ rw room (length-stamped (name_for floor) (show at []) room)
      | inr none_left ↦ rw none_left short
    ]
