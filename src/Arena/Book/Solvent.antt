-- ===== src/Arena/Book/Solvent.antt =====
-- What the money held against a book is good for: Submit, Fill and Requirement of
-- testbed/proxy/book.go and risk.go.
use swiftward_alpaca_options.Prelude.{
  ℕ, ◌≡◌, refl, sym, ◌∙◌, Option, none, some, List, [], ◌∷◌, inl, inr, Bool-cases, All,
}
use swiftward_alpaca_options.Prelude.Int.{ℤ, pos, ◌+ℤ◌, ◌≤ℤ◌, ltb_ℤ}
use swiftward_alpaca_options.Prelude.Text.{Text, text_eq}
use swiftward_alpaca_options.Arena.Order.{Position, Class, option, equity, Order}
use swiftward_alpaca_options.Arena.Account.{project}
use swiftward_alpaca_options.Arena.Risk.{Key, requirement}
use swiftward_alpaca_options.Arena.Risk.Groups.{value_if, value}
use swiftward_alpaca_options.Arena.Risk.Held.{
  AreOptions, apply-AreOptions, project-AreOptions, value-apply-project,
}
use swiftward_alpaca_options.Arena.Book.{
  Book, Cover, covered, short, unknown, cover, cover_of, cash_after, reserved, nobody,
  submit_covered, submit, fill_covered, fill,
}
use swiftward_alpaca_options.Arena.Amend.{
  replacement, left_of, replace_covered, replace, note, mark_stand,
}
use swiftward_alpaca_options.Arena.Day.{marked, mark_all, set_marks, mark_close, expire_day}
use swiftward_alpaca_options.Arena.Book.Cases.{fill_cases, cancel_cases, replace_cases}
use swiftward_alpaca_options.Arena.Book.Calls.{
  Call, submits, fills, cancels, replaces, notes, stands, expires, marks, closes, settles, step,
  run,
}
use swiftward_alpaca_options.Arena.Contract.{Occ, parse_occ}
use swiftward_alpaca_options.Arena.Book.Covers.{covered_backs}
use mathlib.Core.Path.{subst}

-- Options only, and cash that pays for them at every settlement of the underlyings.
abbrev pub IsSolvent : Book → Type 0
IsSolvent book =
    AreOptions book.positions
    × ((prices : Key → ℕ) → pos 0 ≤ℤ book.cash +ℤ value prices book.positions)

-- A call that is not the settlement of a contract.
abbrev pub IsTrade : Call → Type 0
IsTrade (settles symbol under now) = ⊥
IsTrade call = Unit

submit-IsSolvent :
    (book : Book) (order : Order) (id : Text) → IsSolvent book → IsSolvent (submit book order id).0
unfolding submit
submit-IsSolvent book order id h = by_cover (cover_of (reserved book (some order) nobody))
  where
    by_cover : (c : Cover) → IsSolvent (submit_covered book order id c).0
    by_cover unknown = h
    by_cover short = h
    by_cover covered = h

fill-IsSolvent :
    (book : Book) (id : Text) (sets : ℕ) (price : ℤ) (leg_price : Text → ℤ) (now : ℕ)
    → IsSolvent book
    → IsSolvent (fill book id sets price leg_price now).0
fill-IsSolvent book id sets price leg_price now h =
    fill_cases IsSolvent book id h sets price leg_price now
      (λ order found live some_sets room c e. by_cover order c e)
  where
    by_cover :
        (order : Order) (c : Cover)
        → cover
            (cash_after book order sets price)
            (requirement (project book.positions order.legs sets))
          ≡ c
        → IsSolvent (fill_covered book order sets price leg_price now c).0
    by_cover order unknown e = h
    by_cover order short e = h
    by_cover order covered e = (
      apply-AreOptions order.legs sets leg_price book.positions h.0,
      λ prices.
          subst (λ v. pos 0 ≤ℤ cash_after book order sets price +ℤ v)
            (sym (value-apply-project prices book.positions order.legs sets leg_price h.0))
            (covered_backs (cash_after book order sets price)
              (project book.positions order.legs sets)
              (project-AreOptions book.positions order.legs sets h.0) e prices),
    )

replace-IsSolvent :
    (book : Book) (id : Text) (limit : ℤ) (client_id : Text) (quantity : ℕ) (fresh : Text) (now : ℕ)
    → IsSolvent book
    → IsSolvent (replace book id limit client_id quantity fresh now).0
replace-IsSolvent book id limit client_id quantity fresh now h =
    replace_cases IsSolvent book id h limit client_id quantity fresh now
      (λ old found live some_sets c _.
        by_cover old (replacement book old limit client_id (left_of old quantity) fresh now) c)
  where
    by_cover : (old next : Order) (c : Cover) → IsSolvent (replace_covered book old next now c).0
    by_cover old next unknown = h
    by_cover old next short = h
    by_cover old next covered = h

marked_class : (p : Position) (o : Option ℤ) → (marked p o).class ≡ p.class
marked_class p none = refl
marked_class p (some price) = elim (Bool-cases (ltb_ℤ (pos 0) price)) [
  | inl up ↦ rw up refl
  | inr down ↦ rw down refl
]

mark_all-AreOptions :
    (prices : Text → Option ℤ) (ps : List Position)
    → AreOptions ps
    → AreOptions (mark_all prices ps)
unfolding mark_all
mark_all-AreOptions prices [] h = tt
mark_all-AreOptions prices (p ∷ ps) h =
    (marked_class p (prices p.symbol) ∙ h.0, mark_all-AreOptions prices ps h.1)

value-mark_all :
    (at : Key → ℕ) (prices : Text → Option ℤ) (ps : List Position)
    → value at (mark_all prices ps) ≡ value at ps
unfolding value mark_all
value-mark_all at prices [] = refl
value-mark_all at prices (p ∷ ps) =
    (λ i. same_worth (prices p.symbol) i +ℤ value-mark_all at prices ps i)
  where
    by_class :
        (price : ℤ) (class : Class) (o : Option Occ)
        → value_if at (record p { mark = price }) class o ≡ value_if at p class o
    by_class price equity o = refl
    by_class price option none = refl
    by_class price option (some c) = refl

    same_worth :
        (o : Option ℤ)
        → value_if at (marked p o) (marked p o).class (parse_occ (marked p o).symbol)
          ≡ value_if at p p.class (parse_occ p.symbol)
    same_worth none = refl
    same_worth (some price) = elim (Bool-cases (ltb_ℤ (pos 0) price)) [
      | inl up ↦ rw up (by_class price p.class (parse_occ p.symbol))
      | inr down ↦ rw down refl
    ]

mark_close_holdings :
    (book : Book) (day : Text) (total : ℤ)
    → IsSolvent book
    → IsSolvent (mark_close book day total).0
unfolding mark_close
mark_close_holdings book day total h = elim (Bool-cases (text_eq book.closed_on day)) [
  | inl done ↦ rw done h
  | inr new ↦ rw new h
]

-- From a book that holds options only, and whose cash pays for them at every settlement of the
-- underlyings, each call but a settlement leads to such a book.
pub step-IsSolvent :
    (book : Book) (call : Call) → IsTrade call → IsSolvent book → IsSolvent (step book call)
unfolding step note mark_stand set_marks expire_day
step-IsSolvent book (submits order id) t h = submit-IsSolvent book order id h
step-IsSolvent book (fills id sets price leg_price now) t h =
    fill-IsSolvent book id sets price leg_price now h
step-IsSolvent book (cancels id now) t h =
    cancel_cases IsSolvent book id h now (λ order found live. h)
step-IsSolvent book (replaces id limit client_id quantity fresh now) t h =
    replace-IsSolvent book id limit client_id quantity fresh now h
step-IsSolvent book (notes id why) t h = h
step-IsSolvent book (stands id) t h = h
step-IsSolvent book (expires now) t h = h
step-IsSolvent book (marks prices) t h = (
  mark_all-AreOptions prices book.positions h.0,
  λ at.
      subst (λ v. pos 0 ≤ℤ book.cash +ℤ v) (sym (value-mark_all at prices book.positions)) (h.1 at),
)
step-IsSolvent book (closes day total) t h = mark_close_holdings book day total h
step-IsSolvent book (settles symbol under now) t h = absurd t

-- A book that starts with options only and cash that pays for them at every settlement, as a new
-- book with cash that is not negative does, still can pay after any calls that settle nothing:
-- orders submitted, filled, moved, cancelled or expired, and prices marked, in any order.
pub run-IsSolvent :
    (book : Book) (calls : List Call)
    → All IsTrade calls
    → IsSolvent book
    → IsSolvent (run book calls)
unfolding run
run-IsSolvent book [] t h = h
run-IsSolvent book (call ∷ calls) t h =
    run-IsSolvent (step book call) calls t.1 (step-IsSolvent book call t.0 h)
