-- ===== src/Arena/Expiry.antt =====
-- Settlement at expiry: Due and Settle of testbed/proxy/expiry.go. The hour of settlement, four in
-- the afternoon at the exchange, is asked of the clock: `settled_at` is the moment on a date.
pub mod Holdings
pub mod Conserved
use swiftward_alpaca_options.Prelude.{
  ℕ, ◌+◌, ◌*◌, Bool, true, false, not, ◌&&◌, ◌||◌, Option, none, some, List, [], ◌∷◌, ◌++◌, ltb,
  if◌then◌else◌, any, ◌⊎◌, inl, inr,
}
use swiftward_alpaca_options.Prelude.Int.{ℤ, pos, ◌+ℤ◌, neg, scale, ltb_ℤ, eqb_ℤ}
use swiftward_alpaca_options.Prelude.Text.{Text, codes, text_eq}
use swiftward_alpaca_options.Market.Symbol.{Kind, call, put, Date}
use swiftward_alpaca_options.Market.Payoff.{intrinsic}
use swiftward_alpaca_options.Execution.Price.{round_ℕ}
use swiftward_alpaca_options.Arena.Order.{
  Class, option, equity, Position, Reason, EventKind, Event, multiplier,
}
use swiftward_alpaca_options.Arena.Order.{Reason, EventKind}
use swiftward_alpaca_options.Arena.Contract.{Occ, parse_occ}
use swiftward_alpaca_options.Arena.Account.{move}
use swiftward_alpaca_options.Arena.Book.{Book, Refusal, no_position, no_contract}

-- The roots that settle in cash.
abbrev pub cash_settled : List Text
cash_settled =
    codes "SPX"
    ∷ codes "SPXW"
    ∷ codes "XSP"
    ∷ codes "NDX"
    ∷ codes "RUT"
    ∷ codes "VIX"
    ∷ codes "VIXW"
    ∷ []

unfoldable pub is_cash_settled : Text → Bool
is_cash_settled root = any (λ one. text_eq one root) cash_settled

unfoldable pub find_position : Text → List Position → Option Position
find_position symbol [] = none
find_position symbol (p ∷ ps) =
    let rest = find_position symbol ps in if text_eq p.symbol symbol then some p else rest

unfoldable pub delete : Text → List Position → List Position
delete symbol [] = []
delete symbol (p ∷ ps) =
    let rest = delete symbol ps in if text_eq p.symbol symbol then rest else p ∷ rest

-- Due
abbrev pub due_if :
    (Date → ℕ) → ℕ → Position → Class → Option Occ → List (Text × Occ) → List (Text × Occ)
due_if settled_at now p equity o rest = rest
due_if settled_at now p option none rest = rest
due_if settled_at now p option (some c) rest =
    if eqb_ℤ p.quantity (pos 0) || ltb now (settled_at c.expires)
    then rest
    else (p.symbol, c) ∷ rest

unfoldable pub due : (Date → ℕ) → ℕ → List Position → List (Text × Occ)
due settled_at now [] = []
due settled_at now (p ∷ ps) =
    due_if settled_at now p p.class (parse_occ p.symbol) (due settled_at now ps)

unfoldable pub mark_held : Text → ℤ → List Position → List Position
mark_held symbol mark [] = []
mark_held symbol mark (p ∷ ps) =
    let rest = mark_held symbol mark ps in
    if text_eq p.symbol symbol then record p { mark = mark } ∷ ps else p ∷ rest

-- What a share of a contract is worth, to the cent.
abbrev pub worth_of : Occ → ℕ → ℕ
worth_of c under = round_ℕ (intrinsic c.kind c.strike under) 1

-- The shares that an exercise brings, and the money.
abbrev pub shares_of : Kind → ℤ → ℤ
shares_of call quantity = scale multiplier quantity
shares_of put quantity = neg (scale multiplier quantity)

abbrev pub money_of : Kind → ℕ → ℤ → ℤ
money_of call strike quantity = neg (scale (strike * multiplier) quantity)
money_of put strike quantity = scale (strike * multiplier) quantity

abbrev pub settle_event : EventKind → Text → ℤ → ℕ → ℕ → Event
settle_event kind symbol quantity under now = record {
  order_id = [];
  kind = kind;
  symbol = symbol;
  at = now;
  sets = quantity;
  price = pos under;
  fees = 0;
  filled = false;
  why = Reason.no_reason;
}

abbrev pub with_event : Event → Book → Book × (Refusal ⊎ Event)
with_event e book = (record book { events = book.events ++ e ∷ [] }, inr e)

abbrev pub exercised : Book → Position → Occ → ℕ → Book
exercised book p c under = record book {
  cash = book.cash +ℤ money_of c.kind c.strike p.quantity;
  positions = mark_held c.root (pos under) (
      move c.root equity (shares_of c.kind p.quantity) (pos c.strike)
        (delete p.symbol book.positions));
}

-- The three ways to settle: nothing is left, cash, or shares.
unfoldable pub settle_contract : Book → Position → Occ → ℕ → ℕ → Book × (Refusal ⊎ Event)
settle_contract book p c under now =
    if ltb (worth_of c under) 10
    then with_event (settle_event EventKind.expiry p.symbol p.quantity under now)
        (record book { positions = delete p.symbol book.positions })
    else (if is_cash_settled c.root
        then with_event (settle_event EventKind.settlement p.symbol p.quantity under now)
            (record book {
              positions = delete p.symbol book.positions;
              cash = book.cash +ℤ scale (worth_of c under * multiplier) p.quantity;
            })
        else with_event
            (settle_event
              (if ltb_ℤ p.quantity (pos 0) then EventKind.assignment else EventKind.exercise)
              p.symbol p.quantity under now)
            (exercised book p c under))

abbrev pub settle_read : Book → Position → ℕ → ℕ → Option Occ → Book × (Refusal ⊎ Event)
settle_read book p under now none = (book, inl no_contract)
settle_read book p under now (some c) = settle_contract book p c under now

abbrev pub settle_found : Book → Text → ℕ → ℕ → Option Position → Book × (Refusal ⊎ Event)
settle_found book symbol under now none = (book, inl no_position)
settle_found book symbol under now (some p) = settle_read book p under now (parse_occ symbol)

-- Settle
unfoldable pub settle : Book → Text → ℕ → ℕ → Book × (Refusal ⊎ Event)
settle book symbol under now =
    settle_found book symbol under now (find_position symbol book.positions)

-- settle of the arena: of what is due, what settles in shares and whose price is known, more than
-- nothing, is settled; the rest is left as it is.
abbrev pub settle_priced : Book → Text → ℕ → Option ℕ → Book
settle_priced book symbol now none = book
settle_priced book symbol now (some under) =
    if ltb 0 under then (settle book symbol under now).0 else book

unfoldable pub settle_due : (Text → Option ℕ) → ℕ → List (Text × Occ) → Book → Book
settle_due prices now [] book = book
settle_due prices now ((symbol, c) ∷ rest) book =
    settle_due prices now rest
      (if is_cash_settled c.root then book else settle_priced book symbol now (prices c.root))

-- The prices of a pass: none where they could not be read.
abbrev pub settle_with : ℕ → List (Text × Occ) → Option (Text → Option ℕ) → Book → Book
settle_with now all none book = book
settle_with now all (some prices) book = settle_due prices now all book

unfoldable pub settle_all : (Date → ℕ) → ℕ → Option (Text → Option ℕ) → Book → Book
settle_all settled_at now prices book =
    settle_with now (due settled_at now book.positions) prices book
