-- ===== src/Arena/Round.antt =====
-- One turn of the matcher over every book: once of testbed/proxy/match.go.
pub mod Queue
use swiftward_alpaca_options.Prelude.{
  ℕ, zero, suc, ◌+◌, Bool, true, false, not, ◌&&◌, Option, none, some, List, [], ◌∷◌, ◌++◌, map,
  ltb, ◌==◌, if◌then◌else◌, any,
}
use swiftward_alpaca_options.Prelude.Int.{ℤ, pos, ◌+ℤ◌}
use swiftward_alpaca_options.Prelude.Text.{Text, text_eq}
use swiftward_alpaca_options.Market.Symbol.{Date}
use swiftward_alpaca_options.Arena.Order.{buy, sell, Leg, Position, market_closed, Order}
use swiftward_alpaca_options.Arena.Book.{Book}
use swiftward_alpaca_options.Arena.Amend.{note}
use swiftward_alpaca_options.Arena.Day.{expire_day, mark_close, open_orders}
use swiftward_alpaca_options.Arena.Expiry.{settle_all}
use swiftward_alpaca_options.Arena.Match.{Quote, Shelf, fill_order}

pub record Clock : Type 0 where
  pub now : ℕ
  pub is_open : Bool

-- An order that stands, and the number of its book.
pub record Standing : Type 0 where
  pub book : ℕ
  pub order : Order

abbrev pub standing_in : ℕ → List Order → List Standing
standing_in n orders = map (λ order. record { book = n; order = order }) orders

unfoldable pub all_standing : ℕ → List Book → List Standing
all_standing n [] = []
all_standing n (book ∷ books) = standing_in n (open_orders book) ++ all_standing (suc n) books

-- Time.Before, where no time comes first.
abbrev pub earlier : Option ℕ → Option ℕ → Bool
earlier a none = false
earlier none (some b) = true
earlier (some a) (some b) = ltb a b

abbrev pub is_before : Standing → Standing → Bool
is_before a b = earlier a.order.submitted_at b.order.submitted_at

-- What stands in the books, in the order in which it fills. The sort is an argument: of a test, whether
-- one comes before another, and of what it sorts.
unfoldable pub queue_of :
    ((Standing → Standing → Bool) → List Standing → List Standing) → List Book → List Standing
queue_of sort_stable books = sort_stable is_before (all_standing 0 books)

unfoldable pub change_book : ℕ → (Book → Book) → List Book → List Book
change_book n f [] = []
change_book zero f (book ∷ books) = f book ∷ books
change_book (suc n) f (book ∷ books) = book ∷ change_book n f books

unfoldable pub note_closed : List Standing → List Book → List Book
note_closed [] books = books
note_closed (one ∷ rest) books =
    note_closed rest (change_book one.book (λ book. note book one.order.id market_closed) books)

unfoldable pub book_at : ℕ → List Book → Option Book
book_at n [] = none
book_at zero (book ∷ books) = some book
book_at (suc n) (book ∷ books) = book_at n books

-- The sizes that the quotes show, of the symbols that have one.
abbrev pub shelves_of : Text → Option Quote → List Shelf
shelves_of symbol none = []
shelves_of symbol (some quote) =
    record { symbol = symbol; side = buy; size = quote.ask_size }
    ∷ record { symbol = symbol; side = sell; size = quote.bid_size }
    ∷ []

unfoldable pub shown_by : (Text → Option Quote) → List Text → List Shelf
shown_by quotes [] = []
shown_by quotes (symbol ∷ symbols) = shelves_of symbol (quotes symbol) ++ shown_by quotes symbols

unfoldable pub symbols_in : List Standing → List Text
symbols_in [] = []
symbols_in (one ∷ rest) = map (λ leg. leg.symbol) one.order.legs ++ symbols_in rest

module _ (ignore_session : Bool) (max_age : ℕ) (settled_at : Date → ℕ) (day_of : ℕ → Text)
    (last_trades : ℕ → Option (Text → Option ℕ)) (value : List Position → Option ℤ)
    (option_quotes : List Text → Option (Text → Option Quote))
    (sort_stable : (Standing → Standing → Bool) → List Standing → List Standing) where
  abbrev pub put_back : ℕ → List Book → Book × List Shelf → List Book × List Shelf
  put_back n books (book, shown) = (change_book n (λ _. book) books, shown)

  abbrev pub fill_in :
      ℕ
      → (Text → Option Quote)
      → Standing
      → List Book
      → List Shelf
      → Option Book
      → List Book × List Shelf
  fill_in now quotes one books shown none = (books, shown)
  fill_in now quotes one books shown (some book) =
      put_back one.book books (fill_order ignore_session max_age now quotes book one.order shown)

  unfoldable pub fill_queue :
      ℕ → (Text → Option Quote) → List Standing → List Book → List Shelf → List Book
  fill_queue now quotes [] books shown = books
  fill_queue now quotes (one ∷ rest) books shown =
      let (after, left) = fill_in now quotes one books shown (book_at one.book books) in
      fill_queue now quotes rest after left

  -- What goes out and what expires, in every book.
  unfoldable pub put_out : ℕ → ℕ → List Book → List Book
  put_out n now [] = []
  put_out n now (book ∷ books) =
      settle_all settled_at now (last_trades n) (expire_day book now).0 ∷ put_out (suc n) now books

  abbrev pub closed_with : Text → Book → Option ℤ → Book
  closed_with day book none = book
  closed_with day book (some market) = (mark_close book day (book.cash +ℤ market)).0

  unfoldable pub close_all : Text → List Book → List Book
  close_all day [] = []
  close_all day (book ∷ books) =
      (if text_eq book.closed_on day then book else closed_with day book (value book.positions))
      ∷ close_all day books

  abbrev pub with_quotes : ℕ → List Standing → List Book → Option (Text → Option Quote) → List Book
  with_quotes now queue books none = books
  with_quotes now queue books (some quotes) =
      fill_queue now quotes queue books (shown_by quotes (symbols_in queue))

  abbrev pub with_queue : Clock → List Standing → List Book → List Book
  with_queue clock [] books = books
  with_queue clock (one ∷ rest) books =
      if not clock.is_open && not ignore_session
      then note_closed (one ∷ rest) books
      else with_quotes clock.now (one ∷ rest) books (option_quotes (symbols_in (one ∷ rest)))

  -- once
  unfoldable pub once : Option Clock → List Book → List Book
  once none books = books
  once (some clock) books =
      let settled = put_out 0 clock.now books in
      let closed = if clock.is_open then settled else close_all (day_of clock.now) settled in
      with_queue clock (queue_of sort_stable closed) closed
