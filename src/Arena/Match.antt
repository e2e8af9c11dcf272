-- ===== src/Arena/Match.antt =====
-- The matcher: executable, fill and once of testbed/proxy/match.go. The broker's clock and quotes, and
-- the value of a holding, are arguments; an answer that could not be read is none.
pub mod Fair
pub mod Limit
use swiftward_alpaca_options.Prelude.{
  ℕ, zero, suc, ◌+◌, ◌-◌, ◌*◌, ◌/◌, Bool, true, false, not, ◌&&◌, ◌||◌, Option, none, some, List,
  [], ◌∷◌, ◌++◌, ltb, leb, if◌then◌else◌, ◌⊎◌, inl, inr,
}
use swiftward_alpaca_options.Prelude.Int.{ℤ, pos, negsuc, ◌+ℤ◌, ◌-ℤ◌, neg, scale, ltb_ℤ, leb_ℤ, abs}
use swiftward_alpaca_options.Prelude.Text.{Text, text_eq}
use swiftward_alpaca_options.Market.Symbol.{Date}
use swiftward_alpaca_options.Arena.Order.{
  Side, buy, sell, Leg, Position, Obstacle, Note, obstacle, offered, nothing_shown, market_closed,
  Order, Event, remaining,
}
use swiftward_alpaca_options.Arena.Order.{Obstacle}
use swiftward_alpaca_options.Arena.Book.{Book, Refusal, fill}
use swiftward_alpaca_options.Arena.Amend.{note, mark_stand}
use swiftward_alpaca_options.Arena.Day.{expire_day, mark_close, open_orders}
use swiftward_alpaca_options.Arena.Expiry.{settle_all}

pub record Quote : Type 0 where
  pub bid : ℤ
  pub ask : ℤ
  pub bid_size : ℤ
  pub ask_size : ℤ
  pub at : Option ℕ

-- side: the price and the size that a leg meets.
abbrev pub price_on : Side → Quote → ℤ
price_on buy quote = quote.ask
price_on sell quote = quote.bid

abbrev pub size_on : Side → Quote → ℤ
size_on buy quote = quote.ask_size
size_on sell quote = quote.bid_size

-- What is left of the sizes that the market shows.
pub record Shelf : Type 0 where
  pub symbol : Text
  pub side : Side
  pub size : ℤ

abbrev pub side_eq : Side → Side → Bool
side_eq buy buy = true
side_eq sell sell = true
side_eq _ _ = false

abbrev pub is_shelf : Text → Side → Shelf → Bool
is_shelf symbol side shelf = text_eq shelf.symbol symbol && side_eq shelf.side side

unfoldable pub left_on : Text → Side → List Shelf → Option ℤ
left_on symbol side [] = none
left_on symbol side (shelf ∷ shown) =
    let rest = left_on symbol side shown in
    if is_shelf symbol side shelf then some shelf.size else rest

unfoldable pub take_from : Leg → ℕ → List Shelf → List Shelf
take_from leg sets [] =
    record { symbol = leg.symbol; side = leg.side; size = neg (pos (leg.ratio * sets)) } ∷ []
take_from leg sets (shelf ∷ shown) =
    let rest = take_from leg sets shown in
    if is_shelf leg.symbol leg.side shelf
    then record shelf { size = shelf.size -ℤ pos (leg.ratio * sets) } ∷ shown
    else shelf ∷ rest

unfoldable pub take_all : List Leg → ℕ → List Shelf → List Shelf
take_all [] sets shown = shown
take_all (leg ∷ legs) sets shown = take_all legs sets (take_from leg sets shown)

-- Division that drops what is behind the point.
abbrev pub quotient : ℤ → ℕ → ℤ
quotient (pos n) d = pos (n / d)
quotient (negsuc n) d = neg (pos (suc n / d))

abbrev pub size_left : Option ℤ → ℤ → ℤ
size_left none size = size
size_left (some left) size = left

-- How far executable has come: the price of a set, the sets that fit, or minus one before the
-- first leg, and the price of each leg, the last one first.
pub record Tally : Type 0 where
  pub price : ℤ
  pub sets : ℤ
  pub leg_price : List (Text × ℤ)

pub data Match : Type 0 where
  stuck : Obstacle → Match
  tallied : Tally → Match

abbrev pub fewer : ℤ → ℤ → ℤ
fewer sets fits = if ltb_ℤ sets (pos 0) || ltb_ℤ fits sets then fits else sets

abbrev pub cost_on : Side → ℕ → ℤ → ℤ
cost_on buy ratio price = scale ratio price
cost_on sell ratio price = neg (scale ratio price)

abbrev pub tally_leg : List Shelf → Leg → Quote → Tally → Tally
tally_leg shown leg quote tally =
    let fits =
      quotient (size_left (left_on leg.symbol leg.side shown) (size_on leg.side quote)) leg.ratio in
    record {
      price = tally.price +ℤ cost_on leg.side leg.ratio (price_on leg.side quote);
      sets = fewer tally.sets fits;
      leg_price = (leg.symbol, price_on leg.side quote) ∷ tally.leg_price;
    }

-- Whether a quote may be filled against.
abbrev pub stale : Bool → ℕ → ℕ → Option ℕ → Option Obstacle
stale true max_age now at = none
stale false max_age now none = some Obstacle.no_timestamp
stale false max_age now (some at) = if ltb max_age (now - at) then some Obstacle.frozen else none

abbrev pub is_crossed : Quote → Bool
is_crossed quote = ltb_ℤ (pos 0) quote.bid && ltb_ℤ (pos 0) quote.ask && ltb_ℤ quote.ask quote.bid

abbrev pub fault_of : Option Obstacle → Leg → Quote → Option Obstacle
fault_of (some o) leg quote = some o
fault_of none leg quote =
    if is_crossed quote
    then some Obstacle.crossed
    else (if leb_ℤ (price_on leg.side quote) (pos 0) then some Obstacle.no_price else none)

abbrev pub go_on : Option Obstacle → Match → Match
go_on (some o) go = stuck o
go_on none go = go

abbrev pub finish : Tally → Match
finish tally =
    tallied (record tally { sets = if ltb_ℤ tally.sets (pos 0) then pos 0 else tally.sets })

module _ (ignore_age : Bool) (max_age now : ℕ) (quotes : Text → Option Quote)
    (shown : List Shelf) where
  abbrev pub quoted_leg : Leg → Option Quote → Tally → (Tally → Match) → Match
  quoted_leg leg none tally go = stuck Obstacle.no_quote
  quoted_leg leg (some quote) tally go =
      go_on (fault_of (stale ignore_age max_age now quote.at) leg quote)
        (go (tally_leg shown leg quote tally))

  unfoldable pub tally_legs : List Leg → Tally → Match
  tally_legs [] tally = finish tally
  tally_legs (leg ∷ legs) tally = quoted_leg leg (quotes leg.symbol) tally (tally_legs legs)

  -- executable
  unfoldable pub executable : List Leg → Match
  executable legs = tally_legs legs (record { price = pos 0; sets = negsuc 0; leg_price = [] })

unfoldable pub price_in : List (Text × ℤ) → Text → ℤ
price_in [] symbol = pos 0
price_in ((one, price) ∷ rest) symbol =
    let more = price_in rest symbol in if text_eq one symbol then price else more

-- The sets that fill: no more than remain.
abbrev pub sets_for : ℤ → ℕ → ℕ
sets_for (pos n) left = if ltb left n then left else n
sets_for (negsuc n) left = 0

module _ (ignore_session : Bool) (max_age now : ℕ) (quotes : Text → Option Quote) where
  -- A call that the book does not refuse takes from what is shown.
  abbrev pub booked : Order → ℕ → List Shelf → Book × (Refusal ⊎ Event) → Book × List Shelf
  booked order sets shown (book, inl refusal) = (book, shown)
  booked order sets shown (book, inr e) =
      (if ignore_session then mark_stand book order.id else book, take_all order.legs sets shown)

  abbrev pub fill_tallied : Book → Order → List Shelf → Tally → Book × List Shelf
  fill_tallied book order shown tally =
      let sets = sets_for tally.sets (remaining order) in
      if not order.market && ltb_ℤ order.limit tally.price
      then (note book order.id (offered tally.price order.limit), shown)
      else (if ltb sets 1
          then (note book order.id nothing_shown, shown)
          else booked order sets shown
              (fill book order.id sets tally.price (price_in tally.leg_price) now))

  abbrev pub fill_match : Book → Order → List Shelf → Match → Book × List Shelf
  fill_match book order shown (stuck o) = (note book order.id (obstacle o), shown)
  fill_match book order shown (tallied tally) = fill_tallied book order shown tally

  -- fill
  unfoldable pub fill_order : Book → Order → List Shelf → Book × List Shelf
  fill_order book order shown =
      fill_match book order shown (executable ignore_session max_age now quotes shown order.legs)

  -- Orders of one book, in the order given.
  unfoldable pub fill_orders : Book → List Order → List Shelf → Book × List Shelf
  fill_orders book [] shown = (book, shown)
  fill_orders book (order ∷ orders) shown =
      let (after, left) = fill_order book order shown in fill_orders after orders left
