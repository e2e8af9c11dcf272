-- ===== src/TakeProfit/Watch.antt =====
-- The watch that closes winning structures: share, step and consider of
-- golang/internal/takeprofit.
use swiftward_alpaca_options.Prelude.{
  ℕ, ◌-◌, ◌*◌, ◌/◌, Bool, true, false, ◌&&◌, ◌||◌, Option, none, some, List, [], ◌∷◌, ◌++◌, map,
  ltb, ◌==◌, if◌then◌else◌, length, any,
}
use swiftward_alpaca_options.Prelude.Int.{pos, scale, abs, leb_ℤ}
use swiftward_alpaca_options.Prelude.Frac.{Frac, whole, ltb_frac, leb_frac}
use swiftward_alpaca_options.Prelude.Text.{Text, codes, text_eq, to_upper}
use swiftward_alpaca_options.Market.Symbol.{Date}
use swiftward_alpaca_options.Market.Order.{Quote, Position, Leg, Order, active}
use swiftward_alpaca_options.Execution.Price.{round_ratio}
use swiftward_alpaca_options.Execution.Name.{worst_prefix, show_price, show}
use swiftward_alpaca_options.TakeProfit.{Closing, closing_of, buy_back}
use swiftward_alpaca_options.TakeProfit.Group.{Structure, name_of, group}

-- standing: ten minutes.
abbrev pub standing : ℕ
standing = 600000000000

-- share, of what At answers: more than nothing, and no more than the whole credit.
unfoldable pub share : Option Frac → Option Frac
share none = none
share (some at) =
    if ltb_frac (whole (pos 0)) at && leb_frac at (whole (pos 1)) then some at else none

pub data Effect : Type 0 where
  left_alone : Text → Effect
  close_sent : List Closing → ℕ → Frac → Text → Option Text → Effect
  placed_recorded : Text → Frac → Effect

-- The broker's answers to the calls of a pass; `none` is an error.
pub record Broker : Type 0 where
  pub quotes : ℕ → List Text → Option (Text → Option Quote)
  pub close_structure : ℕ → List Closing → ℕ → Frac → Text → Option Text

pub record State : Type 0 where
  pub sent : List (Text × ℕ)
  pub declined : List Text
  pub effects : List Effect

abbrev pub emit : Effect → State → State
emit e s = record s { effects = s.effects ++ e ∷ [] }

abbrev pub is_in : Text → List Text → Bool
is_in name names = any (text_eq name) names

-- Each holding that cannot be read is spoken of once, for as long as it is held.
unfoldable pub decline : List Text → State → State
decline [] s = s
decline (name ∷ names) s =
    decline names (if is_in name s.declined then s else emit (left_alone name) s)

abbrev pub named : Text → List Text
named [] = []
named (c ∷ s) = to_upper (c ∷ s) ∷ []

unfoldable pub legs_named : List Leg → List Text
legs_named [] = []
legs_named (leg ∷ legs) = named leg.symbol ++ legs_named legs

-- The symbols of every order that is still in flight.
unfoldable pub walking : List Order → List Text
walking [] = []
walking (order ∷ orders) =
    let rest = walking orders in
    if active order then named order.symbol ++ legs_named order.legs ++ rest else rest

-- A day before another.
abbrev pub before_day : Date → Date → Bool
before_day a b =
    ltb a.year b.year
    || ((a.year == b.year) && (ltb a.month b.month || ((a.month == b.month) && ltb a.day b.day)))

-- expired, on the day that it is where the market is.
unfoldable pub expired : Date → Structure → Bool
expired today s = before_day s.key.expiration today

unfoldable pub sent_lately : ℕ → Text → List (Text × ℕ) → Bool
sent_lately now name [] = false
sent_lately now name ((other, at) ∷ rest) =
    let later = sent_lately now name rest in
    if text_eq other name then ltb (now - at) standing else later

-- credit * share
abbrev pub share_of : Frac → Frac → Frac
share_of credit share = record {
  num = scale (abs share.num) credit.num;
  den = share.den * credit.den;
}

-- The name of a closing order: its worst price, and what it closes, in seconds.
unfoldable pub closing_name : Frac → Text → ℕ → Text
closing_name worst name now =
    worst_prefix
    ++ show_price (round_ratio worst.num worst.den)
    ++ codes ";tp-"
    ++ name
    ++ codes "-"
    ++ show (now / 1000000000) []

abbrev pub has_id : Text → Bool
has_id [] = false
has_id (c ∷ s) = true

module _ (broker : Broker) (recording : Bool) (now : ℕ) (today : Date) where
  abbrev pub answered : Text → Frac → Option Text → State → State
  answered name cost none s = s
  answered name cost (some id) s =
      let t = if recording && has_id id then emit (placed_recorded id cost) s else s in
      record t { sent = (name, now) ∷ t.sent }

  abbrev pub close : Structure → Frac → Frac → Option (List Closing) → State → State
  close one share cost none s = s
  close one share cost (some legs) s =
      let name = closing_name (share_of one.credit share) (name_of one.key) now in
      let answer = broker.close_structure (length s.effects) legs one.sets cost name in
      answered (name_of one.key) cost answer (emit (close_sent legs one.sets cost name answer) s)

  -- A book that is inverted is not priced; what costs more than the share is kept.
  abbrev pub priced : Structure → Frac → Option Frac → State → State
  priced one share none s = s
  priced one share (some cost) s =
      if ltb_frac cost (whole (pos 0)) || ltb_frac (share_of one.credit share) cost
      then s
      else close one share cost (closing_of one.sets one.legs) s

  abbrev pub quoted : Structure → Frac → Option (Text → Option Quote) → State → State
  quoted one share none s = s
  quoted one share (some quotes) s = priced one share (buy_back quotes one.legs) s

  unfoldable pub consider : List Text → Frac → State → Structure → State
  consider busy share s one =
      if leb_ℤ one.credit.num (pos 0)
        || expired today one
        || sent_lately now (name_of one.key) s.sent
        || any (λ leg. is_in (to_upper leg.symbol) busy) one.legs
      then s
      else quoted one share (broker.quotes (length s.effects) (map (λ leg. leg.symbol) one.legs)) s

  unfoldable pub consider_all : List Text → Frac → State → List Structure → State
  consider_all busy share s [] = s
  consider_all busy share s (one ∷ rest) = consider_all busy share (consider busy share s one) rest

  abbrev pub shared : Option Frac → List Order → List Structure → State → State
  shared none orders structures s = s
  shared (some part) orders structures s = consider_all (walking orders) part s structures

  abbrev pub with_orders : Option Frac → Option (List Order) → List Structure → State → State
  with_orders at none structures s = s
  with_orders at (some orders) structures s = shared (share at) orders structures s

  -- step
  unfoldable pub step : Option (List Position) → Option (List Order) → Option Frac → State → State
  step none orders at s = s
  step (some held) orders at s =
      let (structures, ambiguous) = group held in
      let t = decline ambiguous s in
      with_orders at orders structures (record t { declined = ambiguous })
