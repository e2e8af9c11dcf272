-- ===== src/Arena/Tools.antt =====
-- How an order reaches a book: orderArgs, placeOrder and legsOf of testbed/proxy/tools.go. The clock,
-- the quotes and the reading of a price are arguments; what could not be read is none.
pub mod Legs
pub mod Placed
pub mod Requests
use swiftward_alpaca_options.Prelude.{
  ℕ, Bool, true, false, not, ◌&&◌, ◌||◌, Option, none, some, List, [], ◌∷◌, map, all, if◌then◌else◌,
  ◌⊎◌, inl, inr,
}
use swiftward_alpaca_options.Prelude.Int.{ℤ, pos}
use swiftward_alpaca_options.Prelude.Frac.{whole}
use swiftward_alpaca_options.Prelude.Text.{Text, codes, text_eq, trim_space, to_upper, to_lower}
use swiftward_alpaca_options.Arena.Order.{Side, buy, sell, Leg, Status, Reason, Order, parse_count}
use swiftward_alpaca_options.Arena.Order.{Status, Reason}
use swiftward_alpaca_options.Arena.Contract.{Occ, parse_occ}
use swiftward_alpaca_options.Arena.Book.{Book, Refusal, submit}
use swiftward_alpaca_options.Arena.Day.{by_client_id}
use swiftward_alpaca_options.Arena.Match.{Quote, Match, stuck, tallied, executable}

pub record LegArgs : Type 0 where
  pub symbol : Text
  pub side : Text
  pub ratio_quantity : Text
  pub position_intent : Text

pub record OrderArgs : Type 0 where
  pub quantity : Text
  pub kind : Text
  pub time_in_force : Text
  pub symbol : Text
  pub side : Text
  pub position_intent : Text
  pub limit_price : Text
  pub client_order_id : Text
  pub legs : List LegArgs

pub record Session : Type 0 where
  pub now : ℕ
  pub next_close : Option ℕ

-- Why an order is not accepted.
pub data Rejection : Type 0 where
  bad_legs bad_quantity bad_price taken no_clock no_quotes unquoted unpriced : Rejection
  refused : Refusal → Rejection

abbrev pub side_of : Text → Option Side
side_of side =
    if text_eq side (codes "buy")
    then some buy
    else (if text_eq side (codes "sell") then some sell else none)

abbrev pub or_default : Text → Text → Text
or_default [] other = other
or_default (c ∷ s) other = c ∷ s

abbrev pub leg_with : Text → Text → Option Side → Option ℕ → Option Occ → Option Leg
leg_with symbol intent (some side) (some n) (some c) =
    some (record { symbol = symbol; side = side; ratio = n; position_intent = intent })
leg_with symbol intent _ _ _ = none

abbrev pub symbol_of : LegArgs → Text
symbol_of leg = trim_space (to_upper leg.symbol)

unfoldable pub read_leg : LegArgs → Option Leg
read_leg leg =
    leg_with (symbol_of leg) leg.position_intent (side_of (to_lower (trim_space leg.side)))
      (parse_count (or_default leg.ratio_quantity (codes "1"))) (parse_occ (symbol_of leg))

abbrev pub cons_leg : Option Leg → Option (List Leg) → Option (List Leg)
cons_leg (some leg) (some legs) = some (leg ∷ legs)
cons_leg _ _ = none

unfoldable pub read_legs : List LegArgs → Option (List Leg)
read_legs [] = some []
read_legs (leg ∷ legs) = cons_leg (read_leg leg) (read_legs legs)

abbrev pub single_leg : OrderArgs → Text → Option (List Leg)
single_leg args [] = none
single_leg args (c ∷ s) = read_legs (
    record {
      symbol = c ∷ s;
      side = args.side;
      ratio_quantity = codes "1";
      position_intent = args.position_intent;
    }
    ∷ [])

-- legsOf
unfoldable pub legs_of : OrderArgs → List LegArgs → Option (List Leg)
legs_of args [] = single_leg args (trim_space args.symbol)
legs_of args (leg ∷ legs) = read_legs (leg ∷ legs)

-- What is asked: a limit, or none for a market order.
abbrev pub limit_read : Option ℤ → Option (Option ℤ)
limit_read none = none
limit_read (some limit) = some (some limit)

abbrev pub limit_asked : (Text → Option ℤ) → Bool → Text → Option (Option ℤ)
limit_asked parse_float market [] = some none
limit_asked parse_float true (c ∷ s) = some none
limit_asked parse_float false (c ∷ s) = limit_read (parse_float (c ∷ s))

abbrev pub is_market : Text → Bool
is_market kind = text_eq (to_lower (trim_space kind)) (codes "market")

-- A market order takes what the market asks now for its limit.
abbrev pub limit_from : Option ℤ → Match → Option ℤ
limit_from (some limit) m = some limit
limit_from none (stuck o) = none
limit_from none (tallied tally) = some tally.price

abbrev pub is_none {ℓ} : {A : Type ℓ} → Option A → Bool
is_none none = true
is_none (some a) = false

abbrev pub session_end : Text → Session → Option ℕ
session_end tif session = if text_eq tif (codes "day") then session.next_close else none

abbrev pub new_order : OrderArgs → List Leg → ℕ → Option ℤ → ℤ → Session → Order
new_order args legs sets asked limit session =
    let tif = or_default (to_lower (trim_space args.time_in_force)) (codes "day") in
    record {
      id = [];
      client_id = args.client_order_id;
      turn_ref = [];
      status = Status.new;
      quantity = sets;
      filled_quantity = 0;
      limit = limit;
      market = is_none asked;
      filled_average = whole (pos 0);
      fees = 0;
      stand = false;
      time_in_force = tif;
      legs = legs;
      submitted_at = some session.now;
      filled_at = none;
      canceled_at = none;
      expires_at = session_end tif session;
      replaced_by = [];
      replaces = [];
      why = Reason.no_reason;
      seq = 0;
    }

abbrev pub answer_of : Book × (Refusal ⊎ Order) → Book × (Rejection ⊎ Order)
answer_of (book, inl r) = (book, inl (refused r))
answer_of (book, inr order) = (book, inr order)

abbrev pub needing {ℓ} :
    {A : Type ℓ}
    → Book
    → Rejection
    → Option A
    → (A → Book × (Rejection ⊎ Order))
    → Book × (Rejection ⊎ Order)
needing book why none go = (book, inl why)
needing book why (some a) go = go a

module _ (parse_float : Text → Option ℤ) (session : Option Session)
    (quotes : List Text → Option (Text → Option Quote)) (max_age : ℕ) where
  -- From the legs, the sets and the limit on.
  unfoldable pub place_asked :
      OrderArgs → Book → Text → List Leg → ℕ → Option ℤ → Book × (Rejection ⊎ Order)
  place_asked args book id legs sets asked =
      if not (is_none (by_client_id book args.client_order_id))
      then (book, inl taken)
      else needing book no_clock session (λ now.
        needing book no_quotes (quotes (map (λ leg. leg.symbol) legs)) (λ shown.
          if not (all (λ leg. not (is_none (shown leg.symbol))) legs)
          then (book, inl unquoted)
          else needing book unpriced
              (limit_from asked (executable true max_age now.now shown [] legs))
              (λ limit. answer_of (submit book (new_order args legs sets asked limit now) id))))

  -- placeOrder, under a fresh identifier.
  unfoldable pub place_order : OrderArgs → Book → Text → Book × (Rejection ⊎ Order)
  place_order args book id = needing book bad_legs (legs_of args args.legs) (λ legs.
      needing book bad_quantity (parse_count (trim_space args.quantity)) (λ sets.
        needing book bad_price
          (limit_asked parse_float (is_market args.kind) (trim_space args.limit_price))
          (λ asked. place_asked args book id legs sets asked)))
