-- ===== src/Arena/Order.antt =====
-- Orders, positions and events of a participant's book: testbed/proxy/book.go. Money is in mills,
-- times are in nanoseconds; a time that is not set is none.
pub mod Turn
use swiftward_alpaca_options.Prelude.{
  ℕ, ◌+◌, ◌-◌, ◌*◌, Bool, true, false, ◌&&◌, ◌||◌, Option, none, some, List, [], ◌∷◌, ltb, leb,
  ◌==◌, if◌then◌else◌, all, any, map,
}
use swiftward_alpaca_options.Prelude.Int.{ℤ, pos, neg}
use swiftward_alpaca_options.Prelude.Frac.{Frac}
use swiftward_alpaca_options.Prelude.Text.{Text, codes, is_digit, text_eq, trim_space}
use swiftward_alpaca_options.Market.Symbol.{parse_digits}
use swiftward_alpaca_options.Execution.Name.{split_by, is_semicolon}

-- The fee for a contract, and the shares that a contract carries.
abbrev pub per_contract : ℕ
per_contract = 25

abbrev pub multiplier : ℕ
multiplier = 100

pub data Class : Type 0 where
  option equity : Class

pub data Status : Type 0 where
  new partially_filled filled canceled expired replaced : Status

pub data Side : Type 0 where
  buy sell : Side

pub record Leg : Type 0 where
  pub symbol : Text
  pub side : Side
  pub ratio : ℕ
  pub position_intent : Text

pub record Position : Type 0 where
  pub symbol : Text
  -- Signed: what is sold is negative.
  pub quantity : ℤ
  pub average_price : Frac
  pub class : Class
  pub mark : ℤ

-- Why a leg cannot be filled against the market.
pub data Obstacle : Type 0 where
  no_quote no_timestamp frozen crossed no_price : Obstacle

-- What the matcher notes on an order.
pub data Note : Type 0 where
  obstacle : Obstacle → Note
  offered : ℤ → ℤ → Note
  nothing_shown market_closed : Note

-- Why an order has not filled, or was closed.
pub data Reason : Type 0 where
  no_reason uncounted short_of_collateral cancelled moved session_ended : Reason
  noted : Note → Reason

pub record Order : Type 0 where
  pub id : Text
  pub client_id : Text
  pub turn_ref : Text
  pub status : Status
  pub quantity : ℕ
  pub filled_quantity : ℕ
  pub limit : ℤ
  pub market : Bool
  -- Of a set; a credit is negative.
  pub filled_average : Frac
  pub fees : ℕ
  pub stand : Bool
  pub time_in_force : Text
  pub legs : List Leg
  pub submitted_at : Option ℕ
  pub filled_at : Option ℕ
  pub canceled_at : Option ℕ
  pub expires_at : Option ℕ
  pub replaced_by : Text
  pub replaces : Text
  pub why : Reason
  pub seq : ℕ

-- open
abbrev pub is_open_status : Status → Bool
is_open_status Status.new = true
is_open_status Status.partially_filled = true
is_open_status _ = false

abbrev pub is_open : Order → Bool
is_open order = is_open_status order.status

abbrev pub remaining : Order → ℕ
remaining order = order.quantity - order.filled_quantity

pub data EventKind : Type 0 where
  fill expiry settlement exercise assignment : EventKind

pub record Event : Type 0 where
  pub order_id : Text
  pub kind : EventKind
  pub symbol : Text
  pub at : ℕ
  pub sets : ℤ
  pub price : ℤ
  pub fees : ℕ
  pub filled : Bool
  pub why : Reason

-- What a leg adds to a position when sets of its order fill.
abbrev pub signed_by : Side → ℕ → ℤ
signed_by buy n = pos n
signed_by sell n = neg (pos n)

abbrev pub signed : Leg → ℕ → ℤ
signed leg sets = signed_by leg.side (leg.ratio * sets)

unfoldable pub contracts_in : List Leg → ℕ → ℕ
contracts_in [] sets = 0
contracts_in (leg ∷ legs) sets = leg.ratio * sets + contracts_in legs sets

-- parseCount: digits only, of a number that is not zero and that an int holds.
abbrev pub counted : Option ℕ → Option ℕ
counted none = none
counted (some n) = if leb n 9223372036854775807 && leb 1 n then some n else none

unfoldable pub parse_count : Text → Option ℕ
parse_count s = if all is_digit s then counted (parse_digits s) else none

-- strings.Cut at the first equals sign.
abbrev pub cons_key : ℕ → Option (Text × Text) → Option (Text × Text)
cons_key c none = none
cons_key c (some (key, value)) = some (c ∷ key, value)

unfoldable pub cut_equals : Text → Option (Text × Text)
cut_equals [] = none
cut_equals (c ∷ s) = let rest = cut_equals s in if c == b'=' then some ([], s) else cons_key c rest

abbrev pub turn_field : Option (Text × Text) → Text → Text
turn_field none rest = rest
turn_field (some (key, value)) rest =
    if text_eq (trim_space key) (codes "turn") then trim_space value else rest

unfoldable pub turn_in : List Text → Text
turn_in [] = []
turn_in (field ∷ fields) = turn_field (cut_equals field) (turn_in fields)

-- turnOf
unfoldable pub turn_of : Text → Text
turn_of client_id = turn_in (split_by is_semicolon client_id)
