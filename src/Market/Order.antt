-- ===== src/Market/Order.antt =====
-- What the broker answers: the records of golang/internal/marketdata/marketdata.go, with the
-- fields that the rest of the program reads. Money is in mills; numbers of contracts are whole.
use swiftward_alpaca_options.Prelude.{ℕ, Bool, true, false, Option, List}
use swiftward_alpaca_options.Prelude.Int.{ℤ}
use swiftward_alpaca_options.Prelude.Text.{Text}

pub record Quote : Type 0 where
  pub bid : ℤ
  pub ask : ℤ
  -- In millionths, if the broker computes one.
  pub delta : Option ℤ

pub record Position : Type 0 where
  pub symbol : Text
  pub asset_class : Text
  -- Signed: what is sold is negative.
  pub quantity : ℤ
  pub average_entry_price : ℤ
  pub cost_basis : ℤ

-- The words of the broker that the program tells apart; every other word is `other`.
pub data Status : Type 0 where
  new accepted pending_new partially_filled filled other : Status

pub data Side : Type 0 where
  sell other : Side

pub data Class : Type 0 where
  mleg other : Class

-- An order as it stands among the legs of another.
pub record Leg : Type 0 where
  pub symbol : Text
  pub side : Side
  pub position_intent : Text
  pub quantity : ℕ
  pub ratio : ℕ

pub record Order : Type 0 where
  pub id : Text
  pub client_id : Text
  pub symbol : Text
  pub class : Class
  pub status : Status
  pub quantity : ℕ
  pub filled_quantity : ℕ
  pub limit_price : ℤ
  -- The time in nanoseconds, if the broker names one.
  pub submitted_at : Option ℕ
  pub legs : List Leg

unfoldable pub active_status : Status → Bool
active_status Status.new = true
active_status Status.accepted = true
active_status Status.pending_new = true
active_status Status.partially_filled = true
active_status _ = false

unfoldable pub active : Order → Bool
unfolding active_status
active order = active_status order.status
