-- ===== src/Arena/ToolsTests.antt =====
-- The theorems about the tools, applied to an order for a put that is sent twice.
use swiftward_alpaca_options.Prelude.{◌≡◌, refl, false, Option, none, some, List, [], ◌∷◌, inl, inr}
use swiftward_alpaca_options.Prelude.Int.{ℤ, pos, neg, scale, min, ◌+ℤ◌, ◌-ℤ◌}
use swiftward_alpaca_options.Prelude.Frac.{whole, plus}
use swiftward_alpaca_options.Prelude.Text.{Text, codes, text_eq, trim_space, to_upper, to_lower}
use swiftward_alpaca_options.Market.Symbol.{
  parse_date, parse_digits, digits_from, two_digits, year_of,
}
use swiftward_alpaca_options.Market.Exposure.{highest}
use swiftward_alpaca_options.Market.Payoff.{intrinsic, least, net_calls, payoff}
use swiftward_alpaca_options.Execution.Name.{split_by}
use swiftward_alpaca_options.Arena.Order.{
  buy, Status, Reason, Order, parse_count, contracts_in, cut_equals, turn_in, turn_of,
}
use swiftward_alpaca_options.Arena.Order.{Status, Reason}
use swiftward_alpaca_options.Arena.Contract.{parse_occ, read_occ}
use swiftward_alpaca_options.Arena.Risk.{
  requirement, worst, groups_from, worst_of_groups, add_stake, key_eq, shares_from, worst_of_group,
}
use swiftward_alpaca_options.Arena.Account.{held_only, hold_all, hold, add_standing}
use swiftward_alpaca_options.Arena.Book.{reserved, submit}
use swiftward_alpaca_options.Arena.Day.{by_client_id, find_client}
use swiftward_alpaca_options.Arena.Match.{Quote}
use swiftward_alpaca_options.Arena.Tools.{
  OrderArgs, Session, Rejection, read_leg, read_legs, legs_of, place_asked, place_order,
}
use swiftward_alpaca_options.Arena.Tools.Placed.{IsPlaced, place_order-IsPlaced, place_order_once}
use swiftward_alpaca_options.Arena.Tests.{bought, start}

abbrev sent : OrderArgs
sent = record {
  quantity = codes "2";
  kind = codes "limit";
  time_in_force = [];
  symbol = codes " spy261218p00490000";
  side = codes "Buy";
  position_intent = codes "buy_to_open";
  limit_price = codes "1.00";
  client_order_id = codes "turn=7";
  legs = [];
}

abbrev parse_float : Text → Option ℤ
parse_float s = some (pos 1000)

abbrev session : Option Session
session = some (record { now = 100; next_close = some 1000 })

abbrev market : List Text → Option (Text → Option Quote)
market symbols = some (λ symbol.
    some
      (record { bid = pos 900; ask = pos 1010; bid_size = pos 5; ask_size = pos 7; at = some 90 }))

abbrev accepted : Order
accepted = record {
  id = codes "a";
  client_id = codes "turn=7";
  turn_ref = codes "7";
  status = Status.new;
  quantity = 2;
  filled_quantity = 0;
  limit = pos 1000;
  market = false;
  filled_average = whole (pos 0);
  fees = 0;
  stand = false;
  time_in_force = codes "day";
  legs =
      record { symbol = bought; side = buy; ratio = 1; position_intent = codes "buy_to_open" } ∷ [];
  submitted_at = some 100;
  filled_at = none;
  canceled_at = none;
  expires_at = some 1000;
  replaced_by = [];
  replaces = [];
  why = Reason.no_reason;
  seq = 1;
}

is_accepted : (place_order parse_float session market 20 sent start (codes "a")).1 ≡ inr accepted
unfolding place_order place_asked legs_of read_legs read_leg parse_count by_client_id find_client
    to_upper to_lower requirement worst groups_from worst_of_groups add_stake key_eq shares_from
    worst_of_group reserved submit held_only hold_all hold add_standing text_eq trim_space neg min
    scale ◌+ℤ◌ ◌-ℤ◌ parse_occ read_occ parse_date parse_digits digits_from two_digits year_of
    contracts_in cut_equals turn_in turn_of split_by highest intrinsic least net_calls payoff plus
is_accepted = refl

place_order-IsPlaced_example :
    IsPlaced sent start
      (place_order parse_float session market 20 sent start (codes "a")).0
      accepted
place_order-IsPlaced_example =
    place_order-IsPlaced parse_float session market 20 sent start (codes "a") accepted is_accepted

place_order_once_example :
    (why : Rejection) × (place_order parse_float session market 20 sent
        (place_order parse_float session market 20 sent start (codes "a")).0
        (codes "b")
      ≡ ((place_order parse_float session market 20 sent start (codes "a")).0, inl why))
place_order_once_example =
    place_order_once parse_float session session market market 20 sent sent start (codes "a")
      (codes "b") accepted b't' (codes "urn=7") refl refl is_accepted
