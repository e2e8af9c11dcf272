-- ===== src/Execution/Sample.antt =====
-- An order that rests, a broker that takes every call, and the settings, for the tests of the
-- ladder.
use swiftward_alpaca_options.Prelude.{true, false, Option, none, some, List, [], ◌∷◌, if◌then◌else◌}
use swiftward_alpaca_options.Prelude.Int.{pos, negsuc}
use swiftward_alpaca_options.Prelude.Text.{Text, codes, text_eq}
use swiftward_alpaca_options.Market.Order.{Quote, Status, Side, Class, Leg, Order}
use swiftward_alpaca_options.Execution.Price.{to_arrive}
use swiftward_alpaca_options.Execution.Ages.{Age, Ages}
use swiftward_alpaca_options.Execution.Ladder.{Config, Broker}

abbrev pub leg : Text → Side → Text → Leg
leg symbol side intent = record {
  symbol = symbol;
  side = side;
  position_intent = intent;
  quantity = 0;
  ratio = 1;
}

abbrev pub order : Text → List Leg → Order
order client_id legs = record {
  id = codes "one";
  client_id = client_id;
  symbol = [];
  class = Class.mleg;
  status = Status.new;
  quantity = 1;
  filled_quantity = 0;
  limit_price = negsuc 1199;
  submitted_at = some 1000;
  legs = legs;
}

-- A put vertical is sold for a credit of 1.20; the session takes 1.00 at the least.
abbrev pub vertical : Order
vertical = order (codes "worst=-1.00;1") (
    leg (codes "SPY261218P00500000") Side.sell (codes "sell_to_open")
    ∷ leg (codes "SPY261218P00490000") Side.other (codes "buy_to_open")
    ∷ [])

abbrev pub naked : Order
naked =
    order (codes "naked") (leg (codes "SPY261218C00500000") Side.sell (codes "sell_to_open") ∷ [])

abbrev pub age : Age
age = record { placed = 1000; moved_on = 0 }

abbrev pub ages : Ages
ages = (codes "one", age) ∷ []

abbrev pub next : Order
next = record vertical { id = codes "two"; submitted_at = some 90000 }

abbrev pub config : Config
config = record {
  every = 60;
  patience = 600;
  tick = 10;
  kind = to_arrive;
  recording = true;
  waking = true;
  min_edge = none;
}

abbrev pub quote_of : Text → Option Quote
quote_of symbol =
    if text_eq symbol (codes "SPY261218P00500000")
    then some (record { bid = pos 2100; ask = pos 2200; delta = none })
    else some (record { bid = pos 1000; ask = pos 1050; delta = none })

-- A broker that takes every call; the vertical shows at a credit of 1.05.
abbrev pub broker : Broker
broker = record {
  quotes = λ call symbols. some quote_of;
  cancel = λ call id. true;
  replace = λ call id price name. some (codes "two");
  note_fill = λ call id. some true;
  news = λ order. false;
}
