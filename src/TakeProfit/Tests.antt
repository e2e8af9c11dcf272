-- ===== src/TakeProfit/Tests.antt =====
-- The theorems about closing orders, applied to six sets of a vertical.
use swiftward_alpaca_options.TakeProfit.Closes.{Rightful, consider-Rightful}
use swiftward_alpaca_options.TakeProfit.Watch.{
  Broker, State, consider, consider_all, expired, sent_lately, close_sent, placed_recorded,
  closing_name, share_of,
}
use swiftward_alpaca_options.TakeProfit.Rest.{Pass, passes, consider_rests}
use swiftward_alpaca_options.TakeProfit.Group.{name_of}
use swiftward_alpaca_options.TakeProfit.Group.{Structure}
use swiftward_alpaca_options.Market.Symbol.{put, Date}
use swiftward_alpaca_options.Prelude.Frac.{Frac}
use swiftward_alpaca_options.Prelude.{true, false, none}
use swiftward_alpaca_options.Prelude.{ℕ, ◌≡◌, refl, sym, arith, List, [], ◌∷◌, some, All}
use swiftward_alpaca_options.Prelude.Int.{ℤ, pos, negsuc, abs, scale, ◌+ℤ◌, neg}
use swiftward_alpaca_options.Prelude.Text.{Text, codes}
use swiftward_alpaca_options.Market.Order.{Position}
use swiftward_alpaca_options.TakeProfit.{
  sets_in, Closing, closing_of, sets_from, gcd, gcd_from, buy_back, cost_of,
}
use swiftward_alpaca_options.TakeProfit.Sets.{sets_in-greatest, Flattens, closing_of-Flattens}
use Prim.Native.Nat.{◌∣◌}

abbrev position : Text → ℤ → Position
position symbol quantity = record {
  symbol = symbol;
  asset_class = codes "us_option";
  quantity = quantity;
  average_entry_price = pos 2000;
  cost_basis = pos 0;
}

abbrev six : List Position
six =
    position (codes "SPY261218P00500000") (negsuc 5)
    ∷ position (codes "SPY261218P00490000") (pos 12)
    ∷ []

sets_of_six : sets_in six ≡ 6
unfolding sets_in sets_from gcd gcd_from
sets_of_six = refl

sets_in-greatest_example :
    All (λ leg. sets_in six ∣ abs leg.quantity) six
    × ((d : ℕ) → All (λ leg. d ∣ abs leg.quantity) six → d ∣ sets_in six)
sets_in-greatest_example = sets_in-greatest six (rw sets_of_six (omega arith))

closing_of-Flattens_example :
    (order : List Closing) × (closing_of (sets_in six) six ≡ some order)
    × Flattens (sets_in six) six order
closing_of-Flattens_example = closing_of-Flattens six (rw sets_of_six (omega arith))

-- The contract that was sold costs 0.30, and the one that was bought brings 0.10.
abbrev broker : Broker
broker = record {
  quotes =
      λ call symbols. some (λ symbol. some (record { bid = pos 100; ask = pos 300; delta = none }));
  close_structure = λ call legs sets cost name. some (codes "close");
}

abbrev paired : Structure
paired = record {
  key = record {
    underlying = codes "SPY";
    expiration = record { year = 2026; month = 12; day = 18 };
    kind = put;
  };
  legs = six;
  credit = record { num = pos 5000; den = 6 };
  sets = 6;
}

abbrev half : Frac
half = record { num = pos 1; den = 2 }

abbrev idle : State
idle = record { sent = []; declined = []; effects = [] }

abbrev day : Date
day = record { year = 2026; month = 12; day = 1 }

consider-Rightful_example :
    All
      (Rightful broker 1000 day [] half idle paired)
      (consider broker true 1000 day [] half idle paired).effects
consider-Rightful_example =
    consider-Rightful broker true 1000 day [] half paired idle
      (Rightful broker 1000 day [] half idle paired) (sym sets_of_six) (omega arith)
      (λ e right. right) tt

abbrev cost : Frac
cost = record { num = pos 600; den = 6 }

abbrev closing : List Closing
closing =
    record { symbol = codes "SPY261218P00500000"; ratio = 1; buy = true }
    ∷ record { symbol = codes "SPY261218P00490000"; ratio = 2; buy = false }
    ∷ []

-- The close is accepted, and recorded.
was_closed :
    (consider broker true 1000 day [] half idle paired).effects
    ≡ close_sent closing 6 cost
        (closing_name (share_of paired.credit half) (name_of paired.key) 1000)
        (some (codes "close"))
      ∷ placed_recorded (codes "close") cost
      ∷ []
unfolding consider expired sent_lately buy_back cost_of scale ◌+ℤ◌ neg sets_in sets_from gcd
    gcd_from closing_of
was_closed = refl

abbrev next_pass : Pass
next_pass = record {
  broker = broker;
  recording = true;
  now = 2000;
  today = day;
  held = some six;
  orders = some [];
  at = some half;
}

consider_rests_example :
    let after =
      passes
        (consider_all broker true 1000 day [] half
          (consider broker true 1000 day [] half idle paired)
          [])
        (next_pass ∷ []) in
    consider broker true 3000 day [] half after paired ≡ after
consider_rests_example =
    consider_rests broker true 1000 day [] half idle paired closing 6 cost
      (closing_name (share_of paired.credit half) (name_of paired.key) 1000) (codes "close")
      (placed_recorded (codes "close") cost ∷ []) [] (next_pass ∷ []) broker true 3000 day [] half
      paired was_closed (omega arith, tt) refl (omega arith)
