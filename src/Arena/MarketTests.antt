-- ===== src/Arena/MarketTests.antt =====
-- The theorems about the matcher, settlement and names, applied to a vertical at a quote.
use swiftward_alpaca_options.Prelude.{
  ◌≡◌, refl, true, false, arith, Option, none, some, [], ◌∷◌, ◌%◌, All, map,
}
use swiftward_alpaca_options.Prelude.Int.{pos, negsuc, neg, ◌+ℤ◌, ◌≤ℤ◌, scale}
use swiftward_alpaca_options.Prelude.Text.{Text, codes, text_eq, trim_space}
use swiftward_alpaca_options.Market.Symbol.{
  put, contract_from, underlying, parse_date, parse_digits, digits_from, two_digits, year_of,
}
use swiftward_alpaca_options.Market.Payoff.{intrinsic}
use swiftward_alpaca_options.Execution.Name.{
  split_by, is_semicolon, join, drop_stamp, show, fits, is_empty, name_carrying, is_int64,
  show_from,
}
use swiftward_alpaca_options.Arena.Order.{option, equity, turn_of}
use swiftward_alpaca_options.Arena.Order.Turn.{turn_of-name_carrying}
use swiftward_alpaca_options.Arena.Contract.{Occ, parse_occ, read_occ}
use swiftward_alpaca_options.Arena.Contract.Same.{as_contract, contract_from-parse_occ}
use swiftward_alpaca_options.Arena.Risk.{unbounded}
use swiftward_alpaca_options.Arena.Risk.Limitless.{unbounded_explains}
use swiftward_alpaca_options.Arena.Book.{Book, find_order}
use swiftward_alpaca_options.Arena.Day.{expire_day}
use swiftward_alpaca_options.Arena.Day.Expired.{expire_day_again}
use swiftward_alpaca_options.Arena.Expiry.{find_position, settle}
use swiftward_alpaca_options.Arena.Expiry.Conserved.{settle-wealth}
use swiftward_alpaca_options.Arena.Expiry.Holdings.{wealth}
use swiftward_alpaca_options.Arena.Match.{
  Quote, Tally, tallied, executable, tally_legs, left_on, fill_order,
}
use swiftward_alpaca_options.Arena.Match.Fair.{
  reversed, Holds, executable_round_trip, executable_room,
}
use swiftward_alpaca_options.Arena.Match.Limit.{IsWithin, fill_order-IsWithin}
use swiftward_alpaca_options.Arena.Tests.{
  sold, bought, position, vertical, naked, legs, order, start, loses_without_end,
}
use mathlib.Core.Logic.{◌≢◌}

abbrev quotes : Text → Option Quote
quotes symbol =
    some
      (record { bid = pos 1000; ask = pos 1010; bid_size = pos 5; ask_size = pos 7; at = some 90 })

abbrev opening : Tally
opening = record {
  price = pos 10;
  sets = pos 5;
  leg_price = (bought, pos 1010) ∷ (sold, pos 1000) ∷ [];
}

abbrev closing : Tally
closing = record {
  price = pos 10;
  sets = pos 5;
  leg_price = (bought, pos 1000) ∷ (sold, pos 1010) ∷ [];
}

opens : executable false 20 100 quotes [] legs ≡ tallied opening
unfolding executable tally_legs left_on ◌+ℤ◌ scale neg
opens = refl

closes : executable false 20 100 quotes [] (map reversed legs) ≡ tallied closing
unfolding executable tally_legs left_on ◌+ℤ◌ scale neg
closes = refl

executable_round_trip_example : pos 0 ≤ℤ opening.price +ℤ closing.price
executable_round_trip_example =
    executable_round_trip false 20 100 quotes [] legs opening closing opens closes

executable_room_example :
    (pos 0 ≤ℤ opening.sets)
    × All (λ leg. Holds false 20 100 quotes [] opening.sets leg (quotes leg.symbol)) legs
unfolding left_on
executable_room_example =
    executable_room false 20 100 quotes [] legs opening (omega arith, (omega arith, tt)) opens

fill_order-IsWithin_example :
    IsWithin quotes order
      (record start { orders = order ∷ [] })
      (fill_order false 20 100 quotes (record start { orders = order ∷ [] }) order []).0
unfolding find_order text_eq
fill_order-IsWithin_example =
    fill_order-IsWithin false 20 100 quotes (record start { orders = order ∷ [] }) order [] refl

expire_day_again_example :
    expire_day (expire_day (record start { orders = order ∷ [] }) 2000).0 1500
    ≡ ((expire_day (record start { orders = order ∷ [] }) 2000).0, [])
expire_day_again_example =
    expire_day_again (record start { orders = order ∷ [] }) 2000 1500 (omega arith)

unbounded_explains_example : unbounded naked ≢ []
unbounded_explains_example = unbounded_explains naked (named, tt) loses_without_end
  where
    named : option ≡ equity → parse_occ (codes "SPY261218C00500000") ≡ none
    named e = cc

abbrev contract : Occ
contract = record {
  root = codes "SPY";
  expiry = codes "261218";
  kind = put;
  strike = 500000;
  expires = record { year = 2026; month = 12; day = 18 };
}

sold_read : parse_occ sold ≡ some contract
unfolding parse_occ read_occ parse_date parse_digits digits_from two_digits year_of trim_space
    text_eq
sold_read = refl

contract_from-parse_occ_example :
    (contract_from sold ≡ some (as_contract (trim_space sold) contract))
    × (underlying (as_contract (trim_space sold) contract) ≡ codes "SPY")
contract_from-parse_occ_example = contract_from-parse_occ sold contract sold_read

abbrev holding : Book
holding = record start { positions = vertical }

held : find_position sold holding.positions ≡ some (position sold (negsuc 0))
unfolding find_position text_eq
held = refl

cents : intrinsic put 500000 480010 % 10 ≡ 0
unfolding intrinsic
cents = refl

settle-wealth_example :
    wealth (λ _. 480010) (settle holding sold 480010 9).0 ≡ wealth (λ _. 480010) holding
unfolding text_eq
settle-wealth_example =
    settle-wealth (λ _. 480010) holding sold (position sold (negsuc 0)) contract 9 held refl
      sold_read ((refl, tt), (tt, tt)) ((λ e. cc), ((λ e. cc), tt)) cents

abbrev name : Text
name = codes "worst=-1.00;turn=7;5"

kept_some : is_empty (join (drop_stamp (split_by is_semicolon name))) ≡ false
unfolding join drop_stamp split_by is_int64 trim_space
kept_some = refl

kept_fits : fits (join (drop_stamp (split_by is_semicolon name))) (show 12 []) ≡ true
unfolding join drop_stamp split_by is_int64 trim_space show show_from
kept_fits = refl

turn_of-name_carrying_example : turn_of (name_carrying name 12) ≡ turn_of name
turn_of-name_carrying_example = turn_of-name_carrying name 12 kept_some kept_fits
