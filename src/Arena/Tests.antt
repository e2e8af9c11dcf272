-- ===== src/Arena/Tests.antt =====
-- The theorems about the arena, applied to a book that sells a vertical.
use swiftward_alpaca_options.Market.Payoff.{net_calls}
use swiftward_alpaca_options.Market.Symbol.{parse_date, parse_digits}
use swiftward_alpaca_options.Prelude.{
  ℕ, ◌≡◌, refl, false, arith, none, some, List, [], ◌∷◌, inr, All,
}
use swiftward_alpaca_options.Prelude.Int.{ℤ, pos, negsuc, neg, ◌+ℤ◌, ◌≤ℤ◌, ◌<ℤ◌, scale}
use swiftward_alpaca_options.Prelude.Frac.{whole}
use swiftward_alpaca_options.Prelude.Text.{Text, codes, trim_space}
use swiftward_alpaca_options.Arena.Order.{option, buy, sell, Leg, Position, Status, Reason, Order}
use swiftward_alpaca_options.Arena.Order.{Status, Reason}
use swiftward_alpaca_options.Arena.Contract.{parse_occ, read_occ}
use swiftward_alpaca_options.Arena.Risk.{
  Key, worst, amount, limitless, groups_from, worst_of_groups, add_stake,
}
use swiftward_alpaca_options.Arena.Risk.Groups.{value}
use swiftward_alpaca_options.Arena.Risk.Exact.{worst_exact}
use swiftward_alpaca_options.Arena.Risk.Limitless.{worst_limitless}
use swiftward_alpaca_options.Arena.Account.{apply, project}
use swiftward_alpaca_options.Arena.Risk.Held.{value-apply-project}
use swiftward_alpaca_options.Arena.Book.{Book, new_book, submit, find_order}
use swiftward_alpaca_options.Arena.Book.Calls.{
  Call, submits, fills, cancels, replaces, run, IsProper,
}
use swiftward_alpaca_options.Arena.Book.Sound.{AreSound, run-AreSound}
use swiftward_alpaca_options.Arena.Book.Final.{Keeps, run-Keeps}
use swiftward_alpaca_options.Arena.Book.Solvent.{IsSolvent, run-IsSolvent}
use swiftward_alpaca_options.Arena.Book.Backed.{IsBacked, submit-IsBacked}
use swiftward_alpaca_options.Arena.Risk.{requirement, key_eq, shares_from, worst_of_group}
use swiftward_alpaca_options.Arena.Book.{reserved}
use swiftward_alpaca_options.Arena.Account.{held_only, hold_all, hold, add_standing}
use swiftward_alpaca_options.Prelude.Text.{text_eq}
use swiftward_alpaca_options.Prelude.Int.{min, ◌-ℤ◌}
use swiftward_alpaca_options.Market.Symbol.{digits_from, two_digits, year_of}
use swiftward_alpaca_options.Arena.Order.{contracts_in, cut_equals, turn_in, turn_of}
use swiftward_alpaca_options.Execution.Name.{split_by}
use swiftward_alpaca_options.Market.Exposure.{highest}
use swiftward_alpaca_options.Market.Payoff.{intrinsic, least, payoff}
use swiftward_alpaca_options.Prelude.Frac.{plus}
use swiftward_alpaca_options.Arena.Amend.{replace, replace_found}
use swiftward_alpaca_options.Arena.Book.Moved.{IsSuccessor, replace-IsSuccessor}

abbrev pub sold : Text
sold = codes "SPY261218P00500000"

abbrev pub bought : Text
bought = codes "SPY261218P00490000"

abbrev pub position : Text → ℤ → Position
position symbol quantity = record {
  symbol = symbol;
  quantity = quantity;
  average_price = whole (pos 2000);
  class = option;
  mark = pos 2000;
}

abbrev pub vertical : List Position
vertical = position sold (negsuc 0) ∷ position bought (pos 1) ∷ []

abbrev pub naked : List Position
naked = position (codes "SPY261218C00500000") (negsuc 0) ∷ []

-- The distance of the strikes, a hundred times.
loses_a_million : worst vertical ≡ some (amount (neg (pos 1000000)))
unfolding worst groups_from worst_of_groups add_stake key_eq worst_of_group parse_occ read_occ
    parse_date parse_digits digits_from two_digits year_of trim_space text_eq highest intrinsic
    least net_calls payoff neg min scale ◌+ℤ◌
loses_a_million = refl

pub loses_without_end : worst naked ≡ some limitless
unfolding worst groups_from worst_of_groups add_stake key_eq worst_of_group parse_occ read_occ
    parse_date parse_digits digits_from two_digits year_of trim_space text_eq highest intrinsic
    least net_calls payoff neg min scale ◌+ℤ◌
loses_without_end = refl

worst_exact_example :
    ((prices : Key → ℕ) → neg (pos 1000000) ≤ℤ value prices vertical)
    × ((prices : Key → ℕ) × (neg (pos 1000000) ≡ value prices vertical))
worst_exact_example = worst_exact vertical (neg (pos 1000000)) loses_a_million

worst_limitless_example : (prices : Key → ℕ) × (value prices naked <ℤ neg (pos 1000000000))
worst_limitless_example = worst_limitless naked (neg (pos 1000000000)) loses_without_end

abbrev pub legs : List Leg
legs =
    record { symbol = sold; side = sell; ratio = 1; position_intent = codes "sell_to_open" }
    ∷ record { symbol = bought; side = buy; ratio = 1; position_intent = codes "buy_to_open" }
    ∷ []

value-apply-project_example :
    value (λ _. 480000) (apply legs 2 (λ _. pos 1000) vertical)
    ≡ value (λ _. 480000) (project vertical legs 2)
value-apply-project_example =
    value-apply-project (λ _. 480000) vertical legs 2 (λ _. pos 1000) (refl, (refl, tt))

-- Two verticals, for a credit of a dollar at least.
abbrev pub order : Order
order = record {
  id = codes "a";
  client_id = codes "turn=7";
  turn_ref = [];
  status = Status.new;
  quantity = 2;
  filled_quantity = 0;
  limit = neg (pos 1000);
  market = false;
  filled_average = whole (pos 0);
  fees = 0;
  stand = false;
  time_in_force = codes "day";
  legs = legs;
  submitted_at = some 100;
  filled_at = none;
  canceled_at = none;
  expires_at = some 1000;
  replaced_by = [];
  replaces = [];
  why = Reason.no_reason;
  seq = 0;
}

abbrev calls : List Call
calls =
    submits order (codes "a")
    ∷ fills (codes "a") 1 (neg (pos 1100)) (λ _. pos 2000) 200
    ∷ replaces (codes "a") (neg (pos 900)) [] 0 (codes "b") 300
    ∷ cancels (codes "b") 400
    ∷ []

proper : All IsProper calls
proper = ((refl, omega arith), (tt, (tt, (tt, tt))))

abbrev pub start : Book
start = new_book (pos 100000000)

run-AreSound_example : AreSound (run start calls)
run-AreSound_example = run-AreSound start calls proper tt

solvent : IsSolvent start
unfolding value ◌+ℤ◌
solvent = (tt, λ prices. omega arith)

run-IsSolvent_example : IsSolvent (run start calls)
run-IsSolvent_example = run-IsSolvent start calls (tt, (tt, (tt, (tt, tt)))) solvent

abbrev placed : Order
placed = record order { turn_ref = codes "7"; seq = 1 }

accepted : (submit start order (codes "a")).1 ≡ inr placed
unfolding requirement worst groups_from worst_of_groups add_stake key_eq shares_from worst_of_group
    reserved submit held_only hold_all hold add_standing text_eq trim_space neg min scale ◌+ℤ◌ ◌-ℤ◌
    parse_occ read_occ parse_date parse_digits digits_from two_digits year_of contracts_in
    cut_equals turn_in turn_of split_by highest intrinsic least net_calls payoff plus
accepted = refl

submit-IsBacked_example : IsBacked (submit start order (codes "a")).0
submit-IsBacked_example = submit-IsBacked start order placed (codes "a") refl tt accepted

-- The order, cancelled before anything filled.
abbrev old : Order
old = record placed { status = Status.canceled; canceled_at = some 150; why = Reason.cancelled }

abbrev closed_book : Book
closed_book = record start { orders = old ∷ []; seq = 1 }

canceled_found : find_order (codes "a") closed_book.orders ≡ some old
unfolding find_order text_eq
canceled_found = refl

run-Keeps_example : Keeps (codes "a") old (run closed_book calls).orders
run-Keeps_example = run-Keeps calls closed_book (codes "a") old canceled_found refl

-- One of two sets is filled.
abbrev partial : Order
partial = record placed { status = Status.partially_filled; filled_quantity = 1 }

abbrev partial_book : Book
partial_book = record start { orders = partial ∷ []; seq = 1 }

-- The other one, for ninety cents.
abbrev successor : Order
successor = record placed {
  id = codes "b";
  quantity = 1;
  limit = neg (pos 900);
  submitted_at = some 300;
  replaces = codes "a";
  seq = 2;
}

is_moved : (replace partial_book (codes "a") (neg (pos 900)) [] 0 (codes "b") 300).1 ≡ inr successor
unfolding requirement worst groups_from worst_of_groups add_stake key_eq shares_from worst_of_group
    reserved submit replace replace_found find_order held_only hold_all hold add_standing text_eq
    trim_space neg min scale ◌+ℤ◌ ◌-ℤ◌ parse_occ read_occ parse_date parse_digits digits_from
    two_digits year_of contracts_in cut_equals turn_in turn_of split_by highest intrinsic least
    net_calls payoff plus
is_moved = refl

replace-IsSuccessor_example :
    (old : Order) × (find_order (codes "a") partial_book.orders ≡ some old)
    × IsSuccessor partial_book
        (replace partial_book (codes "a") (neg (pos 900)) [] 0 (codes "b") 300).0
        old
        (neg (pos 900))
        0
        300
        successor
replace-IsSuccessor_example =
    replace-IsSuccessor partial_book (neg (pos 900)) [] 0 (codes "b") 300 successor (codes "a")
      is_moved
