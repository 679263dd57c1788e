-- ===== src/Execution/Structures/Tests.antt =====
-- Structures and simulated fills on concrete books, at the mock broker.
use mathlib.Core.List.Memᴰ.{head, tail}
use ai_trading_system.Base.{
  ◌+◌, ◌<◌, ◌≡◌, refl, true, false, none, some, [], ◌∷◌, arith, is_some, ◌==◌, if◌then◌else◌,
}
use ai_trading_system.Base.Int.{◌+ℤ◌, ◌-ℤ◌, pos_part, neg_part}
use ai_trading_system.Base.Dict.{lookup}
use ai_trading_system.Broker.{buy, sell, raised}
use ai_trading_system.Broker.MockBroker.{completes, MockBroker}
use ai_trading_system.Broker.MockBroker.AsAdapter.{mock_adapter}
use ai_trading_system.Common.State.{paper}
use ai_trading_system.Common.RuntimeMode.{load_runtime_mode, legacy_mode, derive_for_mode}
use ai_trading_system.Execution.Costs.{fno, ce}
use ai_trading_system.Execution.Executor.{Position}
use ai_trading_system.Execution.Executor.Samples.{setup, world_of, a_position}
use ai_trading_system.Execution.Executor.Settled.{is_open_row}
use ai_trading_system.Execution.Simulator.{fill_price}
use ai_trading_system.Execution.Simulator.Bounds.{IsFair, fill_price-IsFair}
use ai_trading_system.Execution.Structures.{
  vertical, Leg, StructureGuard, fill_based_risk, structure_width, net_premium,
}
use ai_trading_system.Execution.Structures.Opening.{
  Ask, Desk, Market, LegRow, open_structure, leg_unresolved,
}
use ai_trading_system.Execution.Structures.Closing.{ExitRules}
use ai_trading_system.Execution.Structures.Rebuild.{rebuild_structures}
use ai_trading_system.Execution.Structures.Risk.{
  IsBetween, expiry_pnl, fill_based_risk-IsBetween, fill_based_risk_understated,
}
use ai_trading_system.Execution.Structures.Unwound.{open_structure-rejected}
use ai_trading_system.Execution.Structures.Postponed.{attempts, attempts-is_some}
use ai_trading_system.Execution.Structures.Covered.{IsManaged, rebuild_structures-IsManaged}

-- two levels of asks; 15 units walk both
fill_price-IsFair_example : IsFair buy 50_000 1_000_000 1_007_200
unfolding fill_price
fill_price-IsFair_example =
    fill_price-IsFair buy 50_000 15 1_000_000 1_007_200 (record { price = 1_000_000; quantity = 5 })
      (record { price = 1_010_000; quantity = 100 } ∷ []) none (omega arith) refl

-- a call credit spread of 75 units, its strikes 50 apart, for 20 received; a spot of 30 above
abbrev bought_leg : Leg
bought_leg = record {
  position_id = 2;
  token = 11;
  tradingsymbol = 101;
  side = buy;
  qty = 75;
  entry = 300_000;
  fees = 0;
}

abbrev sold_leg : Leg
sold_leg = record bought_leg {
  position_id = 3;
  token = 12;
  tradingsymbol = 102;
  side = sell;
  entry = 500_000;
}

fill_based_risk-IsBetween_example :
    let (net, loss, profit) =
      fill_based_risk (vertical true ce 1_500_000 1_000_000) (bought_leg ∷ sold_leg ∷ []) in
    IsBetween (expiry_pnl ce 1_500_000 1_000_000 1_300_000 bought_leg sold_leg) loss profit
unfolding net_premium ◌+ℤ◌ ◌-ℤ◌
fill_based_risk-IsBetween_example =
    fill_based_risk-IsBetween true ce 1_500_000 1_000_000 1_300_000 bought_leg sold_leg
      (record { is_bought = refl; is_sold = refl; same_qty = refl }) (omega arith) tt

-- the same spread, filled for 20 paid
abbrev cheap_leg : Leg
cheap_leg = record sold_leg { entry = 100_000 }

fill_based_risk_understated_example :
    let p = expiry_pnl ce 1_500_000 1_000_000 1_600_000 bought_leg cheap_leg in
    pos_part p
      + (fill_based_risk (vertical true ce 1_500_000 1_000_000) (bought_leg ∷ cheap_leg ∷ [])).1
    < neg_part p
unfolding net_premium structure_width ◌+ℤ◌ ◌-ℤ◌
fill_based_risk_understated_example =
    fill_based_risk_understated 1_500_000 1_000_000 1_600_000 14_999_999 bought_leg cheap_leg
      (record { is_bought = refl; is_sold = refl; same_qty = refl }) (omega arith) (omega arith)
      (omega arith) refl (omega arith)

abbrev a_guard : StructureGuard
a_guard = record {
  correlation_id = 9;
  name = 5;
  is_credit = true;
  legs = bought_leg ∷ sold_leg ∷ [];
  max_loss_total = 22_500_000;
  max_profit_total = 15_000_000;
  entry_fees = 0;
  target_fraction = 5_000;
  stop_fraction = 5_000;
  expiry = some 40;
  opened_on = some 12;
  exit_retries = 0;
}

abbrev a_row : LegRow
a_row = record {
  correlation_id = 9;
  r_rupees = some 11_250_000;
  structure_meta = some (record {
    name = 5;
    is_credit = true;
    max_loss_total = 22_500_000;
    max_profit_total = 15_000_000;
    entry_fees_total = 0;
    target_fraction = 5_000;
    stop_fraction = 5_000;
    expiry = some 40;
    opened_on = some 12;
  });
}

abbrev option_row : Position
option_row = record a_position { mode = paper; sleeve = fno; instrument_token = some 11 }

abbrev a_desk : Desk MockBroker
a_desk = record {
  world = record (world_of paper completes) {
    positions = (1, option_row) ∷ (2, option_row) ∷ [];
    next_id = 4;
  };
  leg_rows = (2, a_row) ∷ [];
  structures = record { by_corr = []; by_token = [] };
}

abbrev rules : ExitRules
rules = record {
  max_book_spread_pct = 80_000;
  max_close_loss_overrun = 11_500;
  max_exit_retries = 2;
  slippage = 50_000;
}

-- the desk that holds the guard
abbrev guarded : Desk MockBroker
guarded = record a_desk { structures = record { by_corr = (9, a_guard) ∷ []; by_token = [] } }

attempts-is_some_example :
    is_some
      (attempts mock_adapter setup
        (λ t b. (none, b))
        rules
        (λ t. none)
        (raised ∷ raised ∷ raised ∷ [])
        9
        guarded).0
    ≡ true
attempts-is_some_example =
    attempts-is_some mock_adapter setup (λ t b. (none, b)) rules (λ t. none)
      (raised ∷ raised ∷ raised ∷ []) a_guard guarded refl (omega arith) (omega arith)

rebuild_structures-IsManaged_example :
    let (covered, k') = rebuild_structures a_desk in
    IsManaged 2 option_row 9 (covered, k'.structures)
rebuild_structures-IsManaged_example =
    rebuild_structures-IsManaged a_desk 2 option_row a_row
      (record {
        name = 5;
        is_credit = true;
        max_loss_total = 22_500_000;
        max_profit_total = 15_000_000;
        entry_fees_total = 0;
        target_fraction = 5_000;
        stop_fraction = 5_000;
        expiry = some 40;
        opened_on = some 12;
      })
      (tail (head refl)) refl refl refl

-- the long leg is filled, the short one is not in the chain
abbrev thin : Market MockBroker
thin = record {
  resolve = λ opt strike.
      if strike == 1_500_000
      then some (record { instrument_token = 11; tradingsymbol = 101 })
      else none;
  fill = λ token side qty. some 300_000;
  quote = λ token b. (none, b);
}

abbrev an_ask : Ask
an_ask = record {
  name = 5;
  expiry = some 40;
  structure = record {
    shape = vertical true ce 1_500_000 1_000_000;
    max_loss_per_lot = 22_500_000;
  };
  lots = 1;
  lot_size = 75;
  correlation_id = 9;
  instrument = record { lot_size = none; tick_size = none; expiry = none };
  max_fill_risk_overrun = 12_500;
  target_fraction = 5_000;
  stop_fraction = 5_000;
  today = 12;
}

abbrev empty_desk : Desk MockBroker
empty_desk = record a_desk { world = record a_desk.world { positions = [] }; leg_rows = [] }

open_structure-rejected_example :
    let k' = (open_structure mock_adapter setup thin an_ask empty_desk).1 in
    is_open_row (lookup 4 k'.world.positions) ≡ false
unfolding open_structure load_runtime_mode legacy_mode derive_for_mode
open_structure-rejected_example =
    open_structure-rejected mock_adapter setup thin an_ask empty_desk leg_unresolved 4 refl
      (omega arith) given_out
  where
    given_out : 4 < (open_structure mock_adapter setup thin an_ask empty_desk).1.world.next_id
    given_out = let h : 4 < 5 = omega arith in h
