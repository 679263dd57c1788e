-- ===== src/Risk/Engine/Tests.antt =====
-- The risk engine on concrete books.
use ai_trading_system.Base.{◌≡◌, refl, true, false, none, some, [], ◌∷◌}
use ai_trading_system.Base.Int.{pos, ◌+ℤ◌}
use ai_trading_system.Broker.{buy, returned, raised}
use ai_trading_system.Common.State.{paper, live}
use ai_trading_system.Common.RuntimeMode.{RuntimeModeState, derive_for_mode, use_broker_capital}
use ai_trading_system.Execution.Costs.{intraday_stocks, fno}
use ai_trading_system.Risk.Capital.{Setting, Reads, get_capital, segment_of}
use ai_trading_system.Risk.Capital.Stale.{get_capital-get_capital}
use ai_trading_system.Risk.Sizing.{
  Sized, size_position, per_instrument_cap, sleeve_cap, underlying_cap,
}
use ai_trading_system.Risk.Sizing.Structure.{StructureSize, size_structure}
use ai_trading_system.Risk.Engine.Ask.{size, ask_structure}
use ai_trading_system.Risk.Engine.Gates.{IsReady}
use ai_trading_system.Risk.Engine.Budgets.{
  StaysWithin, size-StaysWithin, StaysCovered, ask_structure-StaysCovered,
}
use ai_trading_system.Risk.Engine.Samples.{a_desk, a_listing}

-- entry 100, stop 98: the sleeve has room for 1900 units of the 5000 of the risk budget
abbrev a_size : Sized
a_size = record {
  quantity = 1900;
  lots = 1900;
  lot_size = 1;
  actual_risk = 38_000_000;
  capital_allocated = 1_900_000_000;
  clamps = per_instrument_cap ∷ sleeve_cap ∷ [];
}

size-StaysWithin_example :
    IsReady a_desk intraday_stocks × StaysWithin a_desk intraday_stocks 1_000_000 980_000 1900
unfolding size derive_for_mode size_position
size-StaysWithin_example =
    size-StaysWithin none a_desk 1_000_000 980_000 a_listing intraday_stocks 10_000 buy a_size refl

abbrev two_lots : StructureSize
two_lots = record {
  lots = 2;
  quantity = 150;
  actual_risk = 60_000_000;
  clamps = underlying_cap ∷ [];
}

ask_structure-StaysCovered_example : IsReady a_desk fno × StaysCovered a_desk (b'a' ∷ []) 60_000_000
unfolding ask_structure derive_for_mode size_structure
ask_structure-StaysCovered_example =
    ask_structure-StaysCovered a_desk 30_000_000 75 fno 10_000 none (b'a' ∷ []) two_lots refl

abbrev in_mode : RuntimeModeState → Setting
in_mode s = record {
  static_capital = some 10_000_000_000;
  compound = true;
  mode_provider = some (returned s);
}

abbrev some_reads : Reads
some_reads = record {
  realized = λ s. returned (pos 5_000_000);
  equity = returned (record { net = some (pos 20_000); live_balance = none });
  commodity = raised;
}

get_capital-get_capital_example :
    let paper_desk = in_mode (derive_for_mode paper none 1) in
    let live_desk = in_mode (derive_for_mode live (some 4) 2) in
    let (amount, cache') = get_capital paper_desk some_reads false none in
    ((get_capital live_desk some_reads false cache').0 ≡ amount)
    × ((get_capital live_desk some_reads true cache').0
        ≡ segment_of some_reads.equity +ℤ segment_of some_reads.commodity)
unfolding derive_for_mode use_broker_capital
get_capital-get_capital_example =
    get_capital-get_capital (in_mode (derive_for_mode paper none 1))
      (in_mode (derive_for_mode live (some 4) 2)) some_reads some_reads false none refl refl refl
