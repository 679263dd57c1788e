-- ===== src/Risk/Engine/Samples.antt =====
-- Sample data for the tests of the risk engine: a book, a desk and an instrument.
use ai_trading_system.Base.{true, false, none, some, [], ◌∷◌}
use ai_trading_system.Base.Int.{pos}
use ai_trading_system.Broker.{nse, returned}
use ai_trading_system.Common.State.{paper, live, ConfigState}
use ai_trading_system.Common.RuntimeMode.{derive_for_mode}
use ai_trading_system.Execution.Costs.{intraday_stocks, other_type}
use ai_trading_system.Risk.Positions.{BookRow}
use ai_trading_system.Risk.Engine.{Desk, Listing}

abbrev pub a_leg : BookRow
a_leg = record {
  is_open = true;
  mode = paper;
  account_id = none;
  correlation_id = some 9;
  instrument_token = some 11;
  tradingsymbol = b'A' ∷ b'B' ∷ [];
  sleeve = intraday_stocks;
  quantity = 100;
  average_price = 1_000_000;
  r_rupees = 20_000_000;
}

abbrev pub live_row : BookRow
live_row = record a_leg { mode = live; correlation_id = some 3 }

abbrev pub calm : ConfigState
calm = record {
  runtime_mode = none;
  execution_mode = some paper;
  kill_switch_active = false;
  block_new_entries = false;
  engine_halted = false;
  engine_paused = false;
}

-- a million rupees; the sleeve may hold a fifth of it, and 10 percent may be at risk in all
abbrev pub a_desk : Desk
a_desk = record {
  config = calm;
  brakes = record {
    period_brake_active = false;
    trade_budget_exhausted = none;
    sleeve_brake = λ s. none;
  };
  today = 12;
  capital = pos 10_000_000_000;
  rows = a_leg ∷ live_row ∷ [];
  runtime = returned (derive_for_mode paper none 1);
  risk = record {
    per_trade_risk_pct = 10_000;
    portfolio_risk_limit_pct = 100_000;
    per_instrument_cap_pct = 200_000;
    per_underlying_risk_pct = 10_000;
    min_risk_utilization = 0;
    max_lots_per_structure = 0;
    sleeve_cap_pct = λ s. some 200_000;
  };
  scale = 10_000;
}

abbrev pub a_listing : Listing
a_listing = record {
  instrument_token = some 70;
  exchange = some nse;
  tradingsymbol = 7;
  instrument_type = other_type;
  lot_size = none;
}
