-- ===== src/Execution/Executor/Samples.antt =====
-- Sample data for the tests of the execution layer: a setup, a decision, and a world at the mock
-- broker.
use ai_trading_system.Base.{false, none, some, [], ◌∷◌}
use ai_trading_system.Broker.{buy, nse, mis, market}
use ai_trading_system.Broker.MockBroker.{Scenario, MockBroker}
use ai_trading_system.Common.State.{Mode, live, ConfigState}
use ai_trading_system.Execution.Costs.{intraday_stocks, other_type, CostModel}
use ai_trading_system.Execution.Guards.{no_guards}
use ai_trading_system.Execution.Events.{row_open}
use ai_trading_system.Execution.Executor.{Decision, Setup, Position, World}

abbrev pub no_fees : CostModel
no_fees segment = record {
  brokerage_flat = some 0;
  brokerage_pct = 0;
  brokerage_flat_cap = none;
  stt_pct = 0;
  ctt_pct = 0;
  exchange_txn_pct = 0;
  sebi_per_cr = 0;
  stamp_pct = 0;
  gst_pct = 0;
}

abbrev pub setup : Setup
setup = record {
  default_clip = 4;
  hard_exit = λ sleeve. some 915;
  dynamic_exit = record {
    breakeven_at_r = 10_000;
    lock_trigger_frac = 5_000;
    max_giveback_frac = 3_500;
  };
  stop_order_type = market;
  cost_model = no_fees;
  get_instrument = λ token. none;
  today = 12;
}

abbrev pub buy_ten : Decision
buy_ten = record {
  sleeve = intraday_stocks;
  exchange = some nse;
  tradingsymbol = 7;
  instrument_token = some 70;
  instrument_type = other_type;
  instrument = record { lot_size = none; tick_size = none; expiry = none };
  side = buy;
  quantity = 10;
  order_type = market;
  entry_price = 1_000_000;
  stop_price = 980_000;
  target_price = 1_100_000;
  product = some mis;
}

abbrev pub broker_of : Scenario → MockBroker
broker_of s = record {
  default_scenario = s;
  fill_price = 1_000_000;
  ids = 1;
  orders = [];
  gtt_ids = 1;
  gtts = [];
  ltp = [];
}

abbrev pub config_of : Mode → ConfigState
config_of m = record {
  runtime_mode = none;
  execution_mode = some m;
  kill_switch_active = false;
  block_new_entries = false;
  engine_halted = false;
  engine_paused = false;
}

-- the broker fills everything; one position is open at it already
abbrev pub a_position : Position
a_position = record {
  status = row_open;
  mode = live;
  sleeve = intraday_stocks;
  instrument_token = some 70;
  tradingsymbol = 7;
  side = buy;
  quantity = 10;
  average_price = 1_000_000;
  product = some mis;
  exchange = some nse;
  entry_fees = 0;
  gtt_id = none;
  exit_order = none;
  realized_pnl = none;
}

abbrev pub world_of : Mode → Scenario → World MockBroker
world_of m s = record {
  broker = broker_of s;
  config = config_of m;
  positions = (1, a_position) ∷ [];
  next_id = 2;
  brackets = [];
  events = [];
  guards = no_guards;
}
