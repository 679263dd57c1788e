-- ===== src/Execution/Executor.antt =====
-- execution/executor.py, with the rows of execution/position_book.py that it writes and
-- execution/brackets.py. A call of the adapter is the parameter `Adapter`; the governor only paces
-- it. The database answers every write, so the handlers of its errors are left out, as are alerts,
-- logs, cooldowns, tags of orders and times. Prices are counted in units of 1/10000 rupee.
pub mod Polling
pub mod Slices
pub mod Clips
pub mod Booking
pub mod Entry
pub mod Book
pub mod Exit
pub mod Pending
pub mod Honest
pub mod Bounded
pub mod MockHonest
pub mod Safety
pub mod Closing
pub mod Sent
pub mod Orderly
pub mod Flat
pub mod Settled
pub mod Paper
pub mod Samples
mod Tests
use ai_trading_system.Base.{ℕ, Bool, Option, none, some, List, ◌==◌, if◌then◌else◌}
use ai_trading_system.Base.Int.{ℤ}
use ai_trading_system.Base.Dict.{Dict}
use ai_trading_system.Broker.{Side, Exchange, Product, OrderType}
use ai_trading_system.Common.State.{Mode, ConfigState}
use ai_trading_system.Execution.Costs.{
  Sleeve, intraday_stocks, mcx_commodities, InstrumentType, CostModel, Fees,
}
use ai_trading_system.Execution.Events.{EventType, RowStatus}
use ai_trading_system.Execution.Guards.{GuardManager}
use ai_trading_system.Execution.Policy.{Instrument}

-- A risk-approved trade, with what the executor reads of its instrument.
pub record Decision : Type 0 where
  pub sleeve : Sleeve
  pub exchange : Option Exchange
  pub tradingsymbol : ℕ
  pub instrument_token : Option ℕ
  pub instrument_type : InstrumentType
  pub instrument : Instrument
  pub side : Side
  pub quantity : ℕ
  pub order_type : OrderType
  pub entry_price : ℕ
  pub stop_price : ℕ
  pub target_price : ℕ
  pub product : Option Product

-- What the executor reads of a row of `instruments`.
pub record InstrumentRow : Type 0 where
  pub meta : Instrument
  pub row_exchange : Option Exchange
  pub row_type : InstrumentType

-- `dynamic_exit`; a missing fraction is 0
pub record DynamicExit : Type 0 where
  pub breakeven_at_r : ℕ
  pub lock_trigger_frac : ℕ
  pub max_giveback_frac : ℕ

-- What the executor reads of the configuration, the instrument table and the calendar.
pub record Setup : Type 0 where
  pub default_clip : ℕ
  pub hard_exit : Sleeve → Option ℕ
  pub dynamic_exit : DynamicExit
  pub stop_order_type : OrderType
  pub cost_model : CostModel
  pub get_instrument : ℕ → Option InstrumentRow
  pub today : ℕ

-- A row of `positions`; `gtt_id` is of its `raw["bracket"]`, `exit_order` of `raw["close_pending"]`.
pub record Position : Type 0 where
  pub status : RowStatus
  pub mode : Mode
  pub sleeve : Sleeve
  pub instrument_token : Option ℕ
  pub tradingsymbol : ℕ
  pub side : Side
  pub quantity : ℕ
  pub average_price : ℕ
  pub product : Option Product
  pub exchange : Option Exchange
  pub entry_fees : ℕ
  pub gtt_id : Option ℕ
  pub exit_order : Option ℕ
  pub realized_pnl : Option ℤ

-- A row of `brackets`.
pub record BracketRow : Type 0 where
  pub position_id : ℕ
  pub gtt : ℕ
  pub is_active : Bool

-- What the executor writes to `position_events` about fills.
pub record LoggedEvent : Type 0 where
  pub about : ℕ
  pub event_type : EventType
  pub filled_qty : Option ℕ

-- The broker, the rows of the database and the guards in memory.
pub record World (S : Type 0) : Type 0 where
  pub broker : S
  pub config : ConfigState
  pub positions : Dict Position
  pub next_id : ℕ
  pub brackets : List BracketRow
  pub events : List LoggedEvent
  pub guards : GuardManager

-- `square_off_time`
unfoldable pub square_off_time : Setup → Sleeve → Option ℕ
square_off_time setup intraday_stocks = setup.hard_exit intraday_stocks
square_off_time setup mcx_commodities = setup.hard_exit mcx_commodities
square_off_time setup _ = none

-- `dynamic_exit_cfg`
unfoldable pub dynamic_exit_cfg : Setup → Sleeve → DynamicExit
dynamic_exit_cfg setup intraday_stocks = setup.dynamic_exit
dynamic_exit_cfg setup mcx_commodities = setup.dynamic_exit
dynamic_exit_cfg setup _ = record {
  breakeven_at_r = 0;
  lock_trigger_frac = 0;
  max_giveback_frac = 0;
}

-- `_freeze_limit`
unfoldable pub freeze_limit : Setup → ℕ
freeze_limit setup = if setup.default_clip == 0 then 1_000_000_000 else setup.default_clip
