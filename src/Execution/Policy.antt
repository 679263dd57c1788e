-- ===== src/Execution/Policy.antt =====
-- execution/policy.py: the pure decisions of the executor.
pub mod Laws
use ai_trading_system.Base.{
  ℕ, Bool, true, false, not, ◌&&◌, ◌||◌, Option, none, some, List, ltb, leb, ◌==◌, if◌then◌else◌,
  or_default, get_last?,
}
use ai_trading_system.Base.Int.{ℤ, pos, negsuc}
use ai_trading_system.Broker.{
  Exchange, nse, bse, nfo, mcx, Product, mis, cnc, nrml, OrderType, limit, BrokerStatus, complete,
  rejected, cancelled, Message, HistoryRow,
}
use ai_trading_system.Common.InstrumentMeta.{OrderMeta, Refusal, validate_order_against_meta}
use ai_trading_system.Common.State.{Mode, live}

-- `(exchange, product) in SUPPORTED_EXIT_PRODUCTS`
unfoldable pub exit_product_supported : Option Exchange → Option Product → Bool
exit_product_supported (some nse) (some mis) = true
exit_product_supported (some nse) (some cnc) = true
exit_product_supported (some bse) (some mis) = true
exit_product_supported (some bse) (some cnc) = true
exit_product_supported (some nfo) (some nrml) = true
exit_product_supported (some nfo) (some mis) = true
exit_product_supported (some mcx) (some nrml) = true
exit_product_supported _ _ = false

pub data FillStatus : Type 0 where
  filled_complete filled_rejected filled_partial filled_unknown : FillStatus

unfoldable pub normalize_exit_status : Option BrokerStatus → ℕ → FillStatus
normalize_exit_status (some complete) filled = filled_complete
normalize_exit_status (some rejected) filled = filled_rejected
normalize_exit_status (some cancelled) filled = filled_rejected
normalize_exit_status _ filled = if ltb 0 filled then filled_partial else filled_unknown

abbrev pub is_complete : FillStatus → Bool
is_complete filled_complete = true
is_complete _ = false

unfoldable pub close_books_fully : FillStatus → ℕ → ℕ → Bool
close_books_fully status filled_qty position_qty = is_complete status && leb position_qty filled_qty

-- The latest broker truth about an order.
pub record Truth : Type 0 where
  pub status : Option BrokerStatus
  pub filled : ℕ
  pub avg_price : ℕ
  pub reason : Option Message
  pub terminal : Bool

-- `status in TERMINAL_BROKER_STATES`
abbrev pub is_final : Option BrokerStatus → Bool
is_final (some complete) = true
is_final (some rejected) = true
is_final (some cancelled) = true
is_final _ = false

-- one row as the latest truth
unfoldable pub read_row : HistoryRow → Truth
read_row last = record {
  status = last.status;
  filled = or_default last.filled_quantity 0;
  avg_price = or_default last.average_price 0;
  reason = last.status_message;
  terminal = is_final last.status;
}

-- what stands for an empty history, and before the first poll
abbrev pub no_truth : Truth
no_truth = record { status = none; filled = 0; avg_price = 0; reason = none; terminal = false }

unfoldable pub reduce_order_history : List HistoryRow → Truth
unfolding read_row
reduce_order_history history = elim (get_last? history) [
  | none ↦ no_truth
  | some last ↦ read_row last
]

unfoldable pub duplicate_exit_risk : ℤ → Bool
duplicate_exit_risk (pos n) = n == 0
duplicate_exit_risk (negsuc n) = false

pub data Intent : Type 0 where
  entry exit cancel other_intent : Intent

unfoldable pub order_allowed : Intent → Bool → Bool → Bool
order_allowed exit kill_active block_new_entries = true
order_allowed cancel kill_active block_new_entries = true
order_allowed _ kill_active block_new_entries = not (kill_active || block_new_entries)

pub data StructureBlock : Type 0 where
  paper_only not_implemented : StructureBlock

unfoldable pub live_structures_block_reason : Mode → Bool → Option StructureBlock
live_structures_block_reason live enabled = some (if enabled then not_implemented else paper_only)
live_structures_block_reason _ enabled = none

-- What the gate reads of an instrument's metadata.
pub record Instrument : Type 0 where
  pub lot_size : Option ℕ
  pub tick_size : Option ℕ
  pub expiry : Option ℕ

abbrev pub limit_price : OrderType → ℕ → Option ℕ
limit_price limit price = some price
limit_price _ price = none

unfoldable pub entry_meta_block_reason : Mode → ℕ → ℕ → Instrument → OrderType → ℕ → Option Refusal
entry_meta_block_reason live quantity price m order_type today =
    validate_order_against_meta
      (record {
        quantity = some quantity;
        price = limit_price order_type price;
        lot_size = m.lot_size;
        tick_size = m.tick_size;
        freeze_qty = none;
        expiry = m.expiry;
      })
      today
entry_meta_block_reason _ quantity price m order_type today = none
