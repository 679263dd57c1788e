-- ===== src/Execution/Executor/Entry.antt =====
-- Entries of execution/executor.py: `_execute_live`, `_execute_sim` and the gate of `execute`. The
-- price that the simulator of execution/simulator.py finds, with its call of the broker for the quotes,
-- is a function on the broker's state, a parameter.
use ai_trading_system.Base.{
  ℕ, Bool, true, false, not, ◌&&◌, Option, none, some, List, [], ltb, ◌==◌, if◌then◌else◌,
  or_default,
}
use ai_trading_system.Base.Round.{round_2}
use ai_trading_system.Broker.{Adapter}
use ai_trading_system.Common.State.{paper, live}
use ai_trading_system.Common.RuntimeMode.{load_runtime_mode, is_live_mode}
use ai_trading_system.Execution.Guards.{arm}
use ai_trading_system.Execution.Lifecycle.{State, entry_outcome, is_unsafe}
use ai_trading_system.Execution.Policy.{
  Instrument, exit_product_supported, entry_meta_block_reason, order_allowed, entry,
}
use ai_trading_system.Execution.Executor.{Decision, Setup, World, freeze_limit}
use ai_trading_system.Execution.Executor.Slices.{slice}
use ai_trading_system.Execution.Executor.Clips.{Progress, no_progress, send_clips}
use ai_trading_system.Execution.Executor.Booking.{create_bracket, open_position, new_guard}

-- the metadata of an entry: the row of the table, where there is one, replaces the decision's
unfoldable pub entry_meta : Setup → Decision → Instrument
entry_meta setup d = elim d.instrument_token [
  | none ↦ d.instrument
  | some t ↦ elim (setup.get_instrument t) [ none ↦ d.instrument | some row ↦ row.meta ]
]

pub data Outcome : Type 0 where
  outcome_filled outcome_partial outcome_rejected : Outcome

pub data EntryReason : Type 0 where
  halted entry_blocked unsupported_product meta_blocked no_fill no_price : EntryReason

-- An `ExecutionResult`, with the lifecycle state of its `detail`.
pub record EntryResult : Type 0 where
  pub outcome : Outcome
  pub filled_quantity : ℕ
  pub avg_price : ℕ
  pub position_id : Option ℕ
  pub order_ids : List ℕ
  pub reason : Option EntryReason
  pub lifecycle_state : Option State

abbrev pub refused : EntryReason → EntryResult
refused r = record {
  outcome = outcome_rejected;
  filled_quantity = 0;
  avg_price = 0;
  position_id = none;
  order_ids = [];
  reason = some r;
  lifecycle_state = none;
}

-- `_flag_unsafe_entry`, in an unsafe state
unfoldable pub flag_if : {S : Type 0} → Bool → World S → World S
flag_if true w = record w { config = record w.config { block_new_entries = true } }
flag_if false w = w

module _ {S : Type 0} (adapter : Adapter S) where
  -- the part of `_execute_live` after the loop; a filled entry is booked and bracketed, and
  -- `create_bracket` always answers with a bracket
  unfoldable pub book_entry : Setup → Decision → Progress → World S → World S
  unfolding open_position create_bracket
  book_entry setup d p w =
      if p.filled == 0
      then w
      else let price = round_2 p.notional p.filled in
        create_bracket adapter setup d p.filled price w.next_id
          (open_position setup live d p.filled price w)

  unfoldable pub entry_result : Decision → Progress → ℕ → State → EntryResult
  entry_result d p pid state =
      if p.filled == 0
      then record (refused no_fill) { order_ids = p.order_ids; lifecycle_state = some state }
      else record {
        outcome = if ltb p.filled d.quantity then outcome_partial else outcome_filled;
        filled_quantity = p.filled;
        avg_price = round_2 p.notional p.filled;
        position_id = some pid;
        order_ids = p.order_ids;
        reason = none;
        lifecycle_state = some state;
      }

  -- `bracket is not None` after the loop
  abbrev pub final_state : Decision → Progress → State
  final_state d p = entry_outcome p.filled d.quantity p.remainder_dealt_with (ltb 0 p.filled)

  unfoldable pub after_clips : Setup → Decision → Progress → World S → EntryResult × World S
  unfolding book_entry entry_result flag_if
  after_clips setup d p w = (
    entry_result d p w.next_id (final_state d p),
    flag_if (is_unsafe (final_state d p)) (book_entry setup d p w),
  )

  -- `_execute_live`
  unfoldable pub execute_live : Setup → Decision → World S → EntryResult × World S
  unfolding entry_meta after_clips
  execute_live setup d w =
      if not (exit_product_supported d.exchange d.product)
      then (refused unsupported_product, w)
      else elim (entry_meta_block_reason live d.quantity d.entry_price (entry_meta setup d)
          d.order_type setup.today) [
            | some _ ↦ (refused meta_blocked, w)
            | none ↦
                let (p, s') =
                  send_clips adapter d (slice d.quantity (freeze_limit setup)) no_progress
                    w.broker in
                after_clips setup d p (record w { broker = s' })
          ]

-- `_execute_sim`, once the simulator has answered; a fill price of 0 is none
unfoldable pub simulated :
    {S : Type 0} → Setup → Option ℕ → Option ℕ → Decision → World S → EntryResult × World S
unfolding open_position new_guard
simulated setup answer force d w =
    let price = or_default answer 0 in
    let wanted = or_default force 0 in
    let qty = if wanted == 0 then d.quantity else wanted in
    if price == 0 then (refused no_price, w) else (
      record {
        outcome = if ltb 0 wanted && ltb wanted d.quantity then outcome_partial else outcome_filled;
        filled_quantity = qty;
        avg_price = price;
        position_id = some w.next_id;
        order_ids = [];
        reason = none;
        lifecycle_state = none;
      },
      record (open_position setup paper d qty price w) {
        guards = arm (new_guard setup d price w.next_id) w.guards;
      },
    )

module _ {S : Type 0} (adapter : Adapter S) where
  -- `_execute_sim`; the simulator calls the broker for the quotes of the decision's instrument
  unfoldable pub execute_sim :
      Setup → (S → Option ℕ × S) → Option ℕ → Decision → World S → EntryResult × World S
  unfolding simulated
  execute_sim setup quote force d w =
      let (answer, s') = quote w.broker in simulated setup answer force d (record w { broker = s' })

  -- `execute`
  unfoldable pub execute :
      Setup → (S → Option ℕ × S) → Option ℕ → Decision → World S → EntryResult × World S
  unfolding execute_live execute_sim
  execute setup quote force d w =
      if w.config.engine_halted
      then (refused halted, w)
      else if not (order_allowed entry w.config.kill_switch_active w.config.block_new_entries)
      then (refused entry_blocked, w)
      else if is_live_mode (load_runtime_mode w.config).mode
      then execute_live adapter setup d w
      else execute_sim setup quote force d w
