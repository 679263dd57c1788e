-- ===== src/Lib.antt =====
-- The order-safety core of the trading system: the decisions to trade, the broker that orders go
-- to, the controls that say whether orders may go at all, the execution layer that sends, guards
-- and closes them, and the sizing that says how large they may be.
--
-- Parts and files:
-- - Base: Python's dicts and lists, signed integers over the native numbers, decimal rounding, and
--   the Boolean tests with their lemmas.
-- - Broker: the vocabulary of orders (broker/base.py, common/enums.py) in Broker/Types, and the
--   deterministic broker (broker/mock_broker.py, class MockBroker) in Broker/MockBroker, as a
--   function per method on its state. AsAdapter puts it in the place of the adapter that the
--   executor calls.
-- - Common: common/state.py as the record ConfigState, common/runtime_mode.py,
--   common/mode_transition.py (request_transition with validators that may raise),
--   common/prelive.py, common/commands.py (the table of commands and its statements),
--   common/instrument_meta.py, common/tick_buffer.py and common/audit_chain.py with the table of
--   digests of common/audit.py, a file of definitions each, with the theorems in a child module.
-- - Execution: execution/policy.py, execution/order_lifecycle.py, execution/costs.py,
--   execution/guards.py and execution/position_events.py; and under Execution/Executor
--   execution/executor.py with execution/brackets.py and the statements of
--   execution/position_book.py: Slices (_slice), Polling (_poll_order, _cancel_and_confirm,
--   _transient), Clips (the loop of _execute_live), Booking (create_bracket, open_position), Entry
--   (_execute_live, _execute_sim, execute), Book and Exit (market_exit, _do_live_exit, close,
--   on_price), Pending (resolve_pending_closes, reconcile_brackets). Reconcile has the comparison
--   of the book with the broker (PositionBook.reconcile) and execution/reconciler.py, and Recovery
--   the live branch of adopt_open_positions (execution/recovery.py), and Failsafe safe_exit_all of
--   execution/failsafe.py. Structures has execution/structures.py: the guard and the manager,
--   Opening (open_structure, and execute_structure of the executor), Closing (close_structure),
--   Rebuild (rebuild_structures) and Marking (mark_structures). Simulator has fill_price of
--   execution/simulator.py.
-- - Risk: risk/sizing.py (size_position in Sizing, size_structure in Sizing/Structure),
--   risk/circuits.py and risk/kill_switch.py. Scope has risk/scope.py, risk/dependencies.py and
--   risk/expiry_control.py, Positions risk/positions.py, Capital risk/capital.py (CapitalReader),
--   and Engine risk/engine.py (RiskEngine: the reads in Engine, `size` and `size_structure` in
--   Engine/Ask).
-- - Data: data/aggregator.py in Data/Candles (CandleAggregator); Chart has what a candle is of its
--   ticks, Keys and Project that the keys of the state do not disturb each other. RateGovernor has
--   data/rate_governor.py (TokenBucket and RateGovernor.call) for one caller at a time, and
--   Watchdog _watchdog and reconnect of data/feed.py.
-- - Engine: engine/orchestrator.py in Engine/Orchestrator (_evaluate), with the gates of
--   strategies/base.py and engine/confidence.py in Confidence, research/meta_label.py in MetaLabel
--   and llm/context.py in Context.
--
-- How they interact: the orchestrator's `evaluate` takes the result of a pipeline, asks the
-- confidence model, the risk engine and the verdict of the language model, and hands a decision to
-- `execute`; the risk engine's `size` reads the capital, the scope of the mode and the book, and
-- asks the sizing; `execute` reads the mode and the flags of Common, asks Policy and
-- InstrumentMeta, sends the clips of Slices through the adapter, polls and cancels by Polling,
-- books by Booking, arms a guard of Guards and sets the flag that blocks new entries; `on_price`
-- asks the guard and closes by Exit, and a structure closes its legs by Exit too. The state of all
-- this is the record World: the broker, the rows of the database and the guards in memory.
--
-- Numbers: money and prices are natural numbers of 1/10000 rupee, fractions are in 1/10000, and
-- quotients of floats are exact fractions that are rounded where the source rounds. Symbols,
-- tokens, ids and times are natural numbers. Texts of a closed vocabulary are enums.
--
-- Bounds: the only counters are the source's own (12 polls of an order, 8 confirming polls of a
-- cancel, one clip after another, the retries of a structure's exit), and for the bucket of the
-- rate governor the number of looks at it, of which two are shown to be enough. The broker is a
-- parameter; what the bound on the filled quantity relies on is the record IsHonest, which the mock
-- broker is shown to meet.
--
-- Parameters: the price of a simulated fill and of a simulated exit, as a function on the broker's
-- state, which the call for the quotes may change; the prices at which the legs of a structure fill;
-- the order in which the database returns the rows of a claim.
-- The theorems on the orders that are sent run an adapter beside a log of its orders
-- (Execution/Executor/Sent).
--
-- Not modelled: alerts, logs, cooldowns, order tags and times; failures of the database, which is
-- taken to answer every write; the throttled writes of unrealized profit; the audit rows of orders
-- and fills, and columns that nothing modelled reads; the simulated branch of the recovery, the
-- limits on structures and portfolio heat, the sockets of the feed, the engine's loops, the rules
-- of the strategies, backtests, the training of models and the interfaces.
pub mod Base
pub mod Broker
pub mod Common
pub mod Data
pub mod Engine
pub mod Execution
pub mod Risk
