-- ===== src/Execution/Executor/Tests.antt =====
-- The executor at the mock broker.
use ai_trading_system.Base.{
  ◌+◌, ◌≤◌, ◌≡◌, ◌≢◌, ◌↔◌, refl, sym, ◌∙◌, true, none, some, List, [], ◌∷◌, arith, length, Option,
  ℕ,
}
use ai_trading_system.Base.Int.{pos, ◌+ℤ◌}
use ai_trading_system.Broker.{Adapter, returned, raised, OrderRequest}
use ai_trading_system.Broker.MockBroker.{
  completes, MockBroker, place_order, order_history, delete_gtt, shot,
}
use ai_trading_system.Broker.MockBroker.AsAdapter.{mock_adapter}
use ai_trading_system.Common.State.{Mode, paper, live}
use ai_trading_system.Common.InstrumentMeta.{validate_order_against_meta}
use ai_trading_system.Common.RuntimeMode.{load_runtime_mode, legacy_mode, derive_for_mode}
use ai_trading_system.Execution.Policy.{
  reduce_order_history, entry_meta_block_reason, order_allowed, exit_product_supported,
}
use ai_trading_system.Execution.Lifecycle.{entry_outcome, reconcile_required}
use ai_trading_system.Execution.Executor.{World, freeze_limit}
use ai_trading_system.Execution.Executor.Slices.{slice}
use ai_trading_system.Execution.Executor.Polling.{poll_order}
use ai_trading_system.Execution.Executor.Clips.{send_clips, no_progress}
use ai_trading_system.Execution.Executor.Entry.{execute}
use ai_trading_system.Execution.Executor.Exit.{Prices, close}
use ai_trading_system.Execution.Executor.Samples.{
  setup, buy_ten, broker_of, config_of, a_position, world_of,
}
use ai_trading_system.Execution.Executor.Bounded.{execute-bounded}
use ai_trading_system.Execution.Executor.MockHonest.{Knows, mock-IsHonest}
use ai_trading_system.Execution.Executor.Safety.{IsRefused, unsafe-execute}
use ai_trading_system.Execution.Executor.Closing.{close_twice}
use ai_trading_system.Execution.Executor.Paper.{OnlyQuoted, paper-OnlyQuoted}
use ai_trading_system.Execution.Executor.Sent.{logged, logged_prices}
use ai_trading_system.Execution.Executor.Flat.{flat-close}
use ai_trading_system.Execution.Guards.{no_guards}
use ai_trading_system.Broker.{NetRow}
use ai_trading_system.Execution.Reconcile.{info, trading_blocked, run_reconcile}
use ai_trading_system.Execution.Reconcile.Quantities.{Agreed}
use ai_trading_system.Execution.Reconcile.Agreement.{run_reconcile_iff, execute-reconciled}
use ai_trading_system.Execution.Executor.Pending.{open_at, reconcile_brackets}
use ai_trading_system.Execution.Executor.Pending.Orphans.{
  orphans, delete_all, NoOrphan, reconciled-NoOrphan,
}

-- a broker that has no quotes
abbrev no_quote : {S : Type 0} → S → Option ℕ × S
no_quote s = (none, s)

-- Every poll raises here, so the state of the order just sent is unknown.
abbrev silent : Adapter MockBroker
silent = record mock_adapter { order_history = λ oid b. (raised, b) }

unsafe-execute_example :
    IsRefused (execute silent setup no_quote none buy_ten (world_of live completes)).1 (
      execute silent setup no_quote none buy_ten
        (execute silent setup no_quote none buy_ten (world_of live completes)).1)
unfolding execute load_runtime_mode legacy_mode derive_for_mode entry_meta_block_reason
    validate_order_against_meta place_order order_allowed exit_product_supported send_clips slice
    freeze_limit poll_order entry_outcome
unsafe-execute_example =
    unsafe-execute silent setup no_quote none no_quote none buy_ten buy_ten reconcile_required
      (world_of live completes) refl refl

abbrev tick : {S : Type 0} → Prices S
tick = record { price = some 1_010_000; quote = no_quote; fallback_price = none }

close_twice_example :
    let w' = (close mock_adapter setup tick 1 (world_of live completes)).1 in
    close mock_adapter setup tick 1 w' ≡ (none, w')
close_twice_example = close_twice mock_adapter setup tick tick 1 (world_of live completes)

-- the same world beside the log of its orders, with none so far
abbrev watched : Mode → World (MockBroker × List OrderRequest)
watched m = record {
  broker = (broker_of completes, []);
  config = config_of m;
  positions = (1, a_position) ∷ [];
  next_id = 2;
  brackets = [];
  events = [];
  guards = no_guards;
}

-- a broker that shows a row of the instrument, with nothing left of it
abbrev sold_out : Adapter MockBroker
sold_out = record mock_adapter {
  positions = λ b. (returned (record { instrument_token = some 70; quantity = pos 0 } ∷ []), b);
}

abbrev IsUnused : MockBroker → Type 0
IsUnused b = b.orders ≡ []

IsUnused-keeps : (gtt : ℕ) (b : MockBroker) → IsUnused b → IsUnused (sold_out.delete_gtt gtt b).1
unfolding delete_gtt
IsUnused-keeps gtt b h = h

flat-close_example :
    (close (logged sold_out) setup (logged_prices tick) 1 (watched live)).1.broker.1 ≡ []
flat-close_example =
    flat-close sold_out 70 IsUnused setup IsUnused-keeps (λ b h. (λ e. refl, tt)) tick 1 a_position
      (watched live) refl refl refl

-- a broker that counts the calls for quotes in its trigger ids
abbrev counted : MockBroker → Option ℕ × MockBroker
counted b = (some 1_000_000, record b { gtt_ids = b.gtt_ids + 1 })

paper-OnlyQuoted_example :
    OnlyQuoted counted
      (broker_of completes)
      (execute mock_adapter setup counted none buy_ten (world_of paper completes)).1.broker
    × OnlyQuoted no_quote
        (broker_of completes)
        (close mock_adapter setup tick 1 (world_of paper completes)).1.broker
unfolding load_runtime_mode legacy_mode derive_for_mode
paper-OnlyQuoted_example =
    paper-OnlyQuoted mock_adapter setup counted none buy_ten tick 1 (world_of paper completes) refl

execute-bounded_example :
    (execute mock_adapter setup no_quote none buy_ten (world_of live completes)).0.filled_quantity
    ≤ 10
execute-bounded_example =
    execute-bounded mock_adapter Knows mock-IsHonest setup no_quote buy_ten
      (world_of live completes)

-- three clips of 4, 4 and 2, all filled
filled_ten :
    (send_clips mock_adapter buy_ten (slice 10 4) no_progress (broker_of completes)).0.filled ≡ 10
unfolding send_clips slice place_order order_history poll_order reduce_order_history shot
filled_ten = refl

-- The broker holds 5 of the 10 shares of the book.
abbrev half_held : List NetRow
half_held = record { instrument_token = some 70; quantity = pos 5 } ∷ []

run_reconcile_iff_example :
    ((run_reconcile half_held (world_of live completes)).0 ≡ info)
    ↔ Agreed live (world_of live completes).positions half_held
run_reconcile_iff_example = run_reconcile_iff half_held (world_of live completes)

half_blocked : (run_reconcile half_held (world_of live completes)).0 ≡ trading_blocked
unfolding run_reconcile ◌+ℤ◌
half_blocked = refl

half_not_info : (run_reconcile half_held (world_of live completes)).0 ≢ info
half_not_info h = ground (arith, sym half_blocked ∙ h)

execute-reconciled_example :
    let w' = (run_reconcile half_held (world_of live completes)).1 in
    IsRefused w' (execute mock_adapter setup no_quote none buy_ten w')
execute-reconciled_example =
    execute-reconciled mock_adapter setup no_quote none buy_ten half_held (world_of live completes)
      half_not_info

-- one bracket of the open position 1, one of a position that is not there
abbrev two_brackets : World MockBroker
two_brackets = record (world_of live completes) {
  brackets =
      record { position_id = 1; gtt = 5; is_active = true }
      ∷ record { position_id = 9; gtt = 6; is_active = true }
      ∷ [];
}

reconciled-NoOrphan_example :
    let (n, w') = reconcile_brackets mock_adapter two_brackets in
    let gone = orphans (open_at two_brackets.positions) two_brackets.brackets in
    (w'.broker ≡ delete_all mock_adapter gone two_brackets.broker)
    × (n ≡ length gone)
    × (w'.positions ≡ two_brackets.positions)
    × NoOrphan (open_at w'.positions) w'.brackets
reconciled-NoOrphan_example = reconciled-NoOrphan mock_adapter two_brackets

swept : (reconcile_brackets mock_adapter two_brackets).0 ≡ 1
unfolding reconcile_brackets
swept = refl
