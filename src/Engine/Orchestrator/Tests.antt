-- ===== src/Engine/Orchestrator/Tests.antt =====
-- The chain of decisions on a signal of one instrument and on one of a structure.
use ai_trading_system.Base.{ℕ, ◌≤◌, ◌≡◌, refl, true, false, Option, none, some, [], ◌∷◌, arith}
use ai_trading_system.Broker.{buy, returned, Call}
use ai_trading_system.Broker.MockBroker.{MockBroker, completes}
use ai_trading_system.Broker.MockBroker.AsAdapter.{mock_adapter}
use ai_trading_system.Common.RuntimeMode.{load_runtime_mode, legacy_mode, derive_for_mode}
use ai_trading_system.Execution.Costs.{ce}
use ai_trading_system.Execution.Structures.{Structure, vertical}
use ai_trading_system.Execution.Structures.Opening.{
  Ask, Market, execute_structure, Desk as Holdings, leg_unresolved,
}
use ai_trading_system.Execution.Policy.{order_allowed}
use ai_trading_system.Risk.Sizing.{size_position}
use ai_trading_system.Risk.Sizing.Structure.{size_structure}
use ai_trading_system.Engine.MetaLabel.{MetaLabeler, assess}
use ai_trading_system.Engine.Confidence.{score}
use ai_trading_system.Engine.Orchestrator.Confident.{learned_of, confidence_of-IsLow}
use ai_trading_system.Engine.Orchestrator.Structures.{
  IsAccepted, IsFor, IsPlanned as HasLots, evaluate-StaysCovered,
}
use ai_trading_system.Common.State.{paper}
use ai_trading_system.Execution.Costs.{intraday_stocks, fno}
use ai_trading_system.Execution.Executor.Entry.{EntryResult, outcome_filled}
use ai_trading_system.Execution.Executor.MockHonest.{Knows, mock-IsHonest}
use ai_trading_system.Execution.Executor.Samples.{setup, world_of}
use ai_trading_system.Risk.Engine.Samples.{a_desk, a_listing}
use ai_trading_system.Risk.Engine.Budgets.{StaysWithin}
use ai_trading_system.Engine.Confidence.{GateResult}
use ai_trading_system.Engine.Orchestrator.{
  Signal, accepted, Idea, Chain, confidence_of, decision_of, ask_for, evaluate,
}
use ai_trading_system.Engine.Orchestrator.Bounds.{IsPlanned, evaluate-StaysWithin}

abbrev a_spread : Structure
a_spread = record { shape = vertical true ce 1_500_000 1_000_000; max_loss_per_lot = 30_000_000 }

abbrev a_signal : Signal
a_signal = record {
  side = buy;
  entry = 1_000_000;
  stop = 980_000;
  target = 1_060_000;
  max_loss_per_lot = some 30_000_000;
  lot_size = some 75;
  structure = a_spread;
}

abbrev a_gate : GateResult
a_gate = record { name = 1; passed = true; score = 9_000 }

abbrev a_chain : Chain
a_chain = record {
  model = record { weights = λ n. none; default_weight = 10_000; min_confidence = 4_500 };
  cost_edge_max_fraction = 1_500;
}

-- the language model halves the size
abbrev an_idea : Idea
an_idea = record {
  expiry = some 40;
  lot_size = 75;
  sleeve = intraday_stocks;
  listing = a_listing;
  meta = record { lot_size = none; tick_size = none; expiry = none };
  underlying = b'a' ∷ [];
  pipeline = some (accepted (a_gate ∷ []) a_signal);
  learned = none;
  margin = none;
  structure_margin = none;
  opinion = record { veto = false; downsize = 5_000 };
}

abbrev a_market : Market MockBroker
a_market = record {
  resolve = λ opt strike. none;
  fill = λ token side qty. none;
  quote = λ token b. (none, b);
}

abbrev an_ask : Ask
an_ask = record {
  name = 5;
  expiry = some 40;
  structure = a_spread;
  lots = 1;
  lot_size = 75;
  correlation_id = 9;
  instrument = record { lot_size = none; tick_size = none; expiry = none };
  max_fill_risk_overrun = 12_500;
  target_fraction = 5_000;
  stop_fraction = 5_000;
  today = 12;
}

abbrev holdings : Holdings MockBroker
holdings = record {
  world = world_of paper completes;
  leg_rows = [];
  structures = record { by_corr = []; by_token = [] };
}

-- half of the 1900 units that the risk engine allows
abbrev half_filled : EntryResult
half_filled = record {
  outcome = outcome_filled;
  filled_quantity = 950;
  avg_price = 1_001_000;
  position_id = some 2;
  order_ids = [];
  reason = none;
  lifecycle_state = none;
}

evaluate-StaysWithin_example :
    let d = decision_of an_idea a_signal 950 in
    IsPlanned a_chain setup a_desk an_idea d
    × (half_filled.filled_quantity ≤ d.quantity)
    × StaysWithin a_desk intraday_stocks 1_000_000 980_000 half_filled.filled_quantity
unfolding evaluate decision_of load_runtime_mode legacy_mode derive_for_mode size_position
    order_allowed
evaluate-StaysWithin_example =
    evaluate-StaysWithin mock_adapter setup a_market Knows mock-IsHonest a_chain a_desk
      (λ b. (some 1_001_000, b)) an_ask an_idea holdings (decision_of an_idea a_signal 950)
      19_000_000 half_filled refl

abbrev option_idea : Idea
option_idea = record an_idea { sleeve = fno }

-- half of two lots is one, whose legs find no strike
evaluate-StaysCovered_example :
    let a = ask_for an_ask option_idea a_signal 1 in
    (signal : Signal) × IsAccepted option_idea.pipeline signal
    × IsFor option_idea signal a
    × HasLots a_desk option_idea signal a.lots
    × (execute_structure mock_adapter setup a_market a holdings ≡ (
      some leg_unresolved,
      (evaluate mock_adapter setup a_market a_chain a_desk
          (λ b. (none, b))
          an_ask
          option_idea
          holdings).1,
    ))
unfolding evaluate ask_for load_runtime_mode legacy_mode derive_for_mode size_structure
    order_allowed
evaluate-StaysCovered_example =
    evaluate-StaysCovered mock_adapter setup a_market a_chain a_desk (λ b. (none, b)) an_ask
      option_idea holdings (ask_for an_ask option_idea a_signal 1) (some leg_unresolved) refl

abbrev a_labeler : Option (MetaLabeler × Call ℕ)
a_labeler =
    some (record { veto_below = 4_000; neutral_above = 5_500; soft_floor = 6_000 }, returned 4_750)

abbrev doubted : Idea
doubted = record an_idea { learned = learned_of a_labeler }

confidence_of-IsLow_example :
    (confidence_of a_chain doubted (a_gate ∷ []) ≤ score a_chain.model (a_gate ∷ []))
    × (score a_chain.model (a_gate ∷ []) ≤ 10_000)
confidence_of-IsLow_example =
    confidence_of-IsLow a_chain doubted a_labeler (a_gate ∷ []) refl (omega arith) (omega arith, tt)

doubted_confidence : confidence_of a_chain doubted (a_gate ∷ []) ≡ 7_200
unfolding confidence_of assess
doubted_confidence = refl
