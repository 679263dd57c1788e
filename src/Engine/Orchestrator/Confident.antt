-- ===== src/Engine/Orchestrator/Confident.antt =====
-- The confidence that engine/orchestrator.py hands to the risk engine.
use native.Mathlib.Nat.{mul-le-mul_left}
use ai_trading_system.Base.{ℕ, ◌*◌, ◌≤◌, ◌≡◌, Option, none, some, List, arith, All}
use ai_trading_system.Base.Round.Bounds.{round_half_even-le}
use ai_trading_system.Broker.{Call, returned, raised}
use ai_trading_system.Engine.Confidence.{GateResult, score}
use ai_trading_system.Engine.Confidence.Bounds.{IsScore, score-le, assess-le}
use ai_trading_system.Engine.MetaLabel.{MetaLabeler, assess}
use ai_trading_system.Engine.Orchestrator.{Chain, Idea, shrink, confidence_of}

-- what the learned model of the code answers, or that it raised
abbrev pub learned_of : Option (MetaLabeler × Call ℕ) → Option (Call ℕ)
learned_of none = none
learned_of (some (m, raised)) = some raised
learned_of (some (m, returned p)) = some (returned (assess m p))

abbrev pub HasLowFloor : Option (MetaLabeler × Call ℕ) → Type 0
HasLowFloor none = Unit
HasLowFloor (some (m, p)) = m.soft_floor ≤ 10_000

shrink-le :
    (learned : Option (MetaLabeler × Call ℕ)) (c : ℕ)
    → HasLowFloor learned
    → shrink (learned_of learned) c ≤ c
unfolding shrink
shrink-le none c h = omega arith
shrink-le (some (m, raised)) c h = omega arith
shrink-le (some (m, returned p)) c h =
    round_half_even-le (c * assess m p) 10_000 c (omega arith)
      (omega (arith, mul-le-mul_left c (assess-le m p h)))

-- With the learned filter of the code, whose floor is at most 1, the confidence is at most the score
-- of the gates, whatever the model predicts and also if it fails, and that score is at most 1 when
-- the runner added the gates.
pub confidence_of-IsLow :
    (chain : Chain) (i : Idea) (learned : Option (MetaLabeler × Call ℕ)) (gates : List GateResult)
    → i.learned ≡ learned_of learned
    → HasLowFloor learned
    → All IsScore gates
    → (confidence_of chain i gates ≤ score chain.model gates) × (score chain.model gates ≤ 10_000)
unfolding confidence_of
confidence_of-IsLow chain i learned gates e low h =
    (rw e (shrink-le learned (score chain.model gates) low), score-le chain.model gates h)
