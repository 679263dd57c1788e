-- ===== src/Execution/Failsafe.antt =====
-- `safe_exit_all` of execution/failsafe.py: every open position is closed and the engine is halted.
-- The alerts and the summary of errors are left out.
pub mod Halting
use ai_trading_system.Base.{ℕ, true, Option, none, List, [], ◌∷◌, if◌then◌else◌}
use ai_trading_system.Base.Int.{ℤ}
use ai_trading_system.Base.Dict.{Dict}
use ai_trading_system.Broker.{Adapter}
use ai_trading_system.Common.State.{Mode}
use ai_trading_system.Execution.Executor.{Setup, Position, World}
use ai_trading_system.Execution.Executor.Exit.{Prices, close}
use ai_trading_system.Execution.Reconcile.{is_open_in}

-- the ids of `get_open(mode)`
unfoldable pub open_ids : Mode → Dict Position → List ℕ
open_ids mode [] = []
open_ids mode ((pid, p) ∷ ps) =
    let rest = open_ids mode ps in if is_open_in mode p then pid ∷ rest else rest

-- the prices of a close that is given neither a tick nor a fallback
abbrev pub forced : {S : Type 0} → (S → Option ℕ × S) → Prices S
forced quote = record { price = none; quote = quote; fallback_price = none }

module _ {S : Type 0} (adapter : Adapter S) where
  -- the loop over the open positions, with the quote of each for a simulated exit
  unfoldable pub close_each :
      Setup → (ℕ → S → Option ℕ × S) → List ℕ → World S → List (ℕ × Option ℤ) × World S
  unfolding close
  close_each setup quotes [] w = ([], w)
  close_each setup quotes (pid ∷ pids) w =
      let (realized, w1) = close adapter setup (forced (quotes pid)) pid w in
      let (closed, w2) = close_each setup quotes pids w1 in ((pid, realized) ∷ closed, w2)

  -- `set_state("engine_halted", True)` and `set_state("engine_paused", True)`
  abbrev pub halt : World S → World S
  halt w = record w { config = record w.config { engine_halted = true; engine_paused = true } }

  unfoldable pub safe_exit_all :
      Setup → (ℕ → S → Option ℕ × S) → Mode → World S → List (ℕ × Option ℤ) × World S
  unfolding close_each open_ids
  safe_exit_all setup quotes mode w =
      let (closed, w') = close_each setup quotes (open_ids mode w.positions) w in (closed, halt w')
