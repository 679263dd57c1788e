-- ===== src/Execution/Executor/Paper.antt =====
-- In paper mode execution/executor.py asks the broker for quotes, and for nothing else.
use ai_trading_system.Base.{
  ℕ, ◌≡◌, ◌⊎◌, refl, Bool, true, false, Option, none, some, ◌==◌, if◌then◌else◌, Bool-cases, inl,
  inr, or_default, not, arith,
}
use ai_trading_system.Base.Dict.{lookup}
use ai_trading_system.Broker.{Adapter}
use ai_trading_system.Common.RuntimeMode.{load_runtime_mode, is_live_mode}
use ai_trading_system.Execution.Policy.{order_allowed, entry}
use ai_trading_system.Execution.Executor.{Decision, Setup, Position, World}
use ai_trading_system.Execution.Executor.Entry.{
  simulated, execute_sim, execute_live, execute, refused, halted, entry_blocked,
}
use ai_trading_system.Execution.Executor.Book.{is_open, is_closable, close_found, close_position}
use ai_trading_system.Execution.Executor.Exit.{
  Prices, close_sim, close_row, close, close_live, forget_guard,
}

-- The broker is as it was, or as one call for a quote leaves it.
abbrev pub OnlyQuoted : {S : Type 0} → (S → Option ℕ × S) → S → S → Type 0
OnlyQuoted quote s s' = (s' ≡ s) ⊎ (s' ≡ (quote s).1)

module _ {S : Type 0} (adapter : Adapter S) (setup : Setup) (quote : S → Option ℕ × S) where
  if_quoted :
      {A : Type 0} (b : Bool) (s : S) (x y : A × World S)
      → OnlyQuoted quote s x.1.broker
      → OnlyQuoted quote s y.1.broker
      → OnlyQuoted quote s (if b then x else y).1.broker
  if_quoted true s x y hx hy = hx
  if_quoted false s x y hx hy = hy

  simulated_broker :
      (answer force : Option ℕ) (d : Decision) (w : World S)
      → (simulated setup answer force d w).1.broker ≡ w.broker
  unfolding simulated
  simulated_broker answer force d w = elim (Bool-cases (or_default answer 0 == 0)) [
    | inl p ↦ rw p refl
    | inr p ↦ rw p refl
  ]

  sim_if :
      (b : Bool) (force : Option ℕ) (d : Decision) (w : World S)
      → b ≡ false
      → OnlyQuoted quote w.broker
          (if b
            then execute_live adapter setup d w
            else execute_sim adapter setup quote force d w).1.broker
  unfolding execute_sim
  sim_if true force d w h = ground (arith, h)
  sim_if false force d w h = inr (simulated_broker (quote w.broker).0 force d _)

  close_found_broker :
      (o : Option Position) (pid px fees : ℕ) (w : World S)
      → (close_found o pid px fees w).1.broker ≡ w.broker
  unfolding close_found
  close_found_broker none pid px fees w = refl
  close_found_broker (some p) pid px fees w = elim (Bool-cases (is_closable p.status)) [
    | inl b ↦ rw b refl
    | inr b ↦ rw b refl
  ]

  asked_if :
      (b : Bool) (s s' : S) → s' ≡ (if b then quote s else (none, s)).1 → OnlyQuoted quote s s'
  asked_if true s s' e = inr e
  asked_if false s s' e = inl e

module _ {S : Type 0} (adapter : Adapter S) (setup : Setup) where
  close_if :
      (b : Bool) (ps : Prices S) (pid : ℕ) (p : Position) (w : World S)
      → b ≡ false
      → OnlyQuoted ps.quote w.broker
          (if b
            then forget_guard adapter pid (close_live adapter setup pid p w)
            else forget_guard adapter pid (close_sim adapter setup ps pid p w)).1.broker
  unfolding close_sim close_position
  close_if true ps pid p w h = ground (arith, h)
  close_if false ps pid p w h =
      asked_if adapter setup ps.quote (or_default ps.price 0 == 0) w.broker _
        (close_found_broker adapter setup ps.quote (lookup pid w.positions) pid _ _ _)

  row_quoted :
      (ps : Prices S) (pid : ℕ) (o : Option Position) (w : World S)
      → is_live_mode (load_runtime_mode w.config).mode ≡ false
      → OnlyQuoted ps.quote w.broker (close_row adapter setup ps pid o w).1.broker
  unfolding close_row
  row_quoted ps pid none w h = inl refl
  row_quoted ps pid (some p) w h =
      if_quoted adapter setup ps.quote (not (is_open p.status)) w.broker (none, w) _ (inl refl)
        (close_if _ ps pid p w h)

  -- While the runtime mode is not live, an entry and a close make no call of the broker but one for a
  -- quote, whatever the decision, the prices and the rows are: they send no order, cancel none and
  -- touch no trigger.
  pub paper-OnlyQuoted :
      (quote : S → Option ℕ × S) (force : Option ℕ) (d : Decision) (ps : Prices S) (pid : ℕ)
      (w : World S)
      → is_live_mode (load_runtime_mode w.config).mode ≡ false
      → OnlyQuoted quote w.broker (execute adapter setup quote force d w).1.broker
        × OnlyQuoted ps.quote w.broker (close adapter setup ps pid w).1.broker
  unfolding execute close
  paper-OnlyQuoted quote force d ps pid w h = (
    if_quoted adapter setup quote w.config.engine_halted w.broker (refused halted, w) _ (inl refl)
        (if_quoted adapter setup quote
          (not (order_allowed entry w.config.kill_switch_active w.config.block_new_entries))
          w.broker (refused entry_blocked, w) _ (inl refl)
          (sim_if adapter setup quote (is_live_mode (load_runtime_mode w.config).mode) force d w
            h)),
    row_quoted ps pid (lookup pid w.positions) w h,
  )
