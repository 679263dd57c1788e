-- ===== src/Execution/Executor/Bounded.antt =====
-- What an entry of execution/executor.py reports as filled, on every path of `execute`.
use ai_trading_system.Base.{
  ℕ, ◌≤◌, Bool, true, false, not, Option, none, arith, ◌==◌, if◌then◌else◌, Bool-cases,
  Option-cases, inl, inr, or_default,
}
use ai_trading_system.Broker.{Adapter}
use ai_trading_system.Common.State.{live}
use ai_trading_system.Common.RuntimeMode.{load_runtime_mode, is_live_mode}
use ai_trading_system.Execution.Lifecycle.{State}
use ai_trading_system.Execution.Policy.{
  order_allowed, entry, exit_product_supported, entry_meta_block_reason,
}
use ai_trading_system.Execution.Executor.{Decision, Setup, World, freeze_limit}
use ai_trading_system.Execution.Executor.Slices.{slice}
use ai_trading_system.Execution.Executor.Clips.{Progress, no_progress, send_clips}
use ai_trading_system.Execution.Executor.Entry.{
  EntryResult, refused, halted, entry_blocked, entry_meta, entry_result, after_clips, execute_live,
  execute_sim, simulated, execute, final_state,
}
use ai_trading_system.Execution.Executor.Honest.{IsHonest, entry-bounded}

module _ {S : Type 0} (adapter : Adapter S) (Knows : ℕ → ℕ → S → Type 0)
    (honest : IsHonest adapter Knows) where
  -- an answer reports at most the quantity
  abbrev IsBounded : ℕ → EntryResult × World S → Type 0
  IsBounded q (r, w) = r.filled_quantity ≤ q

  if-IsBounded :
      (b : Bool) (q : ℕ) (x y : EntryResult × World S)
      → IsBounded q x
      → IsBounded q y
      → IsBounded q (if b then x else y)
  if-IsBounded true q x y hx hy = hx
  if-IsBounded false q x y hx hy = hy

  entry_result-IsBounded :
      (d : Decision) (p : Progress) (pid q : ℕ) (st : State)
      → p.filled ≤ q
      → (entry_result adapter d p pid st).filled_quantity ≤ q
  unfolding entry_result
  entry_result-IsBounded d p pid q st h = ground arith

  execute_live-IsBounded :
      (setup : Setup) (d : Decision) (w : World S)
      → IsBounded d.quantity (execute_live adapter setup d w)
  unfolding execute_live after_clips
  execute_live-IsBounded setup d w =
      elim (Bool-cases (exit_product_supported d.exchange d.product)) [
        | inr p ↦ rw p (omega arith)
        | inl p ↦
            rw p
              (elim (Option-cases (
                entry_meta_block_reason live d.quantity d.entry_price (entry_meta setup d)
                  d.order_type setup.today)) [
                    | inr (r, q) ↦ rw q (omega arith)
                    | inl q ↦ rw q (
                        let p =
                          (send_clips adapter d (slice d.quantity (freeze_limit setup)) no_progress
                            w.broker).0 in
                        entry_result-IsBounded d p w.next_id d.quantity (final_state adapter d p)
                          (entry-bounded adapter Knows honest setup d w.broker))
                  ])
      ]

  execute_sim-IsBounded :
      (setup : Setup) (quote : S → Option ℕ × S) (d : Decision) (w : World S)
      → IsBounded d.quantity (execute_sim adapter setup quote none d w)
  unfolding execute_sim simulated
  execute_sim-IsBounded setup quote d w = elim (Bool-cases (or_default (quote w.broker).0 0 == 0)) [
    | inl p ↦ rw p (omega arith)
    | inr p ↦ rw p (omega arith)
  ]

  -- At a broker that is honest about the orders it takes, an entry that is not forced to a quantity
  -- reports at most the decision's quantity as filled, in live and in simulated mode.
  pub execute-bounded :
      (setup : Setup) (quote : S → Option ℕ × S) (d : Decision) (w : World S)
      → (execute adapter setup quote none d w).0.filled_quantity ≤ d.quantity
  unfolding execute
  execute-bounded setup quote d w =
      let mode = is_live_mode (load_runtime_mode w.config).mode in
      let run =
        if mode then execute_live adapter setup d w else execute_sim adapter setup quote none d w in
      let closed =
        not (order_allowed entry w.config.kill_switch_active w.config.block_new_entries) in
      if-IsBounded w.config.engine_halted d.quantity (refused halted, w)
        (if closed then (refused entry_blocked, w) else run) (omega arith)
        (if-IsBounded closed d.quantity (refused entry_blocked, w) run (omega arith)
          (if-IsBounded mode d.quantity (execute_live adapter setup d w)
            (execute_sim adapter setup quote none d w) (execute_live-IsBounded setup d w)
            (execute_sim-IsBounded setup quote d w)))
