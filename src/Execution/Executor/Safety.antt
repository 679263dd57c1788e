-- ===== src/Execution/Executor/Safety.antt =====
-- The entry gate of execution/executor.py around `_execute_live`.
use mathlib.Core.Option.{some-injective, none-ne-some}
use ai_trading_system.Base.{
  ℕ, ◌≡◌, refl, sym, ◌∙◌, subst, inl, inr, Bool, true, false, not, Option, none, some, arith, ◌==◌,
  if◌then◌else◌, Bool-cases, Option-cases, or_default,
}
use ai_trading_system.Broker.{Adapter}
use ai_trading_system.Common.State.{live}
use ai_trading_system.Common.RuntimeMode.{load_runtime_mode, is_live_mode}
use ai_trading_system.Execution.Lifecycle.{State, is_unsafe}
use ai_trading_system.Execution.Policy.{
  order_allowed, entry, exit_product_supported, entry_meta_block_reason,
}
use ai_trading_system.Execution.Executor.{Decision, Setup, World}
use ai_trading_system.Execution.Executor.Clips.{Progress}
use ai_trading_system.Execution.Executor.Entry.{
  EntryResult, outcome_rejected, EntryReason, halted, entry_blocked, unsupported_product,
  meta_blocked, refused, flag_if, book_entry, entry_result, final_state, after_clips, execute_live,
  execute_sim, simulated, execute, entry_meta,
}

-- an entry was refused before anything was sent
abbrev pub IsRefused : {S : Type 0} → World S → EntryResult × World S → Type 0
IsRefused w (r, w') = (r.outcome ≡ outcome_rejected) × (r.lifecycle_state ≡ none) × (w' ≡ w)

module _ {S : Type 0} (adapter : Adapter S) (setup : Setup) where
  pub blocked-IsRefused :
      (quote : S → Option ℕ × S) (force : Option ℕ) (d : Decision) (w : World S)
      → w.config.block_new_entries ≡ true
      → IsRefused w (execute adapter setup quote force d w)
  unfolding execute order_allowed
  blocked-IsRefused quote force d w h = elim (Bool-cases (w.config.engine_halted)) [
    | inl p ↦ rw p (refl, refl, refl)
    | inr p ↦
        rw (p, h)
          (elim (Bool-cases (w.config.kill_switch_active)) [
            | inl q ↦ rw q (refl, refl, refl)
            | inr q ↦ rw q (refl, refl, refl)
          ])
  ]

  state-entry_result :
      (d : Decision) (p : Progress) (pid : ℕ) (st : State)
      → (entry_result adapter d p pid st).lifecycle_state ≡ some st
  unfolding entry_result
  state-entry_result d p pid st = ground arith

  block-flag_if :
      (b : Bool) (w : World S) → b ≡ true → (flag_if b w).config.block_new_entries ≡ true
  unfolding flag_if
  block-flag_if true w h = refl
  block-flag_if false w h = ground arith

  -- what every run of an entry satisfies
  abbrev IsGuarded : World S → EntryResult × World S → Type 0
  IsGuarded w (r, w') =
      ((st : State)
        → r.lifecycle_state ≡ some st
        → is_unsafe st ≡ true
        → w'.config.block_new_entries ≡ true)

  refused-IsGuarded : (r : EntryReason) (w : World S) → IsGuarded w (refused r, w)
  refused-IsGuarded r w = λ st e _. absurd (none-ne-some _ e)

  after_clips-IsGuarded :
      (d : Decision) (p : Progress) (w0 w : World S)
      → IsGuarded w0 (after_clips adapter setup d p w)
  unfolding after_clips
  after_clips-IsGuarded d p w0 w st e u = block-flag_if _ (book_entry adapter setup d p w) (
      subst (λ s. is_unsafe s ≡ true)
        (sym (
          some-injective _ st
            (sym (state-entry_result d p w.next_id (final_state adapter d p)) ∙ e)))
        u)

  execute_live-IsGuarded :
      (d : Decision) (w : World S) → IsGuarded w (execute_live adapter setup d w)
  unfolding execute_live
  execute_live-IsGuarded d w = elim (Bool-cases (exit_product_supported d.exchange d.product)) [
    | inr p ↦ rw p (refused-IsGuarded unsupported_product w)
    | inl p ↦
        rw p
          (elim (Option-cases (
            entry_meta_block_reason live d.quantity d.entry_price (entry_meta setup d) d.order_type
              setup.today)) [
                | inl q ↦ rw q (after_clips-IsGuarded d _ w _)
                | inr (r, q) ↦ rw q (refused-IsGuarded meta_blocked w)
              ])
  ]

  execute_sim-IsGuarded :
      (quote : S → Option ℕ × S) (force : Option ℕ) (d : Decision) (w : World S)
      → IsGuarded w (execute_sim adapter setup quote force d w)
  unfolding execute_sim simulated
  execute_sim-IsGuarded quote force d w = elim (Bool-cases (or_default (quote w.broker).0 0 == 0)) [
    | inl p ↦ rw p (λ st e _. absurd (none-ne-some _ e))
    | inr p ↦ rw p (λ st e _. absurd (none-ne-some _ e))
  ]

  IsGuarded-if :
      (b : Bool) (w : World S) (x y : EntryResult × World S)
      → IsGuarded w x
      → IsGuarded w y
      → IsGuarded w (if b then x else y)
  IsGuarded-if true w x y hx hy = hx
  IsGuarded-if false w x y hx hy = hy

  execute-IsGuarded :
      (quote : S → Option ℕ × S) (force : Option ℕ) (d : Decision) (w : World S)
      → IsGuarded w (execute adapter setup quote force d w)
  unfolding execute
  execute-IsGuarded quote force d w =
      let run =
        if is_live_mode (load_runtime_mode w.config).mode
        then execute_live adapter setup d w
        else execute_sim adapter setup quote force d w in
      let is_closed =
        not (order_allowed entry w.config.kill_switch_active w.config.block_new_entries) in
      IsGuarded-if w.config.engine_halted w (refused halted, w)
        (if is_closed then (refused entry_blocked, w) else run) (refused-IsGuarded halted w)
        (IsGuarded-if is_closed w (refused entry_blocked, w) run (refused-IsGuarded entry_blocked w)
          (IsGuarded-if (is_live_mode (load_runtime_mode w.config).mode) w
            (execute_live adapter setup d w) (execute_sim adapter setup quote force d w)
            (execute_live-IsGuarded d w) (execute_sim-IsGuarded quote force d w)))

  -- An entry whose lifecycle ends in an unsafe state blocks new entries: whatever decision comes
  -- next, in whatever mode, is rejected and leaves the broker, the book and the guards as they were.
  pub unsafe-execute :
      (quote : S → Option ℕ × S) (force : Option ℕ) (quote' : S → Option ℕ × S) (force' : Option ℕ)
      (d d' : Decision) (st : State) (w : World S)
      → (execute adapter setup quote force d w).0.lifecycle_state ≡ some st
      → is_unsafe st ≡ true
      → IsRefused
          (execute adapter setup quote force d w).1
          (execute adapter setup quote' force' d' (execute adapter setup quote force d w).1)
  unsafe-execute quote force quote' force' d d' st w e u =
      blocked-IsRefused quote' force' d' _ (execute-IsGuarded quote force d w st e u)
