-- ===== src/Execution/Executor/Closing.antt =====
-- What a close of execution/executor.py leaves in the book, and when it places an order.
use mathlib.Core.Option.{some-injective, none-ne-some}
use ai_trading_system.Base.{
  ℕ, ◌≡◌, refl, sym, ◌∙◌, subst, ◌⊎◌, inl, inr, false, Option, none, some, arith, Bool-cases, [],
  ◌∷◌,
}
use ai_trading_system.Base.Dict.{Dict, lookup}
use ai_trading_system.Broker.{Adapter, Call, returned, raised}
use ai_trading_system.Common.RuntimeMode.{load_runtime_mode, is_live_mode}
use ai_trading_system.Execution.Events.{RowStatus, row_open}
use ai_trading_system.Execution.Policy.{close_books_fully}
use ai_trading_system.Execution.Executor.{Setup, Position, World}
use ai_trading_system.Execution.Executor.Booking.{update_at}
use ai_trading_system.Execution.Executor.Book.{
  closed_row, is_open, parked_row, close_found, close_position, mark_close_pending, append_event,
}
use ai_trading_system.Execution.Executor.Exit.{
  NormalizedFill, Prices, settle, do_live_exit, cancel_bracket, broker_net_qty, is_flat, close_live,
  close_sim, close_row, close,
}

lookup-update_at :
    (f : Position → Position) (pid : ℕ) (p : Position) (ps : Dict Position)
    → lookup pid ps ≡ some p
    → lookup pid (update_at f pid ps) ≡ some (f p)
lookup-update_at f pid p [] h = absurd (none-ne-some _ h)
lookup-update_at f pid p ((k, q) ∷ ps) h = ground (arith, lookup-update_at f pid p ps)

settled_at :
    (f : Position → Position) (pid : ℕ) (p q : Position) (ps : Dict Position)
    → lookup pid ps ≡ some p
    → is_open (f p).status ≡ false
    → lookup pid (update_at f pid ps) ≡ some q
    → is_open q.status ≡ false
settled_at f pid p q ps found h e =
    subst (λ r. is_open r.status ≡ false)
      (some-injective (f p) q (sym (lookup-update_at f pid p ps found) ∙ e)) h

status_cases : (s : RowStatus) → (s ≡ row_open) ⊎ (is_open s ≡ false)
status_cases s = ground arith

module _ {S : Type 0} (adapter : Adapter S) (setup : Setup) where
  -- the row is no longer open
  abbrev pub IsSettled : ℕ → World S → Type 0
  IsSettled pid w = (p : Position) → lookup pid w.positions ≡ some p → is_open p.status ≡ false

  row-unsettled :
      (ps : Prices S) (pid : ℕ) (o : Option Position) (w : World S)
      → ((p : Position) → o ≡ some p → is_open p.status ≡ false)
      → close_row adapter setup ps pid o w ≡ (none, w)
  unfolding close_row
  row-unsettled ps pid none w h = refl
  row-unsettled ps pid (some p) w h = rw (h p refl) refl

  close_settled :
      (ps : Prices S) (pid : ℕ) (w : World S)
      → IsSettled pid w
      → close adapter setup ps pid w ≡ (none, w)
  unfolding close
  close_settled ps pid w h = row-unsettled ps pid (lookup pid w.positions) w h

  close_position-IsSettled :
      (pid : ℕ) (p : Position) (exit_price fees : ℕ) (w : World S)
      → lookup pid w.positions ≡ some p
      → p.status ≡ row_open
      → IsSettled pid (close_position pid exit_price fees w).1
  unfolding close_position close_found
  close_position-IsSettled pid p exit_price fees w found opened =
      subst (λ o. IsSettled pid (close_found o pid exit_price fees w).1) (sym found)
        (rw opened (λ q. settled_at (closed_row exit_price fees) pid p q w.positions found refl))

  settle-IsSettled :
      (pid : ℕ) (p : Position) (answer : Call NormalizedFill) (w : World S)
      → lookup pid w.positions ≡ some p
      → p.status ≡ row_open
      → IsSettled pid (settle adapter pid p answer w).1
  unfolding settle mark_close_pending append_event
  settle-IsSettled pid p raised w found opened =
      λ q. settled_at (parked_row none) pid p q w.positions found refl
  settle-IsSettled pid p (returned nf) w found opened =
      elim (Bool-cases (close_books_fully nf.status nf.filled_qty p.quantity)) [
        | inl b ↦ rw b (close_position-IsSettled pid p nf.avg_price nf.fees w found opened)
        | inr b ↦
            rw b (λ q.
              settled_at (parked_row (some nf.broker_order_id)) pid p q w.positions found refl)
      ]

  close_live-IsSettled :
      (pid : ℕ) (p : Position) (w : World S)
      → lookup pid w.positions ≡ some p
      → p.status ≡ row_open
      → IsSettled pid (close_live adapter setup pid p w).1
  unfolding close_live do_live_exit mark_close_pending append_event
  close_live-IsSettled pid p w found opened =
      elim (Bool-cases (
        is_flat adapter
          (broker_net_qty adapter p.instrument_token (cancel_bracket adapter p w.broker)).0)) [
            | inl b ↦ rw b (λ q. settled_at (parked_row none) pid p q w.positions found refl)
            | inr b ↦ rw b (settle-IsSettled pid p _ _ found opened)
          ]

  pub row-IsSettled :
      (ps : Prices S) (pid : ℕ) (o : Option Position) (w : World S)
      → lookup pid w.positions ≡ o
      → IsSettled pid (close_row adapter setup ps pid o w).1
  unfolding close_row close_sim
  row-IsSettled ps pid none w found = λ q e. absurd (none-ne-some q (sym found ∙ e))
  row-IsSettled ps pid (some p) w found = elim (status_cases p.status) [
    | inr closed ↦
        rw closed
          (λ q e. subst (λ r. is_open r.status ≡ false) (some-injective p q (sym found ∙ e)) closed)
    | inl opened ↦ rw opened (elim (Bool-cases (is_live_mode (load_runtime_mode w.config).mode)) [
      | inl b ↦ rw b (close_live-IsSettled pid p w found opened)
      | inr b ↦ rw b (close_position-IsSettled pid p _ _ _ found opened)
    ])
  ]

  -- A second close of a position, whatever prices it is offered, does nothing: it sends no order,
  -- writes no row and touches no guard.
  pub close_twice :
      (ps ps' : Prices S) (pid : ℕ) (w : World S)
      → let w' = (close adapter setup ps pid w).1 in close adapter setup ps' pid w' ≡ (none, w')
  unfolding close
  close_twice ps ps' pid w =
      close_settled ps' pid _ (row-IsSettled ps pid (lookup pid w.positions) w refl)
