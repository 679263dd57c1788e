-- ===== src/Execution/Executor/Orderly.antt =====
-- The orders of a close of execution/executor.py are exits of positions that are open in the book.
use mathlib.Core.Option.{some-injective}
use ai_trading_system.Base.{
  or_default, ℕ, ◌≡◌, refl, sym, ap, ◌∙◌, subst, Bool, true, false, Option, none, some, List, [],
  ◌∷◌, All, arith, ◌==◌, if◌then◌else◌, Bool-cases, inl, inr,
}
use ai_trading_system.Base.Dict.{Dict, lookup}
use ai_trading_system.Broker.{OrderRequest, Call, returned, raised, Adapter}
use ai_trading_system.Common.RuntimeMode.{load_runtime_mode, is_live_mode}
use ai_trading_system.Execution.Policy.{close_books_fully}
use ai_trading_system.Execution.Executor.{Setup, Position, World}
use ai_trading_system.Execution.Executor.Booking.{update_at}
use ai_trading_system.Execution.Executor.Book.{
  closed_row, is_open, is_closable, parked_row, close_found, close_position, mark_close_pending,
  append_event,
}
use ai_trading_system.Execution.Executor.Exit.{
  NormalizedFill, Prices, settle, do_live_exit, cancel_bracket, broker_net_qty, is_flat, close_live,
  close_sim, close_row, close,
}
use ai_trading_system.Execution.Executor.Sent.{
  logged_prices, quoted-log, logged, IsExit, exit_request-IsExit, log_of, market_exit-log,
  cancel_bracket-log, broker_net_qty-log,
}

-- The order is an exit of a position that is open in the book.
abbrev pub IsExitOf : Dict Position → OrderRequest → Type 0
IsExitOf ps r =
    (pid : ℕ) × (p : Position) × (lookup pid ps ≡ some p) × (is_open p.status ≡ true) × IsExit p r

-- what is still open was so before, with the same row
abbrev pub StillOpen : Dict Position → Dict Position → Type 0
StillOpen before ps =
    (pid : ℕ) (q : Position)
    → lookup pid ps ≡ some q
    → is_open q.status ≡ true
    → lookup pid before ≡ some q

same_row :
    (b c : Bool) (q r x : Position) (o o' : Option Position)
    → is_open r.status ≡ false
    → is_open x.status ≡ true
    → (o' ≡ some x → o ≡ some x)
    → (if b then some (if c then r else q) else o') ≡ some x
    → (if b then some q else o) ≡ some x
same_row true true q r x o o' shut opened rest e =
    let h = ap (λ (y : Position). is_open y.status) (some-injective r x e) in
    ground (arith, sym shut ∙ h ∙ opened)
same_row true false q r x o o' shut opened rest e = e
same_row false c q r x o o' shut opened rest e = rest e

update_at-StillOpen :
    (f : Position → Position) (k : ℕ) (ps : Dict Position)
    → ((q : Position) → is_open (f q).status ≡ false)
    → StillOpen ps (update_at f k ps)
update_at-StillOpen f k [] shut pid q e o = e
update_at-StillOpen f k ((j, p) ∷ ps) shut pid q e o =
    same_row (j == pid) (j == k) p (f p) q (lookup pid ps) (lookup pid (update_at f k ps)) (shut p)
      o (λ e'. update_at-StillOpen f k ps shut pid q e' o) e

module _ {S : Type 0} (adapter : Adapter S) where
  -- what a close keeps: every order in the log is an exit of the book before, and a row that is
  -- still open is the one of that book
  abbrev pub IsOrderly : Dict Position → World (S × List OrderRequest) → Type 0
  IsOrderly before w =
      All (IsExitOf before) (log_of adapter w.broker) × StillOpen before w.positions

  updated :
      (before ps : Dict Position) (f : Position → Position) (k : ℕ)
      → ((q : Position) → is_open (f q).status ≡ false)
      → StillOpen before ps
      → StillOpen before (update_at f k ps)
  updated before ps f k shut h pid q e o = h pid q (update_at-StillOpen f k ps shut pid q e o) o

  close_found-IsOrderly :
      (before : Dict Position) (k price fees : ℕ) (o : Option Position)
      (w : World (S × List OrderRequest))
      → IsOrderly before w
      → IsOrderly before (close_found o k price fees w).1
  unfolding close_found
  close_found-IsOrderly before k price fees none w h = h
  close_found-IsOrderly before k price fees (some p) w (h, g) =
      elim (Bool-cases (is_closable p.status)) [
        | inl b ↦ rw b (h, updated before w.positions (closed_row price fees) k (λ q. refl) g)
        | inr b ↦ rw b (h, g)
      ]

  settle-IsOrderly :
      (before : Dict Position) (k : ℕ) (p : Position) (answer : Call NormalizedFill)
      (w : World (S × List OrderRequest))
      → IsOrderly before w
      → IsOrderly before (settle (logged adapter) k p answer w).1
  unfolding settle mark_close_pending append_event close_position
  settle-IsOrderly before k p raised w (h, g) =
      (h, updated before w.positions (parked_row none) k (λ q. refl) g)
  settle-IsOrderly before k p (returned nf) w (h, g) =
      elim (Bool-cases (close_books_fully nf.status nf.filled_qty p.quantity)) [
        | inl b ↦
            rw b
              (close_found-IsOrderly before k nf.avg_price nf.fees (lookup k w.positions) w (h, g))
        | inr b ↦
            rw b
              (h, updated before w.positions (parked_row (some nf.broker_order_id)) k (λ q. refl) g)
      ]

  close_live-IsOrderly :
      (before : Dict Position) (setup : Setup) (pid : ℕ) (p : Position)
      (w : World (S × List OrderRequest))
      → lookup pid w.positions ≡ some p
      → is_open p.status ≡ true
      → IsOrderly before w
      → IsOrderly before (close_live (logged adapter) setup pid p w).1
  unfolding close_live do_live_exit mark_close_pending append_event
  close_live-IsOrderly before setup pid p w found opened (h, g) =
      let s = cancel_bracket (logged adapter) p w.broker in
      let asked = broker_net_qty (logged adapter) p.instrument_token s in
      let quiet : All (IsExitOf before) (log_of adapter asked.1) =
        subst (All (IsExitOf before))
          (sym (
            broker_net_qty-log adapter p.instrument_token s
            ∙ cancel_bracket-log adapter p w.broker))
          h in
      elim (Bool-cases (is_flat (logged adapter) asked.0)) [
        | inl b ↦ rw b (quiet, updated before w.positions (parked_row none) pid (λ q. refl) g)
        | inr b ↦ rw b (
            settle-IsOrderly before pid p _ _ (
              market_exit-log adapter (IsExitOf before) setup p asked.1
                  (λ e. (pid, p, g pid p found opened, opened, exit_request-IsExit e p)) quiet,
              g,
            ))
      ]

  close_row-IsOrderly :
      (before : Dict Position) (setup : Setup) (ps : Prices S) (pid : ℕ) (o : Option Position)
      (w : World (S × List OrderRequest))
      → lookup pid w.positions ≡ o
      → IsOrderly before w
      → IsOrderly before (close_row (logged adapter) setup (logged_prices ps) pid o w).1
  unfolding close_row close_sim close_position
  close_row-IsOrderly before setup ps pid none w found h = h
  close_row-IsOrderly before setup ps pid (some p) w found h =
      elim (Bool-cases (is_open p.status)) [
        | inr b ↦ rw b h
        | inl b ↦ rw b (elim (Bool-cases (is_live_mode (load_runtime_mode w.config).mode)) [
          | inl c ↦ rw c (close_live-IsOrderly before setup pid p w found b h)
          | inr c ↦ rw c (
              close_found-IsOrderly before pid _ _ (lookup pid w.positions) _ (
                subst (All (IsExitOf before))
                    (sym (quoted-log (or_default ps.price 0 == 0) ps.quote w.broker)) h.0,
                h.1,
              ))
        ])
      ]

  pub close-IsOrderly :
      (before : Dict Position) (setup : Setup) (ps : Prices S) (pid : ℕ)
      (w : World (S × List OrderRequest))
      → IsOrderly before w
      → IsOrderly before (close (logged adapter) setup (logged_prices ps) pid w).1
  unfolding close
  close-IsOrderly before setup ps pid w h =
      close_row-IsOrderly before setup ps pid (lookup pid w.positions) w refl h
