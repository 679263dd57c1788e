-- ===== src/Execution/Executor/Settled.antt =====
-- A close of execution/executor.py never opens a row, and leaves its own row settled.
use mathlib.Core.Option.{some-injective}
use ai_trading_system.Base.{
  ℕ, ◌≡◌, refl, subst, inl, inr, Bool, true, false, Option, none, some, [], ◌∷◌, ◌==◌,
  if◌then◌else◌, Bool-cases,
}
use ai_trading_system.Base.Dict.{Dict, lookup}
use ai_trading_system.Broker.{Adapter, Call, returned, raised}
use ai_trading_system.Common.RuntimeMode.{load_runtime_mode, is_live_mode}
use ai_trading_system.Execution.Policy.{close_books_fully}
use ai_trading_system.Execution.Executor.{Setup, Position, World}
use ai_trading_system.Execution.Executor.Booking.{update_at}
use ai_trading_system.Execution.Executor.Book.{
  closed_row, is_open, is_closable, parked_row, close_found, close_position, mark_close_pending,
  append_event,
}
use ai_trading_system.Execution.Executor.Exit.{
  NormalizedFill, Prices, settle, do_live_exit, cancel_bracket, broker_net_qty, is_flat, close_live,
  close_sim, close_row, close,
}
use ai_trading_system.Execution.Executor.Closing.{IsSettled, row-IsSettled}

-- no row, or one that is not open
abbrev pub IsShut : Option Position → Type 0
IsShut o = (p : Position) → o ≡ some p → is_open p.status ≡ false

-- the row is still open
abbrev pub is_open_row : Option Position → Bool
is_open_row none = false
is_open_row (some p) = is_open p.status

pub shut_row : (o : Option Position) → IsShut o → is_open_row o ≡ false
shut_row none h = refl
shut_row (some p) h = h p refl

row-IsShut :
    (b c : Bool) (q r : Position) (o o' : Option Position)
    → is_open r.status ≡ false
    → (IsShut o → IsShut o')
    → IsShut (if b then some q else o)
    → IsShut (if b then some (if c then r else q) else o')
row-IsShut true true q r o o' h rest g =
    λ p e. subst (λ x. is_open x.status ≡ false) (some-injective r p e) h
row-IsShut true false q r o o' h rest g = g
row-IsShut false c q r o o' h rest g = rest g

update_at-IsShut :
    (f : Position → Position) (k pid : ℕ) (ps : Dict Position)
    → ((q : Position) → is_open (f q).status ≡ false)
    → IsShut (lookup pid ps)
    → IsShut (lookup pid (update_at f k ps))
update_at-IsShut f k pid [] h g = g
update_at-IsShut f k pid ((j, q) ∷ ps) h g =
    row-IsShut (j == pid) (j == k) q (f q) (lookup pid ps) (lookup pid (update_at f k ps)) (h q)
      (update_at-IsShut f k pid ps h) g

module _ {S : Type 0} (adapter : Adapter S) (setup : Setup) (pid k : ℕ) where
  close_found-keeps :
      (o : Option Position) (price fees : ℕ) (w : World S)
      → IsSettled adapter setup pid w
      → IsSettled adapter setup pid (close_found o k price fees w).1
  unfolding close_found
  close_found-keeps none price fees w g = g
  close_found-keeps (some p) price fees w g = elim (Bool-cases (is_closable p.status)) [
    | inl b ↦ rw b (update_at-IsShut (closed_row price fees) k pid w.positions (λ q. refl) g)
    | inr b ↦ rw b g
  ]

  parked-keeps :
      (oid : Option ℕ) (ps : Dict Position)
      → IsShut (lookup pid ps)
      → IsShut (lookup pid (update_at (parked_row oid) k ps))
  parked-keeps oid ps g = update_at-IsShut (parked_row oid) k pid ps (λ q. refl) g

  settle-keeps :
      (p : Position) (answer : Call NormalizedFill) (w : World S)
      → IsSettled adapter setup pid w
      → IsSettled adapter setup pid (settle adapter k p answer w).1
  unfolding settle mark_close_pending append_event close_position
  settle-keeps p raised w g = parked-keeps none w.positions g
  settle-keeps p (returned nf) w g =
      elim (Bool-cases (close_books_fully nf.status nf.filled_qty p.quantity)) [
        | inl b ↦ rw b (close_found-keeps (lookup k w.positions) nf.avg_price nf.fees w g)
        | inr b ↦ rw b (parked-keeps (some nf.broker_order_id) w.positions g)
      ]

  close_live-keeps :
      (p : Position) (w : World S)
      → IsSettled adapter setup pid w
      → IsSettled adapter setup pid (close_live adapter setup k p w).1
  unfolding close_live do_live_exit mark_close_pending append_event
  close_live-keeps p w g =
      elim (Bool-cases (
        is_flat adapter
          (broker_net_qty adapter p.instrument_token (cancel_bracket adapter p w.broker)).0)) [
            | inl b ↦ rw b (parked-keeps none w.positions g)
            | inr b ↦ rw b (settle-keeps p _ _ g)
          ]

  close_row-keeps :
      (ps : Prices S) (o : Option Position) (w : World S)
      → IsSettled adapter setup pid w
      → IsSettled adapter setup pid (close_row adapter setup ps k o w).1
  unfolding close_row close_sim close_position
  close_row-keeps ps none w g = g
  close_row-keeps ps (some p) w g = elim (Bool-cases (is_open p.status)) [
    | inr b ↦ rw b g
    | inl b ↦ rw b (elim (Bool-cases (is_live_mode (load_runtime_mode w.config).mode)) [
      | inl c ↦ rw c (close_live-keeps p w g)
      | inr c ↦ rw c (close_found-keeps (lookup k w.positions) _ _ _ g)
    ])
  ]

  pub close-keeps :
      (ps : Prices S) (w : World S)
      → IsSettled adapter setup pid w
      → IsSettled adapter setup pid (close adapter setup ps k w).1
  unfolding close
  close-keeps ps w g = close_row-keeps ps (lookup k w.positions) w g

module _ {S : Type 0} (adapter : Adapter S) (setup : Setup) where
  pub close-IsSettled :
      (ps : Prices S) (pid : ℕ) (w : World S)
      → IsSettled adapter setup pid (close adapter setup ps pid w).1
  unfolding close
  close-IsSettled ps pid w = row-IsSettled adapter setup ps pid (lookup pid w.positions) w refl
