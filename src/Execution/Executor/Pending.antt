-- ===== src/Execution/Executor/Pending.antt =====
-- The slow loops of execution/executor.py: `resolve_pending_closes` and `reconcile_brackets`. A
-- bracket's trigger id is stored as a text, so it is always there.
pub mod Orphans
use ai_trading_system.Base.{
  ℕ, suc, ◌+◌, Bool, true, false, not, ◌&&◌, Option, none, some, List, [], ◌∷◌, ◌==◌, if◌then◌else◌,
  or_default,
}
use ai_trading_system.Base.Dict.{Dict, lookup}
use ai_trading_system.Broker.{Call, returned, raised, Adapter, opposite}
use ai_trading_system.Common.State.{Mode, live}
use ai_trading_system.Common.RuntimeMode.{is_live_mode}
use ai_trading_system.Execution.Costs.{segment_key, compute_leg}
use ai_trading_system.Execution.Events.{RowStatus, row_close_pending, full_close}
use ai_trading_system.Execution.Executor.{Setup, Position, BracketRow, World}
use ai_trading_system.Execution.Executor.Polling.{Polled, poll_order}
use ai_trading_system.Execution.Executor.Clips.{is_status_complete}
use ai_trading_system.Execution.Executor.Book.{is_open, close_position, append_event, released}
use ai_trading_system.Execution.Executor.Exit.{row_of, type_of}

abbrev pub is_parked : RowStatus → Bool
is_parked row_close_pending = true
is_parked _ = false

-- `pending_closes("live")`
unfoldable pub pending_closes : Dict Position → Dict Position
pending_closes [] = []
pending_closes ((pid, p) ∷ ps) =
    let rest = pending_closes ps in
    if is_parked p.status && is_live_mode p.mode then (pid, p) ∷ rest else rest

-- how many were resolved, and the world
abbrev pub Resolved : Type 0 → Type 0
Resolved S = ℕ × World S

module _ {S : Type 0} (adapter : Adapter S) where
  -- the part of the loop's body after the poll; one that raises is only logged
  unfoldable pub book_pending : Setup → ℕ → Position → Call Polled × S → Resolved S → Resolved S
  book_pending setup pid p (raised, s) (n, w) = (n, record w { broker = s })
  book_pending setup pid p (returned st, s) (n, w) =
      let segment = segment_key p.sleeve (type_of (row_of setup p.instrument_token)) in
      let fees =
        if st.avg_price == 0
        then 0
        else (compute_leg setup.cost_model segment (opposite p.side) p.quantity
            st.avg_price).total in
      if is_status_complete st.status
      then (
        suc n,
        append_event pid full_close none
            (close_position pid st.avg_price fees (record w { broker = s })).1,
      )
      else (n, record w { broker = s })

  unfoldable pub resolve_one : Setup → ℕ → Position → Resolved S → Resolved S
  unfolding book_pending
  resolve_one setup pid p (n, w) =
      let oid = or_default p.exit_order 0 in
      if oid == 0
      then (n, w)
      else book_pending setup pid p (poll_order adapter 1 oid w.broker) (n, w)

  unfoldable pub resolve_all : Setup → Dict Position → Resolved S → Resolved S
  unfolding resolve_one
  resolve_all setup [] r = r
  resolve_all setup ((pid, p) ∷ ps) r = resolve_all setup ps (resolve_one setup pid p r)

  -- `resolve_pending_closes`
  unfoldable pub resolve_pending_closes : Setup → World S → Resolved S
  unfolding resolve_all pending_closes
  resolve_pending_closes setup w = resolve_all setup (pending_closes w.positions) (0, w)

-- `pos and pos["status"] == "open"`
abbrev pub open_at : Dict Position → ℕ → Bool
open_at ps pid = elim (lookup pid ps) [ none ↦ false | some p ↦ is_open p.status ]

-- `active_brackets`
unfoldable pub active_brackets : List BracketRow → List BracketRow
active_brackets [] = []
active_brackets (b ∷ bs) = let rest = active_brackets bs in if b.is_active then b ∷ rest else rest

module _ {S : Type 0} (adapter : Adapter S) where
  -- the deletion of an orphaned trigger, and the row that says so
  unfoldable pub cancel_orphan : BracketRow → World S → World S
  cancel_orphan b w = record w {
    broker = (adapter.delete_gtt b.gtt w.broker).1;
    brackets = released b.position_id w.brackets;
  }

  unfoldable pub sweep : List BracketRow → Resolved S → Resolved S
  unfolding cancel_orphan
  sweep [] r = r
  sweep (b ∷ bs) (n, w) =
      sweep bs (if open_at w.positions b.position_id then (n, w) else (suc n, cancel_orphan b w))

  -- `reconcile_brackets`
  unfoldable pub reconcile_brackets : World S → Resolved S
  unfolding sweep active_brackets
  reconcile_brackets w = sweep (active_brackets w.brackets) (0, w)
