-- ===== src/Execution/Events.antt =====
-- execution/position_events.py, `PositionBook.reconcile` of execution/position_book.py and
-- execution/reconciler.py. A time stamp is the number that stands at its place in the order of
-- the texts, and a missing one, like a missing id or quantity, is 0; quantities of fills are never
-- negative. Profits are counted in units of 1/10000 rupee. Alerts, logs and the stored snapshots
-- of a reconciliation are left out.
pub mod Order
pub mod Drift
use ai_trading_system.Base.{
  ℕ, ◌+◌, ◌-◌, ◌*◌, ◌<◌, Bool, true, false, not, ◌&&◌, ◌||◌, Option, none, some, List, [], ◌∷◌, ltb,
  leb, ◌==◌, if◌then◌else◌, or_default, get_last?, sum, map,
}
use ai_trading_system.Base.Int.{ℤ, pos, negsuc, ◌+ℤ◌}
use ai_trading_system.Base.Round.{round_2}

pub data EventType : Type 0 where
  entry partial_close full_close close_pending other_event : EventType

pub record Event : Type 0 where
  pub ts : ℕ
  pub id : ℕ
  pub event_type : EventType
  pub filled_qty : ℕ
  pub pending_qty : ℕ
  pub realized_pnl : ℤ

-- the order of the keys (ts, id)
abbrev pub at_or_before : Event → Event → Bool
at_or_before e f = ltb e.ts f.ts || (e.ts == f.ts && leb e.id f.id)

-- `sorted` is stable: an event goes before the first one that is not earlier
unfoldable pub place : Event → List Event → List Event
place e [] = e ∷ []
place e (f ∷ fs) = let rest = place e fs in if at_or_before e f then e ∷ f ∷ fs else f ∷ rest

unfoldable pub ordered : List Event → List Event
unfolding place
ordered [] = []
ordered (e ∷ es) = place e (ordered es)

abbrev pub is_entry : EventType → Bool
is_entry entry = true
is_entry _ = false

abbrev pub is_close : EventType → Bool
is_close partial_close = true
is_close full_close = true
is_close _ = false

abbrev pub is_pending : EventType → Bool
is_pending close_pending = true
is_pending _ = false

unfoldable pub opened_qty : List Event → ℕ
opened_qty [] = 0
opened_qty (e ∷ es) = (if is_entry e.event_type then e.filled_qty else 0) + opened_qty es

unfoldable pub closed_qty : List Event → ℕ
closed_qty [] = 0
closed_qty (e ∷ es) = (if is_close e.event_type then e.filled_qty else 0) + closed_qty es

unfoldable pub realized : List Event → ℤ
realized [] = pos 0
realized (e ∷ es) = e.realized_pnl +ℤ realized es

-- `round(x, 2)` of a signed amount
unfoldable pub cents : ℤ → ℤ
cents (pos n) = pos (round_2 n 1)
cents (negsuc n) =
    pos 0 +ℤ (if round_2 (n + 1) 1 == 0 then pos 0 else negsuc (round_2 (n + 1) 1 - 1))

pub data Derived : Type 0 where
  derived_open derived_closed derived_close_pending derived_unknown : Derived

abbrev pub is_parked : Option Event → Bool
is_parked none = false
is_parked (some e) = is_pending e.event_type

unfoldable pub derived_status : Option Event → ℕ → ℕ → Derived
derived_status last opened closed =
    if is_parked last
    then derived_close_pending
    else if ltb 0 closed && leb opened closed
    then derived_closed
    else if ltb 0 opened
    then derived_open
    else derived_unknown

pub record Position : Type 0 where
  pub opened_qty : ℕ
  pub closed_qty : ℕ
  pub net_qty : ℕ
  pub status : Derived
  pub pending_qty : ℕ
  pub realized_pnl : ℤ

abbrev pub last_pending : Option Event → ℕ
last_pending none = 0
last_pending (some e) = e.pending_qty

-- the fold over events in order
unfoldable pub reduce : List Event → Position
unfolding opened_qty closed_qty realized cents derived_status
reduce evs = record {
  opened_qty = opened_qty evs;
  closed_qty = closed_qty evs;
  net_qty = opened_qty evs - closed_qty evs;
  status = derived_status (get_last? evs) (opened_qty evs) (closed_qty evs);
  pending_qty = last_pending (get_last? evs);
  realized_pnl = cents (realized evs);
}

unfoldable pub position_from_events : List Event → Position
unfolding reduce ordered
position_from_events events = reduce (ordered events)

-- The `status` of a row of `positions`, in the spelling of the book: a parked position is stored
-- as 'CLOSE_PENDING'.
pub data RowStatus : Type 0 where
  row_open row_closed row_close_pending row_flagged row_other : RowStatus

-- equality of the two texts
abbrev pub agrees : RowStatus → Derived → Bool
agrees row_open derived_open = true
agrees row_closed derived_closed = true
agrees _ _ = false

abbrev pub agrees_if_stored : Option RowStatus → Derived → Bool
agrees_if_stored none d = true
agrees_if_stored (some s) d = agrees s d

-- the `match` of `reconcile_position`; a missing status is not compared
unfoldable pub matches : List Event → ℕ → Option RowStatus → Bool
unfolding position_from_events
matches events stored_qty stored_status =
    let derived = position_from_events events in
    (stored_qty == derived.net_qty) && agrees_if_stored stored_status derived.status
