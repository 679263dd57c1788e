-- ===== src/Execution/Events/Drift.antt =====
-- What `reconcile_position` of execution/position_events.py answers for the logs that the executor
-- writes.
use ai_trading_system.Base.{
  ℕ, ◌+◌, ◌-◌, ◌<◌, ◌≡◌, refl, ap, ◌∙◌, Bool, false, Option, some, List, [], ◌∷◌, arith, ◌==◌, ◌&&◌,
  if◌then◌else◌,
}
use ai_trading_system.Execution.Events.{
  Event, place, ordered, opened_qty, closed_qty, reduce, Derived, RowStatus, row_close_pending,
  agrees, agrees_if_stored, matches, position_from_events, is_entry, is_close,
}

parked-agrees : (d : Derived) → agrees row_close_pending d ≡ false
parked-agrees d = ground arith

parked_if_stored : (d : Derived) → agrees_if_stored (some row_close_pending) d ≡ false
parked_if_stored d = parked-agrees d

&&-false : (a b : Bool) → b ≡ false → (a && b) ≡ false
&&-false a b h = ground arith

-- A position that is parked in the book as 'CLOSE_PENDING' is reported as drifted, whatever its
-- log says and whatever quantity is stored.
pub parked-matches :
    (events : List Event) (stored_qty : ℕ)
    → matches events stored_qty (some row_close_pending) ≡ false
unfolding matches
parked-matches events stored_qty =
    &&-false (stored_qty == (position_from_events events).net_qty) _
      (parked_if_stored (position_from_events events).status)

opened-place : (e : Event) (es : List Event) → opened_qty (place e es) ≡ opened_qty (e ∷ es)
unfolding place opened_qty
opened-place e [] = refl
opened-place e (f ∷ fs) = ground (arith, opened-place e fs)

closed-place : (e : Event) (es : List Event) → closed_qty (place e es) ≡ closed_qty (e ∷ es)
unfolding place closed_qty
closed-place e [] = refl
closed-place e (f ∷ fs) = ground (arith, closed-place e fs)

opened-ordered : (es : List Event) → opened_qty (ordered es) ≡ opened_qty es
unfolding ordered opened_qty
opened-ordered [] = refl
opened-ordered (e ∷ es) =
    opened-place e (ordered es)
    ∙ ap (λ n. (if is_entry e.event_type then e.filled_qty else 0) + n) (opened-ordered es)

closed-ordered : (es : List Event) → closed_qty (ordered es) ≡ closed_qty es
unfolding ordered closed_qty
closed-ordered [] = refl
closed-ordered (e ∷ es) =
    closed-place e (ordered es)
    ∙ ap (λ n. (if is_close e.event_type then e.filled_qty else 0) + n) (closed-ordered es)

net_lem : (es : List Event) → (position_from_events es).net_qty ≡ opened_qty es - closed_qty es
unfolding position_from_events reduce
net_lem es = omega (arith, opened-ordered es, closed-ordered es)

-- No event of the log records an entry.
abbrev pub HasNoEntry : List Event → Type 0
HasNoEntry [] = Unit
HasNoEntry (e ∷ es) = (is_entry e.event_type ≡ false) × HasNoEntry es

opened_none : (es : List Event) → HasNoEntry es → opened_qty es ≡ 0
unfolding opened_qty
opened_none [] h = refl
opened_none (e ∷ es) (first, rest) = ground (arith, opened_none es rest)

-- Without an entry event in the log, no positive stored quantity matches it.
pub unlogged-matches :
    (events : List Event) (stored_qty : ℕ) (status : Option RowStatus)
    → HasNoEntry events
    → 0 < stored_qty
    → matches events stored_qty status ≡ false
unfolding matches
unlogged-matches events stored_qty status h some_qty =
    ground (arith, net_lem events, opened_none events h)
