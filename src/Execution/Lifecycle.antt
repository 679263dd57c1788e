-- ===== src/Execution/Lifecycle.antt =====
-- execution/order_lifecycle.py: the terminal state of a live entry.
pub mod Laws
use ai_trading_system.Base.{ℕ, Bool, true, false, leb, if◌then◌else◌}

-- SUBMITTED to BRACKET_PENDING name steps on the way; the decision below never answers them.
pub data State : Type 0 where
  submitted partial_filled cancel_requested cancel_confirmed bracket_pending : State
  protected unprotected reconcile_required rejected : State

-- `state in UNSAFE_STATES`
abbrev pub is_unsafe : State → Bool
is_unsafe unprotected = true
is_unsafe reconcile_required = true
is_unsafe _ = false

unfoldable pub entry_outcome : ℕ → ℕ → Bool → Bool → State
entry_outcome filled requested remainder_dealt_with bracket_ok =
    if leb filled 0
    then (if remainder_dealt_with then rejected else reconcile_required)
    else if remainder_dealt_with
    then (if bracket_ok then protected else unprotected)
    else reconcile_required
