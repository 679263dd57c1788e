-- ===== src/Execution/Lifecycle/Laws.antt =====
-- When execution/order_lifecycle.py calls an entry unsafe.
use ai_trading_system.Base.{ℕ, ◌<◌, ◌≡◌, ◌↔◌, ◌⊎◌, Bool, true, false, arith}
use ai_trading_system.Execution.Lifecycle.{protected, is_unsafe, entry_outcome}

-- An entry is unsafe exactly if a remainder may still rest at the broker, or something was filled
-- and has no bracket; and it is PROTECTED exactly if something was filled, no remainder rests and
-- the bracket stands.
pub unsafe_iff :
    (filled requested : ℕ) (dealt bracketed : Bool)
    → ((is_unsafe (entry_outcome filled requested dealt bracketed) ≡ true)
        ↔ ((dealt ≡ false) ⊎ ((0 < filled) × (bracketed ≡ false))))
      × ((entry_outcome filled requested dealt bracketed ≡ protected)
          ↔ ((0 < filled) × (dealt ≡ true) × (bracketed ≡ true)))
unfolding entry_outcome
unsafe_iff filled requested dealt bracketed = ground arith
