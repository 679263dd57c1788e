-- ===== src/Risk/KillSwitch/Latch.antt =====
-- When the kill switch of risk/kill_switch.py trips, and that it stays until it is reset.
use ai_trading_system.Base.{
  ℕ, ◌≡◌, ◌↔◌, ◌⊎◌, refl, Bool, true, false, not, ◌&&◌, Option, List, [], ◌∷◌, arith, inl,
  if◌then◌else◌,
}
use ai_trading_system.Base.Int.{ℤ}
use ai_trading_system.Execution.Policy.{order_allowed, entry, exit}
use ai_trading_system.Risk.KillSwitch.{
  Desk, ensure_daily_row, status, trip, is_breached, check_and_maybe_trip, update_pnl,
}

-- The calls of the risk layer between two resets.
pub data Step : Type 0 where
  ensure : ℕ → ℕ → Step
  book : Option ℤ → Option ℤ → Step
  check : Step

unfoldable pub step : Step → Desk → Desk
step (ensure pct capital) d = ensure_daily_row pct capital d
step (book realized unrealized) d = update_pnl realized unrealized d
step check d = check_and_maybe_trip d

unfoldable pub day : List Step → Desk → Desk
unfolding step
day [] d = d
day (s ∷ ss) d = day ss (step s d)

-- the flag after a test that may trip
active-trip_if :
    (b : Bool) (d : Desk)
    → (if b then trip d else d).config.kill_switch_active
      ≡ (if b then true else d.config.kill_switch_active)
unfolding trip
active-trip_if true d = refl
active-trip_if false d = refl

checked_iff :
    (active breached : Bool)
    → ((if not active && breached then true else active) ≡ true)
      ↔ ((active ≡ true) ⊎ (breached ≡ true))
checked_iff active breached = ground arith

-- A check leaves the switch active exactly if it was active, or today's row in the active
-- namespace has a loss limit below zero and a day's profit at or below it.
pub trip_iff :
    (d : Desk)
    → ((check_and_maybe_trip d).config.kill_switch_active ≡ true)
      ↔ ((d.config.kill_switch_active ≡ true) ⊎ (is_breached (status d) ≡ true))
unfolding check_and_maybe_trip
trip_iff d =
    rw (active-trip_if (not d.config.kill_switch_active && is_breached (status d)) d)
      (checked_iff d.config.kill_switch_active (is_breached (status d)))

step-active :
    (s : Step) (d : Desk)
    → d.config.kill_switch_active ≡ true
    → (step s d).config.kill_switch_active ≡ true
unfolding step ensure_daily_row update_pnl
step-active (ensure pct capital) d h = h
step-active (book realized unrealized) d h = h
step-active check d h = (trip_iff d).1 (inl h)

-- Once it is active the switch stays active over any run of checks and bookings, in whatever order:
-- entries stay forbidden and exits stay allowed, whether or not new entries are blocked as well.
pub latched-day :
    (ss : List Step) (d : Desk) (blocked : Bool)
    → d.config.kill_switch_active ≡ true
    → let active = (day ss d).config.kill_switch_active in
      (active ≡ true)
      × (order_allowed entry active blocked ≡ false)
      × (order_allowed exit active blocked ≡ true)
unfolding day order_allowed
latched-day [] d blocked h = rw h (refl, refl, refl)
latched-day (s ∷ ss) d blocked h = latched-day ss (step s d) blocked (step-active s d h)
