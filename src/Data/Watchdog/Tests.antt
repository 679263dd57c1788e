-- ===== src/Data/Watchdog/Tests.antt =====
-- The watchdog at its default limits, with beats that are half a minute apart.
use ai_trading_system.Base.{◌≡◌, refl, true, false, arith, replicate, All-replicate}
use ai_trading_system.Data.Watchdog.{Limits, beat}
use ai_trading_system.Data.Watchdog.Silence.{waiting, fires_in, IsShort, fires_in-false}

abbrev defaults : Limits
defaults = record { staleness = 30_000; reconnect_after = 60_000; failsafe_after = 180_000 }

-- an hour without a tick
fires_in-false_example :
    fires_in defaults true true 1_000_000 (replicate 120 30_000) (waiting 1_000_000 0 false) ≡ false
fires_in-false_example =
    fires_in-false defaults true 1_000_000 1_000_000 0 (replicate 120 30_000) (omega arith)
      (omega arith) (omega arith) (omega arith) (omega arith) (omega arith)
      (All-replicate IsShort 120 30_000 (omega arith))

-- where the reconnects fail, the same silence fires it after three minutes
fires_when_down :
    fires_in defaults true false 1_000_000 (replicate 7 30_000) (waiting 1_000_000 0 false) ≡ true
unfolding beat
fires_when_down = refl
