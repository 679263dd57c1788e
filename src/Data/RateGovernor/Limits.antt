-- ===== src/Data/RateGovernor/Limits.antt =====
-- The bucket of data/rate_governor.py that can never serve.
use ai_trading_system.Base.{
  ℕ, zero, suc, ◌+◌, ◌-◌, ◌*◌, ◌<◌, ◌≡◌, refl, false, none, arith, leb, min,
}
use ai_trading_system.Data.RateGovernor.{TokenBucket, scaled, refill, wait_for, acquire}

below : (full held want : ℕ) → full < want → leb want (min full held) ≡ false
below full held want h = ground arith

-- A bucket whose capacity is below what is asked for never serves, however often a caller looks and
-- however long it sleeps.
pub acquire-none :
    (sleep : ℕ → ℕ → ℕ) (looks wanted : ℕ) (b : TokenBucket) (now : ℕ)
    → b.capacity < wanted
    → acquire sleep looks wanted b now ≡ none
unfolding acquire refill
acquire-none sleep zero wanted b now h = refl
acquire-none sleep (suc looks) wanted b now h =
    rw
      (below (scaled b.capacity) (b.tokens + (now - b.last) * b.refill_per_sec) (scaled wanted)
        (omega (arith, h)))
      (acquire-none sleep looks wanted (refill now b) (sleep now (wait_for wanted (refill now b)))
        h)
