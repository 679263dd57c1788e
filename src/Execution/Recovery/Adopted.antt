-- ===== src/Execution/Recovery/Adopted.antt =====
-- The guards that execution/recovery.py arms, at the first tick.
use ai_trading_system.Base.{ℕ, Option, ◌*◌, ◌≤◌, ◌<◌, ◌≡◌, refl, ◌∙◌, none, some, arith}
use ai_trading_system.Base.Int.{ℤ, pos, negsuc}
use ai_trading_system.Broker.{buy, sell}
use ai_trading_system.Execution.Guards.{ExitSignal, stop_hit, Guard, scale, check, adjust, hit}
use ai_trading_system.Execution.Recovery.{NetPosition, adopted_guard, side_of}

-- a guard without a trailing stop, break-even or lock keeps its levels
adjusted-adopted :
    (pid stop target price : ℕ) (p : NetPosition)
    → let g = adjust (adopted_guard pid p (stop, target)) price in
      (g.stop ≡ stop * scale) × (g.target ≡ target) × (g.side ≡ side_of p.quantity)
unfolding adjust adopted_guard
adjusted-adopted pid stop target price p = (refl, refl, refl)

hit-adjusted :
    (pid price now : ℕ) (p : NetPosition) (triggers : ℕ × ℕ)
    → (check (adopted_guard pid p triggers) price now).0
      ≡ hit (adjust (adopted_guard pid p triggers) price) price
unfolding check adopted_guard
hit-adjusted pid price now p triggers = refl

hit_long :
    (g : Guard) (stop target price : ℕ)
    → g.side ≡ buy
    → g.stop ≡ stop * scale
    → g.target ≡ target
    → stop < price
    → price < target
    → hit g price ≡ none
unfolding hit
hit_long g stop target price s e t a b = ground arith

hit_short :
    (g : Guard) (stop price : ℕ)
    → g.side ≡ sell
    → g.stop ≡ stop * scale
    → stop ≤ price
    → hit g price ≡ some (record { reason = stop_hit; price = price })
unfolding hit
hit_short g stop price s e a = ground arith

-- what a guard answers strictly between its triggers, by the signed quantity that it was armed for
abbrev pub exit_between : ℤ → ℕ → Option ExitSignal
exit_between (pos n) price = none
exit_between (negsuc n) price = some (record { reason = stop_hit; price = price })

between :
    (g : Guard) (quantity : ℤ) (stop target price : ℕ)
    → g.side ≡ side_of quantity
    → g.stop ≡ stop * scale
    → g.target ≡ target
    → stop < price
    → price < target
    → hit g price ≡ exit_between quantity price
between g (pos n) stop target price s e t a b = hit_long g stop target price s e t a b
between g (negsuc n) stop target price s e t a b = hit_short g stop price s e (omega arith)

-- At a price strictly between the two triggers of the broker's bracket the guard that was armed
-- for an adopted position stays silent if the position is long, and exits with a stop hit if it is
-- short.
pub check-adopted :
    (pid stop target price now : ℕ) (p : NetPosition)
    → stop < price
    → price < target
    → (check (adopted_guard pid p (stop, target)) price now).0 ≡ exit_between p.quantity price
check-adopted pid stop target price now p a b =
    let (e, t, s) = adjusted-adopted pid stop target price p in
    let g = adjust (adopted_guard pid p (stop, target)) price in
    hit-adjusted pid price now p (stop, target) ∙ between g p.quantity stop target price s e t a b
