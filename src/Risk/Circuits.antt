-- ===== src/Risk/Circuits.antt =====
-- risk/circuits.py: the brakes beside the kill switch. Money is counted in units of 1/10000 rupee,
-- R multiples in 1/10000 and percentages in 1/10000 of a percent; a capital or a limit that is not
-- positive is 0.
pub mod Streak
use ai_trading_system.Base.{
  ℕ, suc, ◌+◌, ◌*◌, Bool, true, false, ◌||◌, Option, none, some, List, [], ◌∷◌, leb, ltb, ◌==◌,
  if◌then◌else◌, length,
}
use ai_trading_system.Base.Int.{ℤ, pos, ◌+ℤ◌, ◌-ℤ◌, ◌*ℤ◌, leb_ℤ, ltb_ℤ}

-- a percentage in 1/10000 of a percent, of one
abbrev pub whole : ℕ
whole = 1_000_000

unfoldable pub drawdown_breached : ℤ → ℤ → ℕ → ℕ → Bool
drawdown_breached peak_pnl current_pnl capital max_dd_pct =
    if capital == 0 || max_dd_pct == 0
    then false
    else leb_ℤ (pos (capital * max_dd_pct)) ((peak_pnl -ℤ current_pnl) *ℤ whole)

unfoldable pub profit_lock_breached : ℤ → ℤ → ℕ → ℕ → ℕ → Bool
profit_lock_breached peak_pnl current_pnl capital trigger_pct max_giveback_pct =
    if capital == 0 || trigger_pct == 0 || leb_ℤ peak_pnl (pos 0)
    then false
    else if ltb_ℤ (peak_pnl *ℤ whole) (pos (capital * trigger_pct))
    then false
    else leb_ℤ (current_pnl *ℤ whole) ((peak_pnl *ℤ whole) -ℤ (peak_pnl *ℤ max_giveback_pct))

abbrev pub total : List ℤ → ℤ
total [] = pos 0
total (x ∷ xs) = x +ℤ total xs

-- The mean of no trade at all raises, which is `none`.
unfoldable pub should_disable_sleeve : List ℤ → ℕ → ℤ → Option Bool
should_disable_sleeve rmultiples min_trades expectancy_floor =
    if ltb (length rmultiples) min_trades
    then some false
    else if length rmultiples == 0
    then none
    else some (ltb_ℤ (total rmultiples) (expectancy_floor *ℤ length rmultiples))

unfoldable pub period_loss_breached : ℤ → ℕ → ℕ → Bool
period_loss_breached realized_pnl capital max_loss_pct =
    if capital == 0 || max_loss_pct == 0
    then false
    else leb_ℤ (realized_pnl *ℤ whole) (pos 0 -ℤ pos (capital * max_loss_pct))

-- the loop of `loss_streak_hit`
unfoldable pub streak_from : ℕ → ℕ → List ℤ → Bool
streak_from max_consecutive streak [] = false
streak_from max_consecutive streak (pnl ∷ pnls) =
    let rest = streak_from max_consecutive (suc streak) pnls in
    if ltb_ℤ pnl (pos 0) then (if leb max_consecutive (suc streak) then true else rest) else false

unfoldable pub loss_streak_hit : List ℤ → ℕ → Bool
unfolding streak_from
loss_streak_hit pnls max_consecutive =
    if max_consecutive == 0 then false else streak_from max_consecutive 0 pnls
