-- ===== src/Risk/Circuits/Streak.antt =====
-- When `loss_streak_hit` of risk/circuits.py stands down.
use ai_trading_system.Base.{
  ℕ, zero, suc, ◌+◌, ◌<◌, ◌≡◌, ◌↔◌, refl, ap, leb, true, false, List, [], ◌∷◌, arith, All, take,
  length, Bool-cases, inl, inr,
}
use ai_trading_system.Base.Int.{ℤ, pos, ltb_ℤ}
use ai_trading_system.Risk.Circuits.{streak_from, loss_streak_hit}

abbrev pub IsLoss : ℤ → Type 0
IsLoss pnl = ltb_ℤ pnl (pos 0) ≡ true

-- the first `n` trades are there, and all are losses
abbrev pub AllLost : ℕ → List ℤ → Type 0
AllLost n pnls = (length (take n pnls) ≡ n) × All IsLoss (take n pnls)

not_yet : (k streak limit : ℕ) → limit ≡ streak + suc (suc k) → leb limit (suc streak) ≡ false
not_yet k streak limit e = ground arith

streak_iff :
    (k streak limit : ℕ) (pnls : List ℤ)
    → limit ≡ streak + suc k
    → (streak_from limit streak pnls ≡ true) ↔ AllLost (suc k) pnls
unfolding streak_from
streak_iff k streak limit [] e = ground arith
streak_iff zero streak limit (pnl ∷ pnls) e = ground arith
streak_iff (suc k) streak limit (pnl ∷ pnls) e =
    let (there, back) = streak_iff k (suc streak) limit pnls (omega arith) in
    elim (Bool-cases (ltb_ℤ pnl (pos 0))) [
      | inl lost ↦
          rw (lost, not_yet k streak limit e)
            (λ h. (ap suc (there h).0, (refl, (there h).1)), λ h. back (omega arith, h.1.1))
      | inr won ↦ rw won (λ h. ground (arith, h), λ h. ground (arith, h))
    ]

-- The streak of losses is hit exactly if a positive number of trades is asked for and the most
-- recent ones, as many as that, are there and are all losses.
pub loss_streak_iff :
    (pnls : List ℤ) (max_consecutive : ℕ)
    → (loss_streak_hit pnls max_consecutive ≡ true)
      ↔ ((0 < max_consecutive) × AllLost max_consecutive pnls)
unfolding loss_streak_hit
loss_streak_iff pnls zero = ground arith
loss_streak_iff pnls (suc k) = ground (arith, streak_iff k 0 (suc k) pnls (omega arith))
