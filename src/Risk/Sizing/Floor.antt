-- ===== src/Risk/Sizing/Floor.antt =====
-- `floor_to_lot` of risk/sizing.py is the greatest multiple of the lot within a limit.
use native.Mathlib.Nat.{div-add-mod', le-div_iff_mul-le, mul-le-mul_right, one-le-mul}
use ai_trading_system.Base.{
  ℕ, ◌*◌, ◌/◌, ◌≤◌, ◌<◌, ◌≡◌, refl, arith, leb, Bool-cases, inl, inr, max, true, false,
}
use ai_trading_system.Risk.Sizing.{floor_to_lot}

pub floor-fits : (num den lot : ℕ) → floor_to_lot num den lot * den ≤ num
unfolding floor_to_lot
floor-fits num den lot = elim (Bool-cases (leb lot 1)) [
  | inl p ↦ rw p (omega (arith, div-add-mod' num den))
  | inr p ↦ rw p (omega (arith, div-add-mod' num (den * lot)))
]

-- a whole number of lots
abbrev pub IsWhole : ℕ → ℕ → Type 0
IsWhole lot n = (k : ℕ) × (n ≡ k * max 1 lot)

max_one : (lot : ℕ) → leb lot 1 ≡ true → max 1 lot ≡ 1
max_one lot h = ground arith

max_lot : (lot : ℕ) → leb lot 1 ≡ false → max 1 lot ≡ lot
max_lot lot h = ground arith

lot_pos : (lot : ℕ) → leb lot 1 ≡ false → 0 < lot
lot_pos lot h = ground arith

pub floor-IsWhole : (num den lot : ℕ) → IsWhole lot (floor_to_lot num den lot)
unfolding floor_to_lot
floor-IsWhole num den lot = elim (Bool-cases (leb lot 1)) [
  | inl p ↦ rw (p, max_one lot p) (num / den, omega arith)
  | inr p ↦ rw (p, max_lot lot p) (num / (den * lot), refl)
]

-- no whole number of lots within the limit is greater
pub floor-greatest :
    (num den lot k : ℕ)
    → 0 < den
    → k * max 1 lot * den ≤ num
    → k * max 1 lot ≤ floor_to_lot num den lot
unfolding floor_to_lot
floor-greatest num den lot k pos_den h = elim (Bool-cases (leb lot 1)) [
  | inl p ↦
      rw (p, max_one lot p)
        (omega (
          arith,
          (le-div_iff_mul-le {k = den} {x = k} {y = num} pos_den).1
              (omega (arith, rw (max_one lot p) at h)),
        ))
  | inr p ↦
      rw (p, max_lot lot p)
        (mul-le-mul_right lot (
          (le-div_iff_mul-le {k = den * lot} {x = k} {y = num}
              (one-le-mul pos_den (lot_pos lot p))).1
            (omega (arith, rw (max_lot lot p) at h))))
]
