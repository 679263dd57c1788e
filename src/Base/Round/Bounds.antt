-- ===== src/Base/Round/Bounds.antt =====
-- Bounds of the decimal rounding.
use Prim.Native.Nat.{ℕ, ◌+◌, ◌*◌, ◌/◌, ◌%◌, ◌≤◌, ◌<◌}
use mathlib.Core.Logic.{inl, inr}
use mathlib.Core.Path.{◌≡◌}
use mathlib.Core.Bool.{false}
use native.Mathlib.Omega.{arith}
use native.Mathlib.Nat.{mul-le-mul_right, div-add-mod', le_of_mul-le-mul_right}
use ai_trading_system.Base.Tests.{ltb, Bool-cases, ltb→lt, lt→ltb}
use ai_trading_system.Base.Round.{nearest, round_half_even}

not_lt→le : (q m : ℕ) → ltb q m ≡ false → m ≤ q
not_lt→le q m h = ground arith

-- a whole number at least the quotient is at least its rounding
nearest-le : (q r den m : ℕ) → 0 < den → q * den + r ≤ m * den → nearest q r den ≤ m
unfolding nearest
nearest-le q r den m h le = elim (Bool-cases (ltb q m)) [
  | inl less ↦ ground (arith, ltb→lt q m less)
  | inr more ↦
      let below = mul-le-mul_right den (not_lt→le q m more) in
      rw (lt→ltb (2 * r) den (omega (arith, below)))
        (le_of_mul-le-mul_right {m = q} {n = m} {k = den} (omega (arith, le)) h)
]

pub round_half_even-le : (num den m : ℕ) → 0 < den → num ≤ m * den → round_half_even num den ≤ m
unfolding round_half_even
round_half_even-le num den m h le =
    nearest-le (num / den) (num % den) den m h (omega (arith, div-add-mod' num den, le))
