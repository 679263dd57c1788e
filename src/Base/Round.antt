-- ===== src/Base/Round.antt =====
-- Decimal rounding of exact quotients. Money and prices are counted in units of 1/10000 rupee, so
-- that `round(x, 4)` is a whole unit and `round(x, 2)` a whole multiple of 100 units.
pub mod Bounds
use Prim.Native.Nat.{ℕ, ◌+◌, ◌*◌, ◌/◌, ◌%◌}
use ai_trading_system.Base.Tests.{ltb, ◌==◌, if◌then◌else◌}

-- the rounding of q + r / den
unfoldable pub nearest : ℕ → ℕ → ℕ → ℕ
nearest q r den =
    if ltb (2 * r) den
    then q
    else if ltb den (2 * r)
    then q + 1
    else if q % 2 == 0
    then q
    else q + 1

-- Python's `round`: to nearest, ties to even
unfoldable pub round_half_even : ℕ → ℕ → ℕ
unfolding nearest
round_half_even num den = nearest (num / den) (num % den) den

-- `round(num / den, 2)`
unfoldable pub round_2 : ℕ → ℕ → ℕ
unfolding round_half_even
round_2 num den = 100 * round_half_even num (100 * den)
