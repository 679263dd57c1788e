-- ===== src/Common/InstrumentMeta.antt =====
-- common/instrument_meta.py. Prices and ticks are counted in units of 1/10000 rupee, the tolerance
-- in millionths of a rupee, and dates are day numbers.
pub mod Laws
use ai_trading_system.Base.{
  ℕ, ◌+◌, ◌-◌, ◌*◌, ◌%◌, Bool, true, false, not, ◌&&◌, Option, none, some, ltb, leb, ◌==◌,
  if◌then◌else◌, or_default,
}
use ai_trading_system.Base.Round.{round_half_even}

pub data Refusal : Type 0 where
  non_positive_quantity not_a_multiple over_freeze not_aligned expired : Refusal

-- `OrderCheck(True)` is `none`.
abbrev pub OrderCheck : Type 0
OrderCheck = Option Refusal

-- `x and x > 0`, of a field that may be missing
abbrev pub known : Option ℕ → ℕ
known x = or_default x 0

-- The outer rounding to ten places changes nothing: the product is a whole number of units.
unfoldable pub round_to_tick : ℕ → Option ℕ → ℕ
round_to_tick price tick_size =
    if known tick_size == 0
    then price
    else round_half_even price (known tick_size) * known tick_size

abbrev pub distance : ℕ → ℕ → ℕ
distance a b = (a - b) + (b - a)

abbrev pub default_tol : ℕ
default_tol = 1

unfoldable pub tick_aligned : ℕ → Option ℕ → ℕ → Bool
unfolding round_to_tick
tick_aligned price tick_size tol =
    if known tick_size == 0
    then true
    else leb (distance price (round_to_tick price tick_size) * 100) tol

pub record OrderMeta : Type 0 where
  pub quantity : Option ℕ
  pub price : Option ℕ
  pub lot_size : Option ℕ
  pub tick_size : Option ℕ
  pub freeze_qty : Option ℕ
  pub expiry : Option ℕ

unfoldable pub misaligned : Option ℕ → Option ℕ → Bool
misaligned none tick = false
misaligned (some p) tick = not (tick_aligned p tick default_tol)

abbrev pub is_past : Option ℕ → ℕ → Bool
is_past none today = false
is_past (some e) today = ltb e today

unfoldable pub validate_order_against_meta : OrderMeta → ℕ → OrderCheck
unfolding misaligned
validate_order_against_meta m today =
    let quantity = or_default m.quantity 0 in
    if leb quantity 0
    then some non_positive_quantity
    else if ltb 0 (known m.lot_size) && not (quantity % known m.lot_size == 0)
    then some not_a_multiple
    else if ltb 0 (known m.freeze_qty) && ltb (known m.freeze_qty) quantity
    then some over_freeze
    else if misaligned m.price m.tick_size
    then some not_aligned
    else if is_past m.expiry today
    then some expired
    else none
