-- ===== src/Risk/Sizing.antt =====
-- risk/sizing.py: position sizing. Money and prices are counted in units of 1/10000 rupee,
-- percentages and confidence in 1/10000 (of a percent, of one), and a quotient of floats is the
-- exact fraction of a numerator and a denominator. Capital, percentages and prices are never
-- negative; what remains of a budget may be. A margin of one unit is the pair of a margin and the
-- number of units that it is for.
pub mod Floor
pub mod Budget
pub mod Decision
pub mod Structure
use ai_trading_system.Base.{
  ℕ, ◌+◌, ◌-◌, ◌*◌, ◌/◌, Bool, true, false, not, ◌&&◌, Option, none, some, List, [], ◌∷◌, ◌++◌, ltb,
  leb, ◌==◌, if◌then◌else◌, min, max,
}
use ai_trading_system.Base.Int.{ℤ, pos_part}

-- `floor_to_lot` of num / den units
unfoldable pub floor_to_lot : ℕ → ℕ → ℕ → ℕ
floor_to_lot num den lot = if leb lot 1 then num / den else num / (den * lot) * lot

pub data Label : Type 0 where
  per_instrument_cap sleeve_cap portfolio_risk live_margin underlying_cap max_lots_per_structure :
      Label

-- An amount that an order may use, num, at den for each unit.
pub record Limit : Type 0 where
  pub label : Label
  pub num : ℕ
  pub den : ℕ

abbrev pub distance : ℕ → ℕ → ℕ
distance a b = (a - b) + (b - a)

pub record Request : Type 0 where
  pub capital : ℕ
  pub per_trade_risk_pct : ℕ
  pub per_instrument_cap_pct : ℕ
  pub entry_price : ℕ
  pub stop_price : ℕ
  pub lot_size : ℕ
  pub confidence : ℕ
  pub sleeve_remaining_capital : Option ℤ
  pub portfolio_remaining_r : Option ℤ
  pub margin_available : Option ℤ
  pub margin_per_unit : Option (ℕ × ℕ)
  pub min_risk_utilization : ℕ

-- `effective_r` is this number of units, over `scale`
abbrev pub effective_r : Request → ℕ
effective_r q = q.capital * q.per_trade_risk_pct * min q.confidence 10_000

abbrev pub scale : ℕ
scale = 10_000_000_000

abbrev pub risk_per_unit : Request → ℕ
risk_per_unit q = distance q.entry_price q.stop_price

-- `max(0.0, remaining) / each`, where it is known
abbrev pub limit_of : Label → Option ℤ → ℕ → List Limit
limit_of l none each = []
limit_of l (some r) each = record { label = l; num = pos_part r; den = each } ∷ []

-- a margin is that of a number of units
abbrev pub margin_of : Option ℤ → ℕ × ℕ → List Limit
margin_of none m = []
margin_of (some r) (total, units) =
    record { label = live_margin; num = pos_part r * units; den = total } ∷ []

abbrev pub margin_limit : Option ℤ → Option (ℕ × ℕ) → List Limit
margin_limit available none = []
margin_limit available (some m) = if m.0 == 0 then [] else margin_of available m

-- the calls of `apply` of `size_position`, in their order
unfoldable pub limits : Request → List Limit
limits q =
    record {
      label = per_instrument_cap;
      num = q.per_instrument_cap_pct * q.capital;
      den = 1_000_000 * q.entry_price;
    }
    ∷ (limit_of sleeve_cap q.sleeve_remaining_capital q.entry_price
        ++ (limit_of portfolio_risk q.portfolio_remaining_r (risk_per_unit q)
            ++ margin_limit q.margin_available q.margin_per_unit))

-- units and clamps so far
abbrev pub Clamped : Type 0
Clamped = ℕ × List Label

-- `apply`
unfoldable pub apply : ℕ → Label → Clamped → Clamped
apply limit_units l (units, clamps) =
    if ltb limit_units units then (limit_units, clamps ++ (l ∷ [])) else (units, clamps)

unfoldable pub apply_all : ℕ → List Limit → Clamped → Clamped
unfolding apply floor_to_lot
apply_all lot [] c = c
apply_all lot (l ∷ ls) c = apply_all lot ls (apply (floor_to_lot l.num l.den lot) l.label c)

pub data Refusal : Type 0 where
  no_risk_budget invalid_stop invalid_entry below_one_lot low_utilization : Refusal

pub record Sized : Type 0 where
  pub quantity : ℕ
  pub lots : ℕ
  pub lot_size : ℕ
  pub actual_risk : ℕ
  pub capital_allocated : ℕ
  pub clamps : List Label

pub data SizingResult : Type 0 where
  reject : Refusal → SizingResult
  accept : Sized → SizingResult

unfoldable pub clamped : Request → Clamped
unfolding apply_all limits floor_to_lot
clamped q =
    apply_all q.lot_size (limits q)
      (floor_to_lot (effective_r q) (scale * risk_per_unit q) q.lot_size, [])

abbrev pub sized : Request → Clamped → Sized
sized q (units, clamps) = record {
  quantity = units;
  lots = if ltb 1 q.lot_size then units / q.lot_size else units;
  lot_size = q.lot_size;
  actual_risk = units * risk_per_unit q;
  capital_allocated = units * q.entry_price;
  clamps = clamps;
}

-- the checks after the clamps
unfoldable pub decide : Request → Clamped → SizingResult
decide q c =
    if ltb c.0 (max 1 q.lot_size)
    then reject below_one_lot
    else if ltb 0 q.min_risk_utilization
        && ltb (c.0 * risk_per_unit q * scale * 10_000) (effective_r q * q.min_risk_utilization)
    then reject low_utilization
    else accept (sized q c)

unfoldable pub size_position : Request → SizingResult
unfolding decide clamped
size_position q =
    if effective_r q == 0
    then reject no_risk_budget
    else if risk_per_unit q == 0
    then reject invalid_stop
    else if q.entry_price == 0
    then reject invalid_entry
    else decide q (clamped q)
