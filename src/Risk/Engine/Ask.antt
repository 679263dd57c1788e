-- ===== src/Risk/Engine/Ask.antt =====
-- `size` and `size_structure` of the class RiskEngine of risk/engine.py: the checks, in their order,
-- and the request that is sized when none holds.
use ai_trading_system.Base.{
  ℕ, ◌-◌, ◌*◌, ◌/◌, Bool, false, not, ◌&&◌, ◌||◌, Option, none, some, List, [], ◌∷◌, ◌==◌, leb,
  is_some, if◌then◌else◌, or_default, min,
}
use ai_trading_system.Base.Int.{ℤ, pos, pos_part}
use ai_trading_system.Broker.{Side}
use ai_trading_system.Execution.Costs.{Sleeve}
use ai_trading_system.Risk.Scope.{must_block}
use ai_trading_system.Risk.Positions.{
  open_positions, Symbol, BookRow, deployed, open_trades_count, open_r_by_underlying,
}
use ai_trading_system.Risk.Sizing.{Request, SizingResult, size_position}
use ai_trading_system.Risk.Sizing.Structure.{
  StructureRequest, StructureResult, size_structure, max_concurrent_positions,
}
use ai_trading_system.Risk.Engine.{
  scope_of, Desk, InstrumentKind, Listing, MarginCall, book, equity, funds, kind_from_instrument,
  margin_per_unit, portfolio_remaining_r, remaining_of, risk_profile_of, sleeve_remaining,
}

-- Why no size is asked for, in the order of the checks.
pub data Block : Type 0 where
  kill_switch period_brake trade_budget sleeve_streak no_capital max_concurrent already_held
        margin_unknown :
      Block

-- the first condition that holds
abbrev pub first_block : List (Bool × Block) → Option Block
first_block [] = none
first_block ((b, why) ∷ rest) = let later = first_block rest in if b then some why else later

abbrev pub is_today : Option ℕ → ℕ → Bool
is_today none today = false
is_today (some date) today = date == today

abbrev pub slots : Desk → ℕ
slots k = max_concurrent_positions k.risk.portfolio_risk_limit_pct k.risk.per_trade_risk_pct

-- the checks up to the number of open trades, `_active_brake` among them, before the rest
abbrev pub common_checks : Desk → Sleeve → List (Bool × Block) → List (Bool × Block)
common_checks k sleeve rest =
    (k.config.kill_switch_active, kill_switch)
    ∷ (k.brakes.period_brake_active, period_brake)
    ∷ (is_today k.brakes.trade_budget_exhausted k.today, trade_budget)
    ∷ (is_today (k.brakes.sleeve_brake sleeve) k.today, sleeve_streak)
    ∷ (funds k == 0, no_capital)
    ∷ (leb (slots k) (open_trades_count (book k)), max_concurrent)
    ∷ rest

abbrev pub same_token : ℕ → Option ℕ → Bool
same_token t none = false
same_token t (some u) = u == t

unfoldable pub holds_token : ℕ → List BookRow → Bool
holds_token t [] = false
holds_token t (r ∷ rs) = same_token t r.instrument_token || holds_token t rs

-- `tok and any(...)`
abbrev pub is_held : Option ℕ → List BookRow → Bool
is_held none rs = false
is_held (some t) rs = not (t == 0) && holds_token t rs

abbrev pub is_margin_unknown : Desk → Bool → Bool
is_margin_unknown k known = must_block (risk_profile_of k.runtime) known

-- the checks before the sizing of an instrument
unfoldable pub gates : Desk → Listing → Sleeve → Option (ℕ × ℕ) → Option Block
unfolding holds_token open_trades_count open_positions scope_of must_block risk_profile_of
    max_concurrent_positions
gates k i sleeve margin = first_block (
    common_checks k sleeve (
      (is_held i.instrument_token (book k), already_held)
      ∷ (is_margin_unknown k (is_some margin), margin_unknown)
      ∷ []))

abbrev pub lot_of : Listing → InstrumentKind → ℕ
lot_of i equity = 1
lot_of i _ = let n = or_default i.lot_size 0 in if n == 0 then 1 else n

-- `max(0.0, capital - deployed) if margin_per_unit else None`
abbrev pub free_for : Option (ℕ × ℕ) → ℕ → Option ℤ
free_for none n = none
free_for (some m) n = some (pos n)

abbrev pub scaled_pct : Desk → ℕ
scaled_pct k = k.risk.per_trade_risk_pct * k.scale / 10_000

unfoldable pub request : Desk → ℕ → ℕ → Listing → Sleeve → ℕ → ℕ → Option (ℕ × ℕ) → Request
unfolding sleeve_remaining portfolio_remaining_r deployed
request k entry stop i sleeve confidence lot margin = record {
  capital = funds k;
  per_trade_risk_pct = scaled_pct k;
  per_instrument_cap_pct = k.risk.per_instrument_cap_pct;
  entry_price = entry;
  stop_price = stop;
  lot_size = lot;
  confidence = confidence;
  sleeve_remaining_capital = sleeve_remaining k sleeve;
  portfolio_remaining_r = some (portfolio_remaining_r k);
  margin_available = free_for margin (funds k - deployed (book k));
  margin_per_unit = margin;
  min_risk_utilization = k.risk.min_risk_utilization;
}

pub data Verdict {ℓ} (R : Type ℓ) : Type ℓ where
  blocked : Block → Verdict R
  asked : R → Verdict R

abbrev pub after_gates {ℓ} : {R : Type ℓ} → Option Block → R → Verdict R
after_gates (some why) r = blocked why
after_gates none r = asked r

-- `size`
unfoldable pub size :
    Option MarginCall → Desk → ℕ → ℕ → Listing → Sleeve → ℕ → Side → Verdict SizingResult
unfolding gates request margin_per_unit kind_from_instrument
size call k entry stop i sleeve confidence side =
    let lot = lot_of i (kind_from_instrument i.instrument_type) in
    let margin = margin_per_unit call i side sleeve lot in
    after_gates (gates k i sleeve margin)
      (size_position (request k entry stop i sleeve confidence lot margin))

-- the checks before the sizing of a structure
unfoldable pub structure_gates : Desk → Sleeve → Option ℕ → Option Block
unfolding open_trades_count open_positions scope_of must_block risk_profile_of
    max_concurrent_positions
structure_gates k sleeve margin =
    first_block
      (common_checks k sleeve ((is_margin_unknown k (is_some margin), margin_unknown) ∷ []))

-- the percentage of one underlying; an empty name and a percentage of 0 are none
abbrev pub underlying_pct : ℕ → Symbol → Option ℕ
underlying_pct pct [] = none
underlying_pct pct (c ∷ cs) = if pct == 0 then none else some pct

unfoldable pub underlying_remaining_r : Desk → Symbol → Option ℤ
unfolding open_r_by_underlying
underlying_remaining_r k name =
    remaining_of (underlying_pct k.risk.per_underlying_risk_pct name) (funds k)
      (open_r_by_underlying (book k) name)

abbrev pub least : ℕ → Option ℤ → ℤ
least n none = pos n
least n (some r) = pos (min n (pos_part r))

-- `margin_available` of a structure, where its margin is known and not 0
abbrev pub structure_margin : Desk → Sleeve → Option ℕ → Option ℤ
structure_margin k sleeve none = none
structure_margin k sleeve (some m) =
    if m == 0 then none else some (least (funds k - deployed (book k)) (sleeve_remaining k sleeve))

abbrev pub each_lot : Option ℕ → Option (ℕ × ℕ)
each_lot none = none
each_lot (some m) = some (m, 1)

unfoldable pub structure_request : Desk → ℕ → ℕ → Sleeve → ℕ → Option ℕ → Symbol → StructureRequest
unfolding sleeve_remaining portfolio_remaining_r underlying_remaining_r
structure_request k max_loss lot sleeve confidence margin underlying = record {
  capital = funds k;
  per_trade_risk_pct = scaled_pct k;
  max_loss_per_lot = max_loss;
  lot_size = lot;
  confidence = confidence;
  portfolio_remaining_r = some (portfolio_remaining_r k);
  underlying_remaining_r = underlying_remaining_r k underlying;
  margin_available = structure_margin k sleeve margin;
  margin_per_lot = each_lot margin;
  max_lots =
      if k.risk.max_lots_per_structure == 0 then none else some k.risk.max_lots_per_structure;
}

-- `RiskEngine.size_structure`, with the margin of one lot that was given or resolved
unfoldable pub ask_structure :
    Desk → ℕ → ℕ → Sleeve → ℕ → Option ℕ → Symbol → Verdict StructureResult
unfolding structure_gates structure_request
ask_structure k max_loss lot sleeve confidence margin underlying =
    after_gates (structure_gates k sleeve margin)
      (size_structure (structure_request k max_loss lot sleeve confidence margin underlying))
