-- ===== src/Risk/Engine.antt =====
-- risk/engine.py, the class RiskEngine: the gates before the sizing and the request that it gets.
-- Money is counted in units of 1/10000 rupee, percentages in 1/10000 of a percent, the scalar of the
-- volatility in 1/10000. What remains of a budget is rounded down to a whole unit, which the sizing
-- does not notice, since it divides by whole units and rounds down; the risk percentage of a trade
-- is rounded down after it was scaled. The queries and the broker's margins are parameters; a
-- missing or empty brake is `none`.
pub mod Ask
pub mod Gates
pub mod Budgets
pub mod Samples
mod Tests
use ai_trading_system.Base.{
  ℕ, ◌+◌, ◌-◌, ◌*◌, ◌/◌, Bool, true, false, not, ◌&&◌, ◌||◌, Option, none, some, List, [], ◌∷◌,
  ◌==◌, leb, ltb, is_some, if◌then◌else◌, or_default, max, min,
}
use ai_trading_system.Base.Int.{ℤ, pos, pos_part}
use ai_trading_system.Broker.{
  Call, returned, raised, Side, Exchange, Product, mis, cnc, nrml, OrderRequest, market,
}
use ai_trading_system.Common.State.{RiskProfile, paper_profile, ConfigState}
use ai_trading_system.Common.RuntimeMode.{RuntimeModeState}
use ai_trading_system.Execution.Costs.{
  Sleeve, intraday_stocks, swing_stocks, fno, mcx_commodities, InstrumentType, ce, pe, fut,
}
use ai_trading_system.Risk.Scope.{Scope, position_scope, must_block}
use ai_trading_system.Risk.Positions.{
  Symbol, BookRow, open_positions, deployed_by_sleeve, deployed, total_open_r, open_trades_count,
  open_r_by_underlying,
}
use ai_trading_system.Risk.Sizing.{Request, SizingResult, size_position}
use ai_trading_system.Risk.Sizing.Structure.{
  StructureRequest, StructureResult, size_structure, max_concurrent_positions,
}

pub data InstrumentKind : Type 0 where
  equity futures option_buy : InstrumentKind

unfoldable pub kind_from_instrument : InstrumentType → InstrumentKind
kind_from_instrument ce = option_buy
kind_from_instrument pe = option_buy
kind_from_instrument fut = futures
kind_from_instrument _ = equity

-- What the engine reads of an instrument.
pub record Listing : Type 0 where
  pub instrument_token : Option ℕ
  pub exchange : Option Exchange
  pub tradingsymbol : ℕ
  pub instrument_type : InstrumentType
  pub lot_size : Option ℕ

-- The keys of `config_state` that `_active_brake` reads; a date is a number.
pub record Brakes : Type 0 where
  pub period_brake_active : Bool
  pub trade_budget_exhausted : Option ℕ
  pub sleeve_brake : Sleeve → Option ℕ

-- The risk section of the configuration. The limits of the sleeves are in `sleeve_cap_pct`.
pub record RiskConfig : Type 0 where
  pub per_trade_risk_pct : ℕ
  pub portfolio_risk_limit_pct : ℕ
  pub per_instrument_cap_pct : ℕ
  pub per_underlying_risk_pct : ℕ
  pub min_risk_utilization : ℕ
  pub max_lots_per_structure : ℕ
  pub sleeve_cap_pct : Sleeve → Option ℕ

-- `risk.vol_scaling`, with the last close of the index, or `raised`
pub record Volatility : Type 0 where
  pub enabled : Bool
  pub reference_vix : ℕ
  pub min_scale : ℕ
  pub vix : Call ℕ

-- What one call of the engine reads.
pub record Desk : Type 0 where
  pub config : ConfigState
  pub brakes : Brakes
  pub today : ℕ
  pub capital : ℤ
  pub rows : List BookRow
  pub runtime : Call RuntimeModeState
  pub risk : RiskConfig
  pub scale : ℕ

-- `_vol_scale`, with the cached value and the time of it; a time of 0 is none
abbrev pub fresh_scale : Volatility → ℕ → ℕ
fresh_scale v vix =
    if ltb v.reference_vix vix && ltb 0 v.reference_vix
    then max v.min_scale (v.reference_vix * 10_000 / vix)
    else 10_000

abbrev pub scale_of : Volatility → Call ℕ → ℕ
scale_of v raised = 10_000
scale_of v (returned vix) = fresh_scale v vix

unfoldable pub vol_scale : Volatility → ℕ → ℕ × ℕ → ℕ × (ℕ × ℕ)
vol_scale v now (cached, ts) =
    if not v.enabled
    then (10_000, (cached, ts))
    else if not (ts == 0) && ltb (now - ts) 300
    then (cached, (cached, ts))
    else let fresh = scale_of v v.vix in (fresh, (fresh, now))

-- `_scope` and `_risk_profile`: an exception leaves the reads unscoped and the profile at paper
unfoldable pub scope_of : Call RuntimeModeState → Option Scope
unfolding position_scope
scope_of raised = none
scope_of (returned s) = some (position_scope s)

unfoldable pub risk_profile_of : Call RuntimeModeState → RiskProfile
risk_profile_of raised = paper_profile
risk_profile_of (returned s) = s.risk_profile

-- the rows that the engine adds up
abbrev pub book : Desk → List BookRow
book k = open_positions (scope_of k.runtime) k.rows

abbrev pub funds : Desk → ℕ
funds k = pos_part k.capital

-- `_sleeve_remaining`
abbrev pub remaining_of : Option ℕ → ℕ → ℕ → Option ℤ
remaining_of none capital used = none
remaining_of (some cap) capital used = some (pos (cap * capital / 1_000_000 - used))

unfoldable pub sleeve_remaining : Desk → Sleeve → Option ℤ
unfolding deployed_by_sleeve
sleeve_remaining k s =
    remaining_of (k.risk.sleeve_cap_pct s) (funds k) (deployed_by_sleeve (book k) s)

-- `_portfolio_remaining_r`
unfoldable pub portfolio_remaining_r : Desk → ℤ
unfolding total_open_r
portfolio_remaining_r k =
    pos (k.risk.portfolio_risk_limit_pct * funds k / 1_000_000 - total_open_r (book k))

-- `_SLEEVE_PRODUCT.get(sleeve, "MIS")`
unfoldable pub sleeve_product : Sleeve → Product
sleeve_product swing_stocks = cnc
sleeve_product fno = nrml
sleeve_product mcx_commodities = nrml
sleeve_product _ = mis

unfoldable pub margin_request : Listing → Side → Sleeve → ℕ → OrderRequest
unfolding sleeve_product
margin_request i side sleeve lot = record {
  exchange = i.exchange;
  tradingsymbol = i.tradingsymbol;
  transaction_type = side;
  quantity = max 1 lot;
  product = some (sleeve_product sleeve);
  order_type = market;
  price = some 0;
}

-- The broker's `order_margins` of one order: the total of its first row, if there is one.
abbrev pub MarginCall : Type 0
MarginCall = OrderRequest → Call (Option ℕ)

abbrev pub priced : ℕ → Call (Option ℕ) → Option (ℕ × ℕ)
priced units (returned (some total)) = if total == 0 then none else some (total, units)
priced units _ = none

-- `_margin_per_unit`; without an adapter or a governor there is no call
unfoldable pub margin_per_unit : Option MarginCall → Listing → Side → Sleeve → ℕ → Option (ℕ × ℕ)
unfolding margin_request
margin_per_unit none i side sleeve lot = none
margin_per_unit (some call) i side sleeve lot =
    priced (max 1 lot) (call (margin_request i side sleeve lot))
