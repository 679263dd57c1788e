-- ===== src/Risk/Capital.antt =====
-- risk/capital.py, the class CapitalReader: the capital that everything is sized by, with its cache.
-- Money is counted in units of 1/10000 rupee. The queries and the calls of the broker are parameters.
pub mod Stale
use ai_trading_system.Base.{
  ℕ, Bool, true, false, not, ◌&&◌, Option, none, some, is_some, if◌then◌else◌, or_default,
}
use ai_trading_system.Base.Int.{ℤ, pos, ◌+ℤ◌, max_ℤ}
use ai_trading_system.Broker.{Call, returned, raised}
use ai_trading_system.Common.RuntimeMode.{RuntimeModeState, use_broker_capital}
use ai_trading_system.Risk.Scope.{Scope, position_scope}

-- What `__init__` takes; the provider of the mode may be missing, and may raise.
pub record Setting : Type 0 where
  pub static_capital : Option ℕ
  pub compound : Bool
  pub mode_provider : Option (Call RuntimeModeState)

-- A segment of the broker's margins; values are numbers.
pub record Margins : Type 0 where
  pub net : Option ℤ
  pub live_balance : Option ℤ

-- The sum of the closed rows' realized profit in a scope, and the two calls of `margins`.
pub record Reads : Type 0 where
  pub realized : Option Scope → Call ℤ
  pub equity : Call Margins
  pub commodity : Call Margins

-- `_segment_available`
unfoldable pub segment_available : Margins → ℤ
segment_available m = or_default m.net (or_default m.live_balance (pos 0))

abbrev pub segment_of : Call Margins → ℤ
segment_of raised = pos 0
segment_of (returned m) = segment_available m

abbrev pub says_broker : Option (Call RuntimeModeState) → Bool
says_broker (some (returned s)) = use_broker_capital s
says_broker _ = false

abbrev pub use_static : Setting → Bool
use_static c = is_some c.static_capital && not (says_broker c.mode_provider)

abbrev pub scope_of : Option (Call RuntimeModeState) → Option Scope
scope_of (some (returned s)) = some (position_scope s)
scope_of _ = none

abbrev pub realized_of : Call ℤ → ℤ
realized_of raised = pos 0
realized_of (returned x) = x

-- the value and the cache that it leaves
abbrev pub cached : Option ℤ → Bool → ℤ → ℤ × Option ℤ
cached none refresh fresh = (fresh, some fresh)
cached (some c) refresh fresh = if refresh then (fresh, some fresh) else (c, some c)

unfoldable pub get_capital : Setting → Reads → Bool → Option ℤ → ℤ × Option ℤ
unfolding segment_available use_broker_capital position_scope
get_capital c reads refresh cache =
    let base : ℤ = pos (or_default c.static_capital 0) in
    if use_static c
    then if not c.compound
      then (base, cache)
      else cached cache refresh
          (max_ℤ (pos 0) (base +ℤ realized_of (reads.realized (scope_of c.mode_provider))))
    else cached cache refresh (segment_of reads.equity +ℤ segment_of reads.commodity)
