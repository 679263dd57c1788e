-- ===== src/Risk/Positions.antt =====
-- risk/positions.py: the open rows of `positions` and what the risk engine adds up over them. Money
-- is counted in units of 1/10000 rupee; a missing number is 0, and a symbol is the list of its code
-- points.
pub mod Trades
use ai_trading_system.Base.{
  ℕ, ◌+◌, ◌*◌, ◌-◌, Bool, true, false, not, ◌&&◌, ◌||◌, Option, none, some, List, [], ◌∷◌, ◌==◌,
  leb, if◌then◌else◌, map, sum,
}
use ai_trading_system.Common.State.{Mode}
use ai_trading_system.Execution.Costs.{
  Sleeve, intraday_stocks, swing_stocks, fno, mcx_commodities, adopted,
}
use ai_trading_system.Risk.Scope.{Scope, in_scope}

abbrev pub Symbol : Type 0
Symbol = List ℕ

pub record BookRow : Type 0 where
  pub is_open : Bool
  pub mode : Mode
  pub account_id : Option ℕ
  pub correlation_id : Option ℕ
  pub instrument_token : Option ℕ
  pub tradingsymbol : Symbol
  pub sleeve : Sleeve
  pub quantity : ℕ
  pub average_price : ℕ
  pub r_rupees : ℕ

-- the clause of the query: without a scope every open row
abbrev pub is_wanted : Option Scope → BookRow → Bool
is_wanted none r = r.is_open
is_wanted (some s) r = r.is_open && in_scope s r.mode r.account_id

-- `PositionsProvider.open_positions`
unfoldable pub open_positions : Option Scope → List BookRow → List BookRow
unfolding in_scope
open_positions s [] = []
open_positions s (r ∷ rs) =
    let rest = open_positions s rs in if is_wanted s r then r ∷ rest else rest

abbrev pub same_sleeve : Sleeve → Sleeve → Bool
same_sleeve intraday_stocks intraday_stocks = true
same_sleeve swing_stocks swing_stocks = true
same_sleeve fno fno = true
same_sleeve mcx_commodities mcx_commodities = true
same_sleeve adopted adopted = true
same_sleeve _ _ = false

-- `deployed_by_sleeve(positions).get(sleeve, 0.0)`
unfoldable pub deployed_by_sleeve : List BookRow → Sleeve → ℕ
deployed_by_sleeve [] sleeve = 0
deployed_by_sleeve (r ∷ rs) sleeve =
    (if same_sleeve r.sleeve sleeve then r.quantity * r.average_price else 0)
    + deployed_by_sleeve rs sleeve

-- `sum(deployed_by_sleeve(positions).values())`
unfoldable pub deployed : List BookRow → ℕ
deployed rs = sum (map (λ r. r.quantity * r.average_price) rs)

unfoldable pub total_open_r : List BookRow → ℕ
total_open_r rs = sum (map (λ r. r.r_rupees) rs)

abbrev pub seen_in : ℕ → List ℕ → Bool
seen_in c [] = false
seen_in c (x ∷ xs) = x == c || seen_in c xs

-- the ids seen and the count, after one row
unfoldable pub count_row : Option ℕ → List ℕ × ℕ → List ℕ × ℕ
count_row none (seen, count) = (seen, count + 1)
count_row (some c) (seen, count) =
    if not (seen_in c seen) then (c ∷ seen, count + 1) else (seen, count)

unfoldable pub count_from : List BookRow → List ℕ × ℕ → List ℕ × ℕ
unfolding count_row
count_from [] st = st
count_from (r ∷ rs) st = count_from rs (count_row r.correlation_id st)

unfoldable pub open_trades_count : List BookRow → ℕ
unfolding count_from
open_trades_count rs = (count_from rs ([], 0)).1

-- `str.upper`, of an ASCII letter
abbrev pub upper : ℕ → ℕ
upper c = if leb b'a' c && leb c b'z' then c - 32 else c

abbrev pub starts_with : Symbol → Symbol → Bool
starts_with s [] = true
starts_with [] (x ∷ xs) = false
starts_with (y ∷ ys) (x ∷ xs) = upper y == upper x && starts_with ys xs

unfoldable pub r_of : Symbol → List BookRow → ℕ
r_of u [] = 0
r_of u (r ∷ rs) = (if starts_with r.tradingsymbol u then r.r_rupees else 0) + r_of u rs

-- `open_r_by_underlying`
unfoldable pub open_r_by_underlying : List BookRow → Symbol → ℕ
unfolding r_of
open_r_by_underlying rs [] = 0
open_r_by_underlying rs (x ∷ xs) = r_of (x ∷ xs) rs
