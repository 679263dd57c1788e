-- ===== src/Risk/Scope.antt =====
-- risk/scope.py, risk/dependencies.py and risk/expiry_control.py: which rows of `positions` a risk
-- read sees, what a missing dependency means, and what may be opened near expiry. Relative distances
-- are compared exactly, a band in 1/10000.
use ai_trading_system.Base.{
  ℕ, ◌+◌, ◌*◌, ◌-◌, Bool, true, false, ◌&&◌, Option, none, some, ◌==◌, leb, if◌then◌else◌,
}
use ai_trading_system.Base.Int.{ℤ, pos, negsuc}
use ai_trading_system.Common.State.{Mode, live, RiskProfile, paper_profile, live_profile}
use ai_trading_system.Common.ModeTransition.{same_mode}
use ai_trading_system.Common.RuntimeMode.{RuntimeModeState}

-- The text "paper", or the id of an account at a broker.
pub data Account : Type 0 where
  paper_account : Account
  broker_account : ℕ → Account

pub record Scope : Type 0 where
  pub mode : Mode
  pub account_id : Option Account

abbrev pub account_of : Option ℕ → Option Account
account_of none = none
account_of (some a) = some (broker_account a)

abbrev pub or_paper : Option Account → Option Account
or_paper none = some paper_account
or_paper (some a) = some a

-- `position_scope`; a namespace is never missing in a state that was loaded
unfoldable pub position_scope : RuntimeModeState → Scope
position_scope s =
    let account = account_of s.broker_account_id in
    record {
      mode = s.position_namespace;
      account_id = if same_mode s.position_namespace live then account else or_paper account;
    }

abbrev pub same_account : ℕ → Option ℕ → Bool
same_account a none = false
same_account a (some b) = b == a

-- the part of the clause of `where_clause` that reads `account_id`
abbrev pub account_matches : Option Account → Option ℕ → Bool
account_matches none b = true
account_matches (some paper_account) b = true
account_matches (some (broker_account a)) b = same_account a b

-- `where_clause`, as the test that it is of a row's mode and account
unfoldable pub in_scope : Scope → Mode → Option ℕ → Bool
in_scope s mode account = same_mode mode s.mode && account_matches s.account_id account

pub data Disposition : Type 0 where
  available degraded failed : Disposition

-- `dep_disposition`
unfoldable pub dep_disposition : RiskProfile → Bool → Disposition
dep_disposition profile true = available
dep_disposition live_profile false = failed
dep_disposition paper_profile false = degraded

abbrev pub is_failed : Disposition → Bool
is_failed failed = true
is_failed _ = false

unfoldable pub must_block : RiskProfile → Bool → Bool
unfolding dep_disposition
must_block profile known = is_failed (dep_disposition profile known)

-- `moneyness(spot, strike) <= band`; without a spot the distance is one
unfoldable pub is_within_band : ℕ → ℕ → ℕ → Bool
is_within_band spot strike band =
    if spot == 0
    then leb 10_000 band
    else leb (((spot - strike) + (strike - spot)) * 10_000) (band * spot)

abbrev pub at_most : ℤ → ℕ → Bool
at_most (pos n) k = leb n k
at_most (negsuc n) k = true

unfoldable pub pin_risk : ℕ → ℕ → ℤ → ℕ → ℕ → Bool
unfolding is_within_band
pin_risk spot strike dte atm_band dte_max =
    at_most dte dte_max && is_within_band spot strike atm_band

pub data ExpiryAction : Type 0 where
  allow reduce block : ExpiryAction

-- `expiry_action`, of whether the moneyness is within the band
unfoldable pub expiry_action : ℤ → Bool → Bool → ExpiryAction
expiry_action (negsuc n) near is_short = block
expiry_action (pos n) near is_short =
    if is_short && near && n == 0
    then block
    else if is_short && near && n == 1
    then reduce
    else allow
