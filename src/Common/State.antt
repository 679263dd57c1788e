-- ===== src/Common/State.antt =====
-- common/state.py: the rows of `config_state` that the modelled code reads and writes. A missing
-- row is its default, so a flag is a Bool; who wrote a row and when is left out.
use ai_trading_system.Base.{ℕ, Bool, Option}

-- The texts that stand for an execution mode; `other_mode` is any other text.
pub data Mode : Type 0 where
  paper live other_mode : Mode

pub data CapitalSource : Type 0 where
  paper_static broker_live : CapitalSource

pub data RiskProfile : Type 0 where
  paper_profile live_profile : RiskProfile

pub data KillSwitchMode : Type 0 where
  block_all reducing_only : KillSwitchMode

-- The dict that is stored under `runtime_mode`: any key may be missing.
pub record StoredMode : Type 0 where
  pub mode : Option Mode
  pub broker_account_id : Option (Option ℕ)
  pub capital_source : Option CapitalSource
  pub risk_profile : Option RiskProfile
  pub kill_switch_mode : Option KillSwitchMode
  pub position_namespace : Option Mode
  pub version : Option ℕ

-- A value that is no dict, or none at all, is `none`.
pub record ConfigState : Type 0 where
  pub runtime_mode : Option StoredMode
  pub execution_mode : Option Mode
  pub kill_switch_active : Bool
  pub block_new_entries : Bool
  pub engine_halted : Bool
  pub engine_paused : Bool
