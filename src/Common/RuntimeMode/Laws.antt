-- ===== src/Common/RuntimeMode/Laws.antt =====
-- Consistency of the states of common/runtime_mode.py, and what a write leaves behind.
use ai_trading_system.Base.{◌≡◌, refl, ◌↔◌, true, false, none, some, arith}
use ai_trading_system.Common.State.{paper, live, live_profile, ConfigState}
use ai_trading_system.Common.RuntimeMode.{
  RuntimeModeState, is_live, use_broker_capital, to_dict, from_dict, derive_for_mode, legacy_mode,
  load_runtime_mode,
}

-- All that depends on the mode says the same: live means broker capital, the live risk profile and
-- the live namespace, and none of these stands without live.
pub record IsConsistent (s : RuntimeModeState) : Type 0 where
  pub capital : use_broker_capital s ≡ is_live s
  pub profile : (s.risk_profile ≡ live_profile) ↔ (s.mode ≡ live)
  pub namespace : s.position_namespace ≡ s.mode
  pub known : is_live s ≡ false → s.mode ≡ paper

-- A state that is stored is read back as it is.
pub from_dict-to_dict : (s : RuntimeModeState) → from_dict (to_dict s) ≡ s
unfolding from_dict to_dict
from_dict-to_dict s = refl

-- With no usable row the state comes from the legacy key, is consistent, and is live only if that
-- key says live.
pub load-legacy :
    (c : ConfigState)
    → c.runtime_mode ≡ none
    → IsConsistent (load_runtime_mode c)
      × (is_live (load_runtime_mode c) ≡ true → c.execution_mode ≡ some live)
unfolding load_runtime_mode legacy_mode derive_for_mode is_live use_broker_capital
load-legacy c h = (ground arith, ground arith)
