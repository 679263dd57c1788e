-- ===== src/Common/RuntimeMode.antt =====
-- common/runtime_mode.py: the one row that says whether the system is paper or live. Who wrote it
-- and when (`updated_by`, `updated_at`) is left out; nothing reads them.
pub mod Laws
use ai_trading_system.Base.{
  ℕ, ◌+◌, ◌≡◌, Bool, true, false, Option, none, some, if◌then◌else◌, or_default, is_some,
}
use ai_trading_system.Common.State.{
  Mode, paper, live, other_mode, CapitalSource, paper_static, broker_live, RiskProfile,
  paper_profile, live_profile, KillSwitchMode, block_all, StoredMode, ConfigState,
}

pub record RuntimeModeState : Type 0 where
  pub mode : Mode
  pub broker_account_id : Option ℕ
  pub capital_source : CapitalSource
  pub risk_profile : RiskProfile
  pub kill_switch_mode : KillSwitchMode
  pub position_namespace : Mode
  pub version : ℕ

abbrev pub is_live_mode : Mode → Bool
is_live_mode live = true
is_live_mode _ = false

unfoldable pub is_live : RuntimeModeState → Bool
is_live s = is_live_mode s.mode

unfoldable pub use_broker_capital : RuntimeModeState → Bool
use_broker_capital s = elim s.capital_source [ broker_live ↦ true | paper_static ↦ false ]

unfoldable pub to_dict : RuntimeModeState → StoredMode
to_dict s = record {
  mode = some s.mode;
  broker_account_id = some s.broker_account_id;
  capital_source = some s.capital_source;
  risk_profile = some s.risk_profile;
  kill_switch_mode = some s.kill_switch_mode;
  position_namespace = some s.position_namespace;
  version = some s.version;
}

-- `_from_dict`: a missing key takes the field's default
unfoldable pub from_dict : StoredMode → RuntimeModeState
from_dict d = record {
  mode = or_default d.mode paper;
  broker_account_id = or_default d.broker_account_id none;
  capital_source = or_default d.capital_source paper_static;
  risk_profile = or_default d.risk_profile paper_profile;
  kill_switch_mode = or_default d.kill_switch_mode block_all;
  position_namespace = or_default d.position_namespace paper;
  version = or_default d.version 0;
}

unfoldable pub derive_for_mode : Mode → Option ℕ → ℕ → RuntimeModeState
derive_for_mode mode broker_account_id version =
    let on = is_live_mode mode in
    record {
      mode = if on then live else paper;
      broker_account_id = broker_account_id;
      capital_source = if on then broker_live else paper_static;
      risk_profile = if on then live_profile else paper_profile;
      kill_switch_mode = block_all;
      position_namespace = if on then live else paper;
      version = version;
    }

-- `legacy if legacy in (PAPER, LIVE) else PAPER`
abbrev pub known_or_paper : Mode → Mode
known_or_paper live = live
known_or_paper _ = paper

unfoldable pub legacy_mode : ConfigState → RuntimeModeState
unfolding derive_for_mode
legacy_mode c = derive_for_mode (known_or_paper (or_default c.execution_mode paper)) none 0

unfoldable pub load_runtime_mode : ConfigState → RuntimeModeState
unfolding legacy_mode from_dict
load_runtime_mode c = elim c.runtime_mode [
  | none ↦ legacy_mode c
  | some raw ↦ if is_some raw.mode then from_dict raw else legacy_mode c
]

unfoldable pub write_runtime_mode : RuntimeModeState → ConfigState → RuntimeModeState × ConfigState
unfolding load_runtime_mode derive_for_mode to_dict
write_runtime_mode state c =
    let current = load_runtime_mode c in
    let new = derive_for_mode state.mode state.broker_account_id (current.version + 1) in
    (new, record c { runtime_mode = some (to_dict new); execution_mode = some new.mode })
