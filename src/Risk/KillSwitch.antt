-- ===== src/Risk/KillSwitch.antt =====
-- risk/kill_switch.py: the daily loss limit. The rows of `daily_pnl` are those of today, by the mode
-- that names their namespace; money is counted in units of 1/10000 rupee, the loss percentage in
-- 1/10000 of a percent, and the limit is rounded up to a whole unit. Alerts and events are left out.
pub mod Latch
use ai_trading_system.Base.{
  ℕ, ◌+◌, ◌*◌, ◌/◌, Bool, true, false, not, ◌&&◌, Option, none, some, List, [], ◌∷◌, if◌then◌else◌,
  or_default,
}
use ai_trading_system.Base.Int.{ℤ, pos, ◌+ℤ◌, ◌-ℤ◌, leb_ℤ, ltb_ℤ}
use ai_trading_system.Common.State.{Mode, ConfigState}
use ai_trading_system.Common.RuntimeMode.{RuntimeModeState, load_runtime_mode}
use ai_trading_system.Common.ModeTransition.{same_mode}

pub record DailyRow : Type 0 where
  pub starting_capital : ℕ
  pub max_loss_limit : ℤ
  pub realized_pnl : ℤ
  pub unrealized_pnl : ℤ
  pub kill_switch_tripped : Bool

-- What the switch reads and writes.
pub record Desk : Type 0 where
  pub config : ConfigState
  pub daily : Mode → Option DailyRow

-- `_ns`
unfoldable pub namespace : Desk → Mode
namespace d = (load_runtime_mode d.config).position_namespace

abbrev pub map_row : (DailyRow → DailyRow) → Option DailyRow → Option DailyRow
map_row f none = none
map_row f (some r) = some (f r)

-- `UPDATE daily_pnl SET ... WHERE trade_date = today AND mode = ns`
abbrev pub update_row :
    (DailyRow → DailyRow) → Mode → (Mode → Option DailyRow) → Mode → Option DailyRow
update_row f ns daily m = if same_mode m ns then map_row f (daily m) else daily m

abbrev pub limit_of : ℕ → ℕ → ℤ
limit_of pct capital = pos 0 -ℤ pos ((pct * capital + 999_999) / 1_000_000)

abbrev pub ensured : ℕ → ℤ → Option DailyRow → DailyRow
ensured capital limit none = record {
  starting_capital = capital;
  max_loss_limit = limit;
  realized_pnl = pos 0;
  unrealized_pnl = pos 0;
  kill_switch_tripped = false;
}
ensured capital limit (some r) = record r { starting_capital = capital; max_loss_limit = limit }

-- `ensure_daily_row`
unfoldable pub ensure_daily_row : ℕ → ℕ → Desk → Desk
ensure_daily_row pct capital d =
    let ns = namespace d in
    record d {
      daily = λ m.
          if same_mode m ns
          then some (ensured capital (limit_of pct capital) (d.daily m))
          else d.daily m;
    }

pub record Status : Type 0 where
  pub active : Bool
  pub day_pnl : ℤ
  pub loss_limit : ℤ

unfoldable pub status_of : Bool → Option DailyRow → Status
status_of active none = record { active = active; day_pnl = pos 0; loss_limit = pos 0 }
status_of active (some r) = record {
  active = active;
  day_pnl = r.realized_pnl +ℤ r.unrealized_pnl;
  loss_limit = r.max_loss_limit;
}

-- `status`
unfoldable pub status : Desk → Status
unfolding status_of namespace
status d = status_of d.config.kill_switch_active (d.daily (namespace d))

abbrev pub set_active : Bool → Desk → Desk
set_active b d = record d { config = record d.config { kill_switch_active = b } }

-- `_trip`
unfoldable pub trip : Desk → Desk
unfolding namespace
trip d = set_active true (record d {
  daily = update_row (λ r. record r { kill_switch_tripped = true }) (namespace d) d.daily;
})

-- `st.loss_limit < 0 and st.day_pnl <= st.loss_limit`
abbrev pub is_breached : Status → Bool
is_breached st = ltb_ℤ st.loss_limit (pos 0) && leb_ℤ st.day_pnl st.loss_limit

-- `check_and_maybe_trip`
unfoldable pub check_and_maybe_trip : Desk → Desk
unfolding status trip
check_and_maybe_trip d =
    if not d.config.kill_switch_active && is_breached (status d) then trip d else d

-- `reset`
unfoldable pub reset : Desk → Desk
unfolding namespace
reset d = set_active false (record d {
  daily = update_row (λ r. record r { kill_switch_tripped = false }) (namespace d) d.daily;
})

-- `update_pnl`; an argument that is not given leaves its column
unfoldable pub update_pnl : Option ℤ → Option ℤ → Desk → Desk
unfolding namespace
update_pnl realized unrealized d = record d {
  daily =
      update_row
        (λ r. record r {
          realized_pnl = or_default realized r.realized_pnl;
          unrealized_pnl = or_default unrealized r.unrealized_pnl;
        })
        (namespace d) d.daily;
}
