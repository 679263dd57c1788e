-- ===== src/Data/Watchdog.antt =====
-- `_watchdog` and `reconnect` of the class FeedManager of data/feed.py. Times are milliseconds of the
-- monotonic clock. Logs are left out. The tasks that a cycle creates are its answer; a reconnect is
-- over when the next cycle begins.
pub mod Silence
mod Tests
use ai_trading_system.Base.{
  ℕ, ◌-◌, Bool, true, false, not, ◌&&◌, Option, none, some, ltb, leb, if◌then◌else◌,
}

pub record Limits : Type 0 where
  pub staleness : ℕ
  pub reconnect_after : ℕ
  pub failsafe_after : ℕ

pub record Feed : Type 0 where
  pub last_tick : Option ℕ
  pub last_reconnect : ℕ
  pub reconnecting : Bool
  pub failsafe_fired : Bool
  pub was_in_market : Bool

-- the tasks that are created: a reconnect, and the fail-safe
pub record Tasks : Type 0 where
  pub reconnect : Bool
  pub failsafe : Bool

abbrev pub no_tasks : Tasks
no_tasks = record { reconnect = false; failsafe = false }

-- `_consume`, as far as the watchdog sees it
abbrev pub ticked : ℕ → Feed → Feed
ticked now f = record f { last_tick = some now }

-- the escalation of a cycle in session whose idle time is known
unfoldable pub escalate : Limits → Bool → ℕ → ℕ → Feed → Tasks × Feed
escalate l has_failsafe now idle f =
    let cooled = ltb 120_000 (now - f.last_reconnect) in
    let fires = ltb l.failsafe_after idle && has_failsafe && not f.failsafe_fired in
    if leb idle l.staleness then (no_tasks, f) else (
      record {
        reconnect = ltb l.reconnect_after idle && cooled && not f.reconnecting;
        failsafe = fires;
      },
      if fires then record f { failsafe_fired = true } else f,
    )

unfoldable pub stale_check : Limits → Bool → ℕ → Option ℕ → Feed → Tasks × Feed
unfolding escalate
stale_check l has_failsafe now none f = (no_tasks, f)
stale_check l has_failsafe now (some t) f = escalate l has_failsafe now (now - t) f

-- one turn of the loop, in or out of the session
unfoldable pub cycle : Limits → Bool → ℕ → Bool → Feed → Tasks × Feed
unfolding stale_check
cycle l has_failsafe now false f =
    (no_tasks, record f { last_tick = some now; failsafe_fired = false; was_in_market = false })
cycle l has_failsafe now true f =
    if f.was_in_market then stale_check l has_failsafe now f.last_tick f else (
      record { reconnect = not f.reconnecting; failsafe = false },
      record f { was_in_market = true; last_tick = some now },
    )

-- `reconnect`, which works or raises, and ends at a time
unfoldable pub reconnect : Bool → ℕ → ℕ → Feed → Feed
reconnect works begins ends f =
    if f.reconnecting
    then f
    else if works
    then record f { last_reconnect = begins; last_tick = some ends }
    else record f { last_reconnect = begins }

abbrev pub run_if : Bool → Bool → ℕ → Feed → Feed
run_if wanted works now f = if wanted then reconnect works now now f else f

-- a cycle in session and the reconnect that it asks for
unfoldable pub beat : Limits → Bool → Bool → ℕ → Feed → Tasks × Feed
unfolding cycle reconnect
beat l has_failsafe works now f =
    let (tasks, f') = cycle l has_failsafe now true f in
    (tasks, run_if tasks.reconnect works now f')
