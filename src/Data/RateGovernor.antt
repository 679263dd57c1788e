-- ===== src/Data/RateGovernor.antt =====
-- data/rate_governor.py. Times are microseconds, rates and capacities are in 1/10000 of a token, and a
-- bucket counts in 1/10^10 of a token, so that a refill is exact. A wait is rounded up to a whole
-- microsecond. The clock after a sleep, and the server behind the calls, are parameters. The model is
-- of one caller at a time: the lock of a bucket and the threads are left out.
pub mod Patience
pub mod Limits
pub mod Tally
pub mod Paced
mod Tests
use ai_trading_system.Base.{
  ℕ, zero, suc, ◌+◌, ◌-◌, ◌*◌, ◌/◌, Bool, true, false, not, ◌&&◌, ◌||◌, Option, none, some, List,
  [], ◌∷◌, ◌++◌, ◌==◌, leb, ltb, if◌then◌else◌, length, min,
}

pub record TokenBucket : Type 0 where
  pub capacity : ℕ
  pub refill_per_sec : ℕ
  pub tokens : ℕ
  pub last : ℕ

-- what a capacity or a rate is in the units of a bucket
abbrev pub scaled : ℕ → ℕ
scaled n = n * 1_000_000

unfoldable pub init : ℕ → ℕ → ℕ → TokenBucket
init capacity rate now = record {
  capacity = capacity;
  refill_per_sec = rate;
  tokens = scaled capacity;
  last = now;
}

unfoldable pub refill : ℕ → TokenBucket → TokenBucket
refill now b = record b {
  tokens = min (scaled b.capacity) (b.tokens + (now - b.last) * b.refill_per_sec);
  last = now;
}

-- the quotient, rounded up
abbrev pub ceil_div : ℕ → ℕ → ℕ
ceil_div a b = (a + (b - 1)) / b

-- `(tokens - self._tokens) / self.refill_per_sec`
abbrev pub wait_for : ℕ → TokenBucket → ℕ
wait_for wanted b = ceil_div (scaled wanted - b.tokens) b.refill_per_sec

module _ (sleep : ℕ → ℕ → ℕ) where
  -- `acquire`, for a number of looks at the bucket; a sleep starts at a time and lasts for a while
  unfoldable pub acquire : ℕ → ℕ → TokenBucket → ℕ → Option (TokenBucket × ℕ)
  unfolding refill
  acquire zero wanted b now = none
  acquire (suc looks) wanted b now =
      let b' = refill now b in
      let later = acquire looks wanted b' (sleep now (wait_for wanted b')) in
      if leb (scaled wanted) b'.tokens
      then some (record b' { tokens = b'.tokens - scaled wanted }, now)
      else later

-- `order_count_guard` of the configuration, the threshold in 1/10000 of a percent
pub record Caps : Type 0 where
  pub per_minute_cap : ℕ
  pub daily_cap : ℕ
  pub alert_threshold_pct : ℕ

pub record OrderGuard : Type 0 where
  pub order_times : List ℕ
  pub daily_count : ℕ
  pub daily_date : Option ℕ
  pub alerted_threshold : Bool

abbrev pub is_date : ℕ → Option ℕ → Bool
is_date today none = false
is_date today (some d) = d == today

unfoldable pub roll_day : ℕ → OrderGuard → OrderGuard
roll_day today g = if is_date today g.daily_date then g else record {
  order_times = [];
  daily_count = 0;
  daily_date = some today;
  alerted_threshold = false;
}

-- the times of the last minute
abbrev pub recent : ℕ → List ℕ → List ℕ
recent now [] = []
recent now (t ∷ ts) = if ltb (now - t) 60_000_000 then t ∷ recent now ts else recent now ts

-- `_check_order_guard`: whether the call may go on
unfoldable pub check_order_guard : Caps → ℕ → ℕ → OrderGuard → Bool × OrderGuard
unfolding roll_day
check_order_guard c today now g =
    let g' = roll_day today g in
    let times = recent now g'.order_times in
    (
      not (leb c.daily_cap g'.daily_count || leb c.per_minute_cap (length times)),
      record g' { order_times = times },
    )

-- `_record_order`
unfoldable pub record_order : Caps → ℕ → OrderGuard → OrderGuard
record_order c now g = record {
  order_times = g.order_times ++ (now ∷ []);
  daily_count = g.daily_count + 1;
  daily_date = g.daily_date;
  alerted_threshold =
      g.alerted_threshold
      || leb (c.daily_cap * c.alert_threshold_pct) ((g.daily_count + 1) * 1_000_000);
}

-- What one call of the server does: an answer, the exception of status 429, or another one.
pub data Answer (R : Type 0) : Type 0 where
  answered : R → Answer R
  too_many : Answer R
  failed : Answer R

pub data Outcome (R : Type 0) : Type 0 where
  result : R → Outcome R
  rate_limited other_error cap_reached : Outcome R

abbrev pub max_retries : ℕ
max_retries = 5

-- `min(2 ** attempt, 30)` seconds
abbrev pub power : ℕ → ℕ
power zero = 1
power (suc n) = 2 * power n

abbrev pub backoff : ℕ → ℕ
backoff attempt = min (power attempt) 30 * 1_000_000

-- the governor, the bucket of the endpoint, the clock and the server
pub record State (S : Type 0) : Type 0 where
  pub guard : OrderGuard
  pub bucket : TokenBucket
  pub now : ℕ
  pub server : S

module _ {S R : Type 0} (sleep : ℕ → ℕ → ℕ) (fn : S → Answer R × S) (c : Caps)
    (is_order : Bool) where
  unfoldable pub record_if : State S → State S
  unfolding record_order
  record_if s = if is_order then record s { guard = record_order c s.now s.guard } else s

  -- what the call does with an answer; `again` is what follows on a 429
  unfoldable pub after :
      (State S → Option (Outcome R × State S)) → Answer R → State S → Option (Outcome R × State S)
  unfolding record_if
  after again (answered r) s = some (result r, record_if s)
  after again failed s = some (other_error, s)
  after again too_many s = again s

  -- one turn of the loop
  unfoldable pub attempt :
      (State S → Option (Outcome R × State S)) → State S → Option (Outcome R × State S)
  unfolding acquire after
  attempt again s = elim (acquire sleep 2 10_000 s.bucket s.now) [
    | none ↦ none
    | some (b, now) ↦
        let (answer, server) = fn s.server in
        after again answer (record s { bucket = b; now = now; server = server })
  ]

  abbrev pub backed_off : ℕ → State S → State S
  backed_off attempt s = record s { now = sleep s.now (backoff attempt) }

  -- the loop, with the number of retries that are left
  unfoldable pub loop : ℕ → State S → Option (Outcome R × State S)
  unfolding attempt
  loop zero s = attempt (λ s'. some (rate_limited, s')) s
  loop (suc left) s = attempt (λ s'. loop left (backed_off (max_retries - left) s')) s

  -- `call`, on the date of today
  unfoldable pub call : ℕ → State S → Option (Outcome R × State S)
  unfolding check_order_guard loop
  call today s =
      if is_order
      then (let (open_gate, g) = check_order_guard c today s.now s.guard in
          if open_gate
          then loop max_retries (record s { guard = g })
          else some (cap_reached, record s { guard = g }))
      else loop max_retries s
