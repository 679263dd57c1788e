-- ===== src/Data/Candles.antt =====
-- data/aggregator.py, the class CandleAggregator. A time is the number of microseconds since a
-- midnight of IST, prices are whole numbers of the smallest price step, and `datetime.replace` is
-- written out with division. The key of a state is a token and an interval.
pub mod Buckets
pub mod Chart
pub mod Keys
pub mod Project
mod Tests
use ai_trading_system.Base.{
  ℕ, ◌+◌, ◌-◌, ◌*◌, ◌/◌, ◌%◌, Bool, true, false, ◌&&◌, Option, none, some, List, [], ◌∷◌, ◌++◌,
  ◌==◌, ltb, if◌then◌else◌, max, min,
}

-- `unknown` stands for every name that is not in the table and is not "day"
pub data Interval : Type 0 where
  minutes_1 minutes_3 minutes_5 minutes_15 day unknown : Interval

-- `_INTERVAL_MINUTES`
abbrev pub interval_minutes : Interval → Option ℕ
interval_minutes minutes_1 = some 1
interval_minutes minutes_3 = some 3
interval_minutes minutes_5 = some 5
interval_minutes minutes_15 = some 15
interval_minutes _ = none

abbrev pub same_interval : Interval → Interval → Bool
same_interval minutes_1 minutes_1 = true
same_interval minutes_3 minutes_3 = true
same_interval minutes_5 minutes_5 = true
same_interval minutes_15 minutes_15 = true
same_interval day day = true
same_interval unknown unknown = true
same_interval _ _ = false

abbrev pub minute : ℕ
minute = 60_000_000

abbrev pub hour : ℕ
hour = 60 * minute

-- the start of the bucket of m minutes within the hour
abbrev pub minute_start : ℕ → Option ℕ → ℕ
minute_start ts none = ts / (24 * hour) * (24 * hour)
minute_start ts (some m) = ts / hour * hour + ts / minute % 60 / m * m * minute

unfoldable pub bucket_start : ℕ → Interval → ℕ
bucket_start ts interval = minute_start ts (interval_minutes interval)

-- the arguments of `add_tick`
pub record Tick : Type 0 where
  pub instrument_token : ℕ
  pub ts : ℕ
  pub last_price : ℕ
  pub cum_volume : ℕ
  pub oi : Option ℕ

pub record Building : Type 0 where
  pub start : ℕ
  pub open_price : ℕ
  pub high : ℕ
  pub low : ℕ
  pub close : ℕ
  pub vol_open : ℕ
  pub volume : ℕ
  pub oi : Option ℕ

pub record ClosedCandle : Type 0 where
  pub ts : ℕ
  pub instrument_token : ℕ
  pub interval : Interval
  pub open_price : ℕ
  pub high : ℕ
  pub low : ℕ
  pub close : ℕ
  pub volume : ℕ
  pub oi : Option ℕ

abbrev pub State : Type 0
State = List ((ℕ × Interval) × Building)

abbrev pub is_key : ℕ → Interval → ℕ × Interval → Bool
is_key token interval (t, i) = (t == token) && same_interval i interval

-- `_state.get(key)`
abbrev pub find : ℕ → Interval → State → Option Building
find token interval [] = none
find token interval ((k, b) ∷ s) = if is_key token interval k then some b else find token interval s

-- `_state[key] = b`
abbrev pub set : ℕ → Interval → Building → State → State
set token interval b [] = ((token, interval), b) ∷ []
set token interval b ((k, c) ∷ s) =
    if is_key token interval k then (k, b) ∷ s else (k, c) ∷ set token interval b s

unfoldable pub finalize : ℕ → Interval → Building → ClosedCandle
finalize token interval c = record {
  ts = c.start;
  instrument_token = token;
  interval = interval;
  open_price = c.open_price;
  high = c.high;
  low = c.low;
  close = c.close;
  volume = c.volume;
  oi = c.oi;
}

-- the candle that a tick opens
unfoldable pub start : ℕ → Tick → Building
start bs t = record {
  start = bs;
  open_price = t.last_price;
  high = t.last_price;
  low = t.last_price;
  close = t.last_price;
  vol_open = t.cum_volume;
  volume = 0;
  oi = t.oi;
}

abbrev pub latest : Option ℕ → Option ℕ → Option ℕ
latest none old = old
latest (some n) old = some n

-- a tick of a candle that is open, or a late one
unfoldable pub absorb : Tick → Building → Building
absorb t b =
    let anchor = if ltb t.cum_volume b.vol_open then t.cum_volume else b.vol_open in
    record {
      start = b.start;
      open_price = b.open_price;
      high = max b.high t.last_price;
      low = min b.low t.last_price;
      close = t.last_price;
      vol_open = anchor;
      volume = t.cum_volume - anchor;
      oi = latest t.oi b.oi;
    }

-- the candle that is closed and the one that is being built, from the one before
unfoldable pub step : ℕ → Interval → Tick → Option Building → List ClosedCandle × Building
unfolding start absorb
step bs interval t none = ([], start bs t)
step bs interval t (some cur) =
    if ltb cur.start bs
    then (finalize t.instrument_token interval cur ∷ [], start bs t)
    else ([], absorb t cur)

-- the loop of `add_tick`
unfoldable pub add_tick : List Interval → Tick → State → List ClosedCandle × State
unfolding bucket_start step
add_tick [] t s = ([], s)
add_tick (i ∷ is) t s =
    let (closed, b) = step (bucket_start t.ts i) i t (find t.instrument_token i s) in
    let (more, s') = add_tick is t (set t.instrument_token i b s) in (closed ++ more, s')

-- the intervals that `__init__` keeps
unfoldable pub known : List Interval → List Interval
known [] = []
known (unknown ∷ is) = known is
known (i ∷ is) = i ∷ known is

abbrev pub finalize_all : State → List ClosedCandle
finalize_all [] = []
finalize_all (((token, interval), c) ∷ s) = finalize token interval c ∷ finalize_all s

unfoldable pub flush : State → List ClosedCandle × State
flush s = (finalize_all s, [])
