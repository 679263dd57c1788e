-- ===== src/Data/Candles/Buckets.antt =====
-- The buckets of data/aggregator.py: `bucket_start` rounds the time down to the grid of its interval.
use ai_trading_system.Base.{ℕ, ◌*◌, ◌/◌, ◌≡◌, arith, Option, none, some}
use ai_trading_system.Data.Candles.{
  Interval, minutes_1, minutes_3, minutes_5, minutes_15, day, unknown, interval_minutes, minute,
  bucket_start,
}

abbrev pub minutes_or_day : Option ℕ → ℕ
minutes_or_day none = 24 * 60
minutes_or_day (some m) = m

-- the length of a bucket
abbrev pub bucket_length : Interval → ℕ
bucket_length i = minutes_or_day (interval_minutes i) * minute

-- A bucket starts at the last multiple of its length: the minutes of the table divide the hour, so
-- cutting the minute of the hour is cutting the whole time.
pub bucket_start-grid :
    (ts : ℕ) (i : Interval) → bucket_start ts i ≡ ts / bucket_length i * bucket_length i
unfolding bucket_start
bucket_start-grid ts minutes_1 = omega arith
bucket_start-grid ts minutes_3 = omega arith
bucket_start-grid ts minutes_5 = omega arith
bucket_start-grid ts minutes_15 = omega arith
bucket_start-grid ts day = omega arith
bucket_start-grid ts unknown = omega arith
