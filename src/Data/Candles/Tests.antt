-- ===== src/Data/Candles/Tests.antt =====
-- Runs of the aggregator on three ticks of one instrument and one of another.
use ai_trading_system.Base.{ℕ, ◌+◌, ◌*◌, ◌≡◌, refl, none, List, [], ◌∷◌, length, take}
use ai_trading_system.Data.Candles.{
  Interval, minutes_1, minutes_5, unknown, Tick, ClosedCandle, minute, bucket_start, finalize,
  start, absorb, step, add_tick, known, flush,
}
use ai_trading_system.Data.Candles.Chart.{chart}
use ai_trading_system.Data.Candles.Keys.{of_key}
use ai_trading_system.Data.Candles.Project.{of_token, candles, candles-chart}

abbrev tick : ℕ → ℕ → ℕ → ℕ → Tick
tick token ts price volume = record {
  instrument_token = token;
  ts = ts;
  last_price = price;
  cum_volume = volume;
  oi = none;
}

abbrev ticks : List Tick
ticks =
    tick 7 (555 * minute) 100 10
    ∷ tick 8 (555 * minute + 5) 900 1
    ∷ tick 7 (555 * minute + 9) 104 25
    ∷ tick 7 (556 * minute) 99 40
    ∷ []

abbrev configured : List Interval
configured = minutes_1 ∷ unknown ∷ minutes_5 ∷ []

abbrev first_candle : ClosedCandle
first_candle = record {
  ts = 555 * minute;
  instrument_token = 7;
  interval = minutes_1;
  open_price = 100;
  high = 104;
  low = 100;
  close = 104;
  volume = 15;
  oi = none;
}

chart_start : take 1 (chart 7 minutes_1 (of_token 7 ticks)) ≡ first_candle ∷ []
unfolding bucket_start
chart_start = refl

all_candles : length (candles (known configured) ticks []) ≡ 5
unfolding known add_tick flush step start absorb finalize bucket_start
all_candles = refl

candles-chart_example :
    of_key 7 minutes_1 (candles (known configured) ticks []) ≡ chart 7 minutes_1 (of_token 7 ticks)
unfolding known
candles-chart_example = candles-chart 7 minutes_1 configured ticks refl
