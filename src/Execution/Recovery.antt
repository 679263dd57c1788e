-- ===== src/Execution/Recovery.antt =====
-- The live branch of `adopt_open_positions` of execution/recovery.py, with `adopt_row` of
-- execution/position_book.py: the broker's net positions become rows and guards at a cold start.
pub mod Adopted
use ai_trading_system.Base.{
  ℕ, ◌+◌, ◌*◌, Bool, true, false, ◌&&◌, ◌||◌, Option, none, some, List, [], ◌∷◌, ◌++◌, ◌==◌,
  if◌then◌else◌, or_default, min, max,
}
use ai_trading_system.Base.Int.{ℤ, pos, negsuc, abs_ℤ, ltb_ℤ}
use ai_trading_system.Base.Dict.{Dict, insert}
use ai_trading_system.Broker.{Side, buy, sell, Exchange, Product}
use ai_trading_system.Common.State.{Mode, live}
use ai_trading_system.Common.ModeTransition.{same_mode}
use ai_trading_system.Execution.Costs.{adopted}
use ai_trading_system.Execution.Events.{RowStatus, row_open, row_flagged}
use ai_trading_system.Execution.Guards.{Guard, scale, arm}
use ai_trading_system.Execution.Executor.{Position, World}
use ai_trading_system.Execution.Executor.Booking.{update_at}

-- What the adoption reads of a trigger of the broker.
pub record Gtt : Type 0 where
  pub tradingsymbol : ℕ
  pub trigger_values : List ℕ

-- What it reads of a net position; a missing price is 0.
pub record NetPosition : Type 0 where
  pub instrument_token : Option ℕ
  pub tradingsymbol : ℕ
  pub quantity : ℤ
  pub average_price : ℕ
  pub last_price : ℕ
  pub product : Option Product
  pub exchange : Option Exchange

-- the sorted trigger values of an OCO
abbrev pub oco_of : List ℕ → Option (ℕ × ℕ)
oco_of (a ∷ b ∷ []) = some (min a b, max a b)
oco_of _ = none

abbrev pub first_of : Option (ℕ × ℕ) → Option (ℕ × ℕ) → Option (ℕ × ℕ)
first_of none rest = rest
first_of (some p) rest = some p

-- `_stops_from_gtts`
unfoldable pub stops_from_gtts : List Gtt → ℕ → Option (ℕ × ℕ)
stops_from_gtts [] symbol = none
stops_from_gtts (g ∷ gs) symbol =
    let rest = stops_from_gtts gs symbol in
    if g.tradingsymbol == symbol then first_of (oco_of g.trigger_values) rest else rest

abbrev pub side_of : ℤ → Side
side_of (pos n) = buy
side_of (negsuc n) = sell

abbrev pub entry_of : NetPosition → ℕ
entry_of p = if p.average_price == 0 then p.last_price else p.average_price

-- the guard of an adopted position, whose stop and target are the lower and the upper trigger
unfoldable pub adopted_guard : ℕ → NetPosition → ℕ × ℕ → Guard
adopted_guard pid p (stop, target) = record {
  position_id = pid;
  side = side_of p.quantity;
  entry = entry_of p;
  stop = stop * scale;
  target = target;
  instrument_token = or_default p.instrument_token 0;
  trail_distance = 0;
  square_off = none;
  high_water = 0;
  breakeven_at_r = 0;
  lock_trigger_frac = 0;
  max_giveback_frac = 3500;
  init_risk = 0;
  best_gain = 0;
}

abbrev pub same_token : Option ℕ → Option ℕ → Bool
same_token (some a) (some b) = a == b
same_token _ _ = false

abbrev pub is_held : RowStatus → Bool
is_held row_open = true
is_held row_flagged = true
is_held _ = false

-- the row of `SELECT id FROM positions ... LIMIT 1`; SQL compares nothing with a missing token
unfoldable pub find_held : Option ℕ → Mode → Dict Position → Option ℕ
find_held token mode [] = none
find_held token mode ((pid, q) ∷ ps) =
    let rest = find_held token mode ps in
    if same_token q.instrument_token token && (same_mode q.mode mode && is_held q.status)
    then some pid
    else rest

abbrev pub refreshed : NetPosition → RowStatus → Position → Position
refreshed p status q = record q {
  quantity = abs_ℤ p.quantity;
  average_price = entry_of p;
  side = side_of p.quantity;
  status = status;
}

abbrev pub adopted_row : NetPosition → RowStatus → Position
adopted_row p status = record {
  status = status;
  mode = live;
  sleeve = adopted;
  instrument_token = p.instrument_token;
  tradingsymbol = p.tradingsymbol;
  side = side_of p.quantity;
  quantity = abs_ℤ p.quantity;
  average_price = entry_of p;
  product = p.product;
  exchange = p.exchange;
  entry_fees = 0;
  gtt_id = none;
  exit_order = none;
  realized_pnl = none;
}

module _ {S : Type 0} where
  -- `adopt_row`, from what the select found
  unfoldable pub adopt_found : Option ℕ → NetPosition → RowStatus → World S → ℕ × World S
  adopt_found (some pid) p status w =
      (pid, record w { positions = update_at (refreshed p status) pid w.positions })
  adopt_found none p status w = (
    w.next_id,
    record w {
      positions = insert w.next_id (adopted_row p status) w.positions;
      next_id = w.next_id + 1;
    },
  )

  unfoldable pub adopt_row : NetPosition → RowStatus → World S → ℕ × World S
  unfolding adopt_found find_held
  adopt_row p status w = adopt_found (find_held p.instrument_token live w.positions) p status w

  -- the loop's body, for a position with a quantity; the ids adopted and the ids flagged so far
  unfoldable pub adopt_with :
      Option (ℕ × ℕ) → NetPosition → (List ℕ × List ℕ) × World S → (List ℕ × List ℕ) × World S
  unfolding adopt_row adopted_guard
  adopt_with none p ((ids, flagged), w) =
      let (pid, w') = adopt_row p row_flagged w in ((ids, flagged ++ (pid ∷ [])), w')
  adopt_with (some triggers) p ((ids, flagged), w) =
      let (pid, w') = adopt_row p row_open w in
      (
        (ids ++ (pid ∷ []), flagged),
        record w' { guards = arm (adopted_guard pid p triggers) w'.guards },
      )

  unfoldable pub adopt_all :
      List Gtt → List NetPosition → (List ℕ × List ℕ) × World S → (List ℕ × List ℕ) × World S
  unfolding adopt_with stops_from_gtts
  adopt_all gtts [] r = r
  adopt_all gtts (p ∷ ps) r =
      adopt_all gtts ps
        (if abs_ℤ p.quantity == 0 then r else adopt_with (stops_from_gtts gtts p.tradingsymbol) p r)
