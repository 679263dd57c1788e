-- ===== src/Execution/Executor/Booking.antt =====
-- The booking of a fill: `create_bracket` of execution/brackets.py, and `open_position`,
-- `attach_bracket` and `record_bracket` of execution/position_book.py.
use ai_trading_system.Base.{
  ℕ, ◌+◌, ◌*◌, Bool, true, false, ◌||◌, none, some, [], ◌∷◌, ◌++◌, ◌==◌, if◌then◌else◌, or_default,
  min, max,
}
use ai_trading_system.Base.Dict.{Dict, insert}
use ai_trading_system.Broker.{
  OrderType, market, limit, OrderRequest, OcoRequest, Call, returned, raised, Adapter, opposite,
}
use ai_trading_system.Common.State.{Mode}
use ai_trading_system.Execution.Costs.{segment_key, compute_leg}
use ai_trading_system.Execution.Events.{row_open}
use ai_trading_system.Execution.Guards.{Guard, scale, distance, arm}
use ai_trading_system.Execution.Executor.{
  Decision, Setup, Position, World, square_off_time, dynamic_exit_cfg,
}

-- the guard that `create_bracket` arms
unfoldable pub new_guard : Setup → Decision → ℕ → ℕ → Guard
unfolding square_off_time dynamic_exit_cfg
new_guard setup d price pid =
    let dyn = dynamic_exit_cfg setup d.sleeve in
    record {
      position_id = pid;
      side = d.side;
      entry = price;
      stop = d.stop_price * scale;
      target = d.target_price;
      instrument_token = or_default d.instrument_token 0;
      trail_distance = 0;
      square_off = square_off_time setup d.sleeve;
      high_water = 0;
      breakeven_at_r = dyn.breakeven_at_r;
      lock_trigger_frac = dyn.lock_trigger_frac;
      max_giveback_frac = if dyn.max_giveback_frac == 0 then 3500 else dyn.max_giveback_frac;
      init_risk = distance price d.stop_price * scale;
      best_gain = 0;
    }

abbrev is_market : OrderType → Bool
is_market market = true
is_market _ = false

-- a leg of the trigger; the stop leg has the configured type, the target leg is a limit order
unfoldable pub leg : Setup → Decision → ℕ → ℕ → OrderRequest
leg setup d qty price =
    let otype = if price == d.stop_price then setup.stop_order_type else limit in
    record {
      exchange = d.exchange;
      tradingsymbol = d.tradingsymbol;
      transaction_type = opposite d.side;
      quantity = qty;
      product = d.product;
      order_type = otype;
      price = some (if is_market otype then 0 else price);
    }

unfoldable pub oco_request : Setup → Decision → ℕ → OcoRequest
unfolding leg
oco_request setup d qty =
    let low = min d.stop_price d.target_price in
    let high = max d.stop_price d.target_price in
    record {
      lower_trigger = low;
      upper_trigger = high;
      lower = leg setup d qty low;
      upper = leg setup d qty high;
    }

-- `attach_bracket`
abbrev pub with_gtt : ℕ → Position → Position
with_gtt gtt p = record p { gtt_id = some gtt }

-- `UPDATE positions ... WHERE id = pid`
abbrev pub update_at : (Position → Position) → ℕ → Dict Position → Dict Position
update_at f pid [] = []
update_at f pid ((k, p) ∷ ps) = (k, if k == pid then f p else p) ∷ update_at f pid ps

module _ {S : Type 0} (adapter : Adapter S) where
  -- `attach_bracket` and `record_bracket`, when the trigger was placed
  unfoldable pub attach : Call ℕ → ℕ → World S → World S
  attach raised pid w = w
  attach (returned gtt) pid w = record w {
    positions = update_at (with_gtt gtt) pid w.positions;
    brackets = w.brackets ++ (record { position_id = pid; gtt = gtt; is_active = true } ∷ []);
  }

  -- `create_bracket` in live mode; the guard stands also where the trigger was refused
  unfoldable pub create_bracket : Setup → Decision → ℕ → ℕ → ℕ → World S → World S
  unfolding new_guard oco_request attach
  create_bracket setup d qty price pid w =
      let armed = record w { guards = arm (new_guard setup d price pid) w.guards } in
      if d.stop_price == 0 || d.target_price == 0
      then armed
      else let (answer, s') = adapter.place_oco (oco_request setup d qty) armed.broker in
        attach answer pid (record armed { broker = s' })

module _ {S : Type 0} where
  -- `open_position`
  unfoldable pub open_position : Setup → Mode → Decision → ℕ → ℕ → World S → World S
  open_position setup mode d qty price w =
      let fees =
        compute_leg setup.cost_model (segment_key d.sleeve d.instrument_type) d.side qty price in
      record w {
        positions =
            insert w.next_id
              (record {
                status = row_open;
                mode = mode;
                sleeve = d.sleeve;
                instrument_token = d.instrument_token;
                tradingsymbol = d.tradingsymbol;
                side = d.side;
                quantity = qty;
                average_price = price;
                product = d.product;
                exchange = d.exchange;
                entry_fees = fees.total;
                gtt_id = none;
                exit_order = none;
                realized_pnl = none;
              })
              w.positions;
        next_id = w.next_id + 1;
      }
