-- ===== src/Execution/Executor/Exit.antt =====
-- Exits of execution/executor.py: `market_exit`, `_do_live_exit`, `_cancel_bracket`,
-- `_broker_net_qty`, `close` and `on_price`, with the statements of execution/position_book.py that
-- they run. The depth-aware exit price of the simulated path, with its call of the broker for the
-- quotes, is a function on the broker's state, a parameter.
use ai_trading_system.Base.{
  ℕ, ◌-◌, Bool, false, not, ◌||◌, Option, none, some, List, [], ◌∷◌, ◌==◌, if◌then◌else◌,
  or_default,
}
use ai_trading_system.Base.Int.{ℤ, pos}
use ai_trading_system.Base.Dict.{lookup}
use ai_trading_system.Broker.{
  Exchange, market, OrderRequest, NetRow, Call, returned, raised, Adapter, opposite,
}
use ai_trading_system.Common.RuntimeMode.{load_runtime_mode, is_live_mode}
use ai_trading_system.Execution.Costs.{segment_key, compute_leg, InstrumentType, other_type}
use ai_trading_system.Execution.Events.{full_close, close_pending}
use ai_trading_system.Execution.Guards.{ExitSignal, disarm, process}
use ai_trading_system.Execution.Policy.{
  FillStatus, exit_product_supported, normalize_exit_status, close_books_fully, duplicate_exit_risk,
}
use ai_trading_system.Execution.Executor.{InstrumentRow, Setup, Position, World}
use ai_trading_system.Execution.Executor.Polling.{Polled, poll_order}
use ai_trading_system.Execution.Executor.Book.{
  is_open, close_position, mark_close_pending, append_event, released,
}

-- Broker truth about an exit order; of the fees, the total.
pub record NormalizedFill : Type 0 where
  pub broker_order_id : ℕ
  pub status : FillStatus
  pub filled_qty : ℕ
  pub avg_price : ℕ
  pub pending_qty : ℕ
  pub fees : ℕ

-- the row of the position's instrument, `await get_instrument(...) or {}`
abbrev pub row_of : Setup → Option ℕ → Option InstrumentRow
row_of setup none = none
row_of setup (some t) = setup.get_instrument t

abbrev pub type_of : Option InstrumentRow → InstrumentType
type_of none = other_type
type_of (some r) = r.row_type

-- `position.get("exchange") or inst.get("exchange")`
abbrev pub exchange_of : Option Exchange → Option InstrumentRow → Option Exchange
exchange_of (some e) row = some e
exchange_of none none = none
exchange_of none (some r) = r.row_exchange

abbrev pub exit_request : Option Exchange → Position → OrderRequest
exit_request e p = record {
  exchange = e;
  tradingsymbol = p.tradingsymbol;
  transaction_type = opposite p.side;
  quantity = p.quantity;
  product = p.product;
  order_type = market;
  price = none;
}

unfoldable pub normalized : Setup → Position → ℕ → Polled → NormalizedFill
normalized setup p oid st =
    let segment = segment_key p.sleeve (type_of (row_of setup p.instrument_token)) in
    record {
      broker_order_id = oid;
      status = normalize_exit_status st.status st.filled;
      filled_qty = st.filled;
      avg_price = st.avg_price;
      pending_qty = p.quantity - st.filled;
      fees =
          if st.filled == 0 || st.avg_price == 0
          then 0
          else (compute_leg setup.cost_model segment (opposite p.side) st.filled
              st.avg_price).total;
    }

-- the first net row of the token; a flat broker has none
unfoldable pub net_qty : ℕ → List NetRow → ℤ
net_qty token [] = pos 0
net_qty token (r ∷ rs) = elim r.instrument_token [
  | none ↦ net_qty token rs
  | some t ↦ let rest = net_qty token rs in if t == token then r.quantity else rest
]

module _ {S : Type 0} (adapter : Adapter S) where
  unfoldable pub market_exit : Setup → Position → S → Call NormalizedFill × S
  unfolding normalized
  market_exit setup p s =
      let e = exchange_of p.exchange (row_of setup p.instrument_token) in
      if not (exit_product_supported e p.product)
      then (raised, s)
      else let (answer, s') = adapter.place_order (exit_request e p) s in
        elim answer [
          | raised ↦ (raised, s')
          | returned oid ↦
              let (polled, s'') = poll_order adapter 12 oid s' in
              elim polled [
                | raised ↦ (raised, s'')
                | returned st ↦ (returned (normalized setup p oid st), s'')
              ]
        ]

  -- the part of `_do_live_exit` after `market_exit`
  unfoldable pub settle : ℕ → Position → Call NormalizedFill → World S → Option ℤ × World S
  unfolding close_position mark_close_pending append_event
  settle pid p raised w =
      (none, append_event pid close_pending none (mark_close_pending pid none w))
  settle pid p (returned nf) w =
      if close_books_fully nf.status nf.filled_qty p.quantity
      then (let (realized, w') = close_position pid nf.avg_price nf.fees w in
          (realized, append_event pid full_close (some nf.filled_qty) w'))
      else (
        none,
        append_event pid close_pending (some nf.filled_qty)
            (mark_close_pending pid (some nf.broker_order_id) w),
      )

  -- `_do_live_exit`
  unfoldable pub do_live_exit : Setup → ℕ → Position → World S → Option ℤ × World S
  unfolding market_exit settle
  do_live_exit setup pid p w =
      let (answer, s') = market_exit setup p w.broker in
      settle pid p answer (record w { broker = s' })

  -- `_cancel_bracket`; a trigger that is not deleted is only logged
  unfoldable pub cancel_bracket : Position → S → S
  cancel_bracket p s =
      let gtt = or_default p.gtt_id 0 in if gtt == 0 then s else (adapter.delete_gtt gtt s).1

  -- `_broker_net_qty`
  unfoldable pub broker_net_qty : Option ℕ → S → Option ℤ × S
  unfolding net_qty
  broker_net_qty none s = (none, s)
  broker_net_qty (some token) s =
      let (answer, s') = adapter.positions s in
      elim answer [ raised ↦ (none, s') | returned rows ↦ (some (net_qty token rows), s') ]

  abbrev pub is_flat : Option ℤ → Bool
  is_flat none = false
  is_flat (some q) = duplicate_exit_risk q

  -- the live branch of `close`
  unfoldable pub close_live : Setup → ℕ → Position → World S → Option ℤ × World S
  unfolding cancel_bracket broker_net_qty do_live_exit mark_close_pending append_event
  close_live setup pid p w =
      let (bq, s') = broker_net_qty p.instrument_token (cancel_bracket p w.broker) in
      let w' = record w { broker = s'; brackets = released pid w.brackets } in
      if is_flat bq
      then (none, append_event pid close_pending none (mark_close_pending pid none w'))
      else do_live_exit setup pid p w'

-- the first price that is there and not 0
abbrev pub first_price : Option ℕ → ℕ → ℕ
first_price price rest = if or_default price 0 == 0 then rest else or_default price 0

-- The prices that a close is offered: a traded tick, the call of the broker for a live quote, the last
-- mark.
pub record Prices (S : Type 0) : Type 0 where
  pub price : Option ℕ
  pub quote : S → Option ℕ × S
  pub fallback_price : Option ℕ

module _ {S : Type 0} (adapter : Adapter S) where
  -- the simulated branch of `close`; the broker is asked for a quote only where there is no price
  unfoldable pub close_sim : Setup → Prices S → ℕ → Position → World S → Option ℤ × World S
  unfolding close_position
  close_sim setup ps pid p w =
      let (answer, s') =
        if or_default ps.price 0 == 0 then ps.quote w.broker else (none, w.broker) in
      let px =
        first_price ps.price (first_price answer (first_price ps.fallback_price p.average_price)) in
      let segment = segment_key p.sleeve (type_of (row_of setup p.instrument_token)) in
      close_position pid px
        (compute_leg setup.cost_model segment (opposite p.side) p.quantity px).total
        (record w { broker = s' })

  abbrev pub forget_guard : ℕ → Option ℤ × World S → Option ℤ × World S
  forget_guard pid (realized, w) = (realized, record w { guards = disarm pid w.guards })

  -- `close`, of the row that was read
  unfoldable pub close_row : Setup → Prices S → ℕ → Option Position → World S → Option ℤ × World S
  unfolding close_live close_sim
  close_row setup ps pid none w = (none, w)
  close_row setup ps pid (some p) w =
      if not (is_open p.status)
      then (none, w)
      else if is_live_mode (load_runtime_mode w.config).mode
      then forget_guard pid (close_live adapter setup pid p w)
      else forget_guard pid (close_sim setup ps pid p w)

  unfoldable pub close : Setup → Prices S → ℕ → World S → Option ℤ × World S
  unfolding close_row
  close setup ps pid w = close_row setup ps pid (lookup pid w.positions) w

  -- the part of `on_price` after the guard was asked
  unfoldable pub on_signal :
      Setup → (S → Option ℕ × S) → ℕ → Option ExitSignal → World S → Option ℤ × World S
  unfolding close
  on_signal setup quote pid none w = (none, w)
  on_signal setup quote pid (some signal) w =
      close setup (record { price = some signal.price; quote = quote; fallback_price = none }) pid
        (record w { guards = disarm pid w.guards })

  -- `on_price`, without the throttled writes of the unrealized profit
  unfoldable pub on_price : Setup → (S → Option ℕ × S) → ℕ → ℕ → ℕ → World S → Option ℤ × World S
  unfolding on_signal
  on_price setup quote pid price now w =
      let (signal, gs) = process pid price now w.guards in
      on_signal setup quote pid signal (record w { guards = gs })
