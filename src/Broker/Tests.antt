-- ===== src/Broker/Tests.antt =====
-- The broker on concrete orders.
use ai_trading_system.Base.{◌≡◌, refl, none, some, [], ◌∷◌, or_default}
use ai_trading_system.Base.Int.{pos, ◌+ℤ◌}
use ai_trading_system.Base.Dict.{lookup}
use ai_trading_system.Broker.{buy, nse, mis, market, cancelled, OrderRequest}
use ai_trading_system.Broker.MockBroker.{
  completes, partial_then_stuck, Order, MockBroker, new_order, init, place_order, order_history,
  cancel_order, net_quantity,
}
use ai_trading_system.Broker.MockBroker.Laws.{IsSound, place, poll, cancels, step, run, run-IsSound}

abbrev ten_shares : OrderRequest
ten_shares = record {
  exchange = some nse;
  tradingsymbol = 7;
  transaction_type = buy;
  quantity = 10;
  product = some mis;
  order_type = market;
  price = none;
}

abbrev fresh : MockBroker
fresh = record {
  default_scenario = completes;
  fill_price = 1_000_000;
  ids = 1;
  orders = [];
  gtt_ids = 1;
  gtts = [];
  ltp = [];
}

-- an order of ten shares, polled once and cancelled, beside one that completes
abbrev after_calls : MockBroker
after_calls =
    run
      (place (some partial_then_stuck) ten_shares
        ∷ place none ten_shares
        ∷ poll 1
        ∷ cancels 1
        ∷ poll 2
        ∷ [])
      fresh

abbrev first : Order
first = or_default (lookup 1 after_calls.orders) (new_order 0 completes ten_shares)

run-IsSound_example : IsSound first
unfolding run init step order_history cancel_order place_order
run-IsSound_example =
    run-IsSound completes 1_000_000
      (place (some partial_then_stuck) ten_shares
        ∷ place none ten_shares
        ∷ poll 1
        ∷ cancels 1
        ∷ poll 2
        ∷ [])
      {b = fresh} 1 {o = first} refl refl

first_end : (first.status ≡ cancelled) × (first.filled ≡ 5)
unfolding run step place_order order_history cancel_order
first_end = (refl, refl)

bought : net_quantity 7 after_calls ≡ pos 15
unfolding run step place_order order_history cancel_order net_quantity ◌+ℤ◌
bought = refl
