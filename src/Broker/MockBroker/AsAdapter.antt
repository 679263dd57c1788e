-- ===== src/Broker/MockBroker/AsAdapter.antt =====
-- broker/mock_broker.py in the place of the adapter: its rows as the dicts that the executor reads.
-- Its position rows carry no `instrument_token`, a trigger keeps
-- its lower leg, and a method that raises leaves the broker as it was.
use ai_trading_system.Base.{List, [], ◌∷◌, map, Option, none, some}
use ai_trading_system.Base.Dict.{Dict}
use ai_trading_system.Broker.Types.{HistoryRow, NetRow, Call, returned, raised, Adapter}
use ai_trading_system.Broker.MockBroker.{
  Snapshot, MockBroker, place_order, order_history, cancel_order, place_gtt, delete_gtt,
  PositionRow, positions,
}

abbrev pub to_row : Snapshot → HistoryRow
to_row s = record {
  status = some s.status;
  filled_quantity = some s.filled_quantity;
  average_price = some s.average_price;
  status_message = none;
}

abbrev pub net_rows : Dict PositionRow → List NetRow
net_rows [] = []
net_rows ((k, r) ∷ rs) = record { instrument_token = none; quantity = r.quantity } ∷ net_rows rs

abbrev pub to_call {ℓ} : {A : Type ℓ} → MockBroker → Option (A × MockBroker) → Call A × MockBroker
to_call b none = (raised, b)
to_call b (some (a, b')) = (returned a, b')

abbrev pub to_rows :
    MockBroker → Option (List Snapshot × MockBroker) → Call (List HistoryRow) × MockBroker
to_rows b none = (raised, b)
to_rows b (some (rows, b')) = (returned (map to_row rows), b')

abbrev pub mock_adapter : Adapter MockBroker
mock_adapter = record {
  place_order = λ r b. to_call b (place_order none r b);
  order_history = λ oid b. to_rows b (order_history oid b);
  cancel_order =
      λ oid b. elim (cancel_order oid b) [ none ↦ (raised, b) | some (_, b') ↦ (returned tt, b') ];
  positions = λ b. (returned (net_rows (positions b)), b);
  place_oco = λ r b. let (t, b') = place_gtt r.lower b in (returned t, b');
  delete_gtt = λ t b. (returned tt, delete_gtt t b);
}
