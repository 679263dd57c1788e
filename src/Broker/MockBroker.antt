-- ===== src/Broker/MockBroker.antt =====
-- broker/mock_broker.py: the deterministic broker. Order ids MOCK000001, MOCK000002, ... are their
-- numbers, and a raised exception is `none`.
pub mod Laws
pub mod Outcomes
pub mod Positions
pub mod AsAdapter
use ai_trading_system.Base.{
  ℕ, zero, suc, ◌+◌, ◌-◌, ◌/◌, ◌≡◌, Bool, true, false, not, ◌&&◌, Option, none, some, List, [], ◌∷◌,
  ◌++◌, map, max, ltb, leb, ◌==◌, if◌then◌else◌, or_default,
}
use ai_trading_system.Base.Int.{ℤ, pos, ◌+ℤ◌, ◌-ℤ◌}
use ai_trading_system.Base.Dict.{Dict, lookup, insert, erase}
use ai_trading_system.Base.Round.{round_2}
use ai_trading_system.Broker.Types.{
  Side, buy, sell, Exchange, nse, Product, mis, OrderType, BrokerStatus, working, complete,
  rejected, cancelled, partial, other_status, OrderRequest,
}

-- `unlisted` is any text that is not in `SCENARIOS`.
pub data Scenario : Type 0 where
  completes partial_then_complete partial_then_stuck rejects no_fill unlisted : Scenario

abbrev pub is_listed : Scenario → Bool
is_listed unlisted = false
is_listed _ = true

-- `status in _TERMINAL`
abbrev pub is_terminal : BrokerStatus → Bool
is_terminal complete = true
is_terminal rejected = true
is_terminal cancelled = true
is_terminal _ = false

pub record Snapshot : Type 0 where
  pub order_id : ℕ
  pub status : BrokerStatus
  pub tradingsymbol : ℕ
  pub exchange : Exchange
  pub transaction_type : Side
  pub quantity : ℕ
  pub filled_quantity : ℕ
  pub pending_quantity : ℕ
  pub average_price : ℕ
  pub product : Product
  pub order_type : OrderType

pub record Order : Type 0 where
  pub oid : ℕ
  pub scenario : Scenario
  pub symbol : ℕ
  pub exchange : Exchange
  pub side : Side
  pub qty : ℕ
  pub ref_price : ℕ
  pub product : Product
  pub order_type : OrderType
  pub status : BrokerStatus
  pub filled : ℕ
  pub avg_price : ℕ
  pub polls : ℕ
  pub history : List Snapshot

unfoldable pub shot : Order → Snapshot
shot o = record {
  order_id = o.oid;
  status = o.status;
  tradingsymbol = o.symbol;
  exchange = o.exchange;
  transaction_type = o.side;
  quantity = o.qty;
  filled_quantity = o.filled;
  pending_quantity = if is_terminal o.status then 0 else o.qty - o.filled;
  average_price = round_2 o.avg_price 1;
  product = o.product;
  order_type = o.order_type;
}

-- `_snapshot`
unfoldable pub snapshot : Order → Order
snapshot o = record o { history = o.history ++ (shot o ∷ []) }

-- the fields that `_Order.__init__` sets
unfoldable pub received : ℕ → Scenario → OrderRequest → Order
received oid scenario kw = record {
  oid = oid;
  scenario = scenario;
  symbol = kw.tradingsymbol;
  exchange = or_default kw.exchange nse;
  side = kw.transaction_type;
  qty = kw.quantity;
  ref_price = or_default kw.price 0;
  product = or_default kw.product mis;
  order_type = kw.order_type;
  status = working;
  filled = 0;
  avg_price = 0;
  polls = 0;
  history = [];
}

-- `_Order.__init__`
unfoldable pub new_order : ℕ → Scenario → OrderRequest → Order
unfolding snapshot received
new_order oid scenario kw = snapshot (received oid scenario kw)

pub record MockBroker : Type 0 where
  pub default_scenario : Scenario
  pub fill_price : ℕ
  pub ids : ℕ
  pub orders : Dict Order
  pub gtt_ids : ℕ
  pub gtts : Dict OrderRequest
  pub ltp : Dict ℕ

-- `MockBroker.__init__`
unfoldable pub init : Scenario → ℕ → Option MockBroker
init default_scenario fill_price =
    if is_listed default_scenario
    then some (record {
      default_scenario = default_scenario;
      fill_price = fill_price;
      ids = 1;
      orders = [];
      gtt_ids = 1;
      gtts = [];
      ltp = [];
    })
    else none

unfoldable pub set_ltp : ℕ → ℕ → MockBroker → MockBroker
set_ltp symbol price b = record b { ltp = insert symbol price b.ltp }

-- `a or b` on numbers
abbrev pub or_nonzero : ℕ → ℕ → ℕ
or_nonzero a b = if a == 0 then b else a

-- `_px`
unfoldable pub px : MockBroker → Order → ℕ
px b o = or_nonzero o.ref_price (or_nonzero (or_default (lookup o.symbol b.ltp) 0) b.fill_price)

abbrev pub half : ℕ → ℕ
half qty = if qty == 0 then 0 else max 1 (qty / 2)

-- The assignments of `_advance`, by scenario.
unfoldable pub advance_by : Scenario → ℕ → Order → Order
advance_by completes p o = record o { status = complete; filled = o.qty; avg_price = p }
advance_by rejects p o = record o { status = rejected; filled = 0; avg_price = 0 }
advance_by no_fill p o = record o { status = working; filled = 0 }
advance_by partial_then_stuck p o = record o {
  status = working;
  filled = half o.qty;
  avg_price = p;
}
advance_by partial_then_complete p o =
    if o.polls == 1
    then record o { status = working; filled = half o.qty; avg_price = p }
    else record o { status = complete; filled = o.qty; avg_price = p }
advance_by unlisted p o = o

-- `_advance`; the price does not depend on `polls`
unfoldable pub advance : MockBroker → Order → Order
unfolding advance_by snapshot px
advance b o =
    if is_terminal o.status
    then o
    else snapshot (advance_by o.scenario (px b o) (record o { polls = o.polls + 1 }))

unfoldable pub place_order : Option Scenario → OrderRequest → MockBroker → Option (ℕ × MockBroker)
unfolding new_order
place_order scenario kw b =
    let chosen = or_default scenario b.default_scenario in
    if is_listed chosen
    then some (
      b.ids,
      record b { ids = b.ids + 1; orders = insert b.ids (new_order b.ids chosen kw) b.orders },
    )
    else none

unfoldable pub order_history : ℕ → MockBroker → Option (List Snapshot × MockBroker)
unfolding advance
order_history oid b = elim (lookup oid b.orders) [
  | none ↦ none
  | some o ↦ some ((advance b o).history, record b { orders = insert oid (advance b o) b.orders })
]

unfoldable pub cancel : Order → Order
unfolding snapshot
cancel o = if is_terminal o.status then o else snapshot (record o { status = cancelled })

unfoldable pub cancel_order : ℕ → MockBroker → Option (ℕ × MockBroker)
unfolding cancel
cancel_order oid b = elim (lookup oid b.orders) [
  | none ↦ none
  | some o ↦ some (oid, record b { orders = insert oid (cancel o) b.orders })
]

-- The outer option is `"price" in kwargs`.
unfoldable pub modify_order : ℕ → Option (Option ℕ) → MockBroker → Option (ℕ × MockBroker)
modify_order oid price b = elim (lookup oid b.orders) [
  | none ↦ none
  | some o ↦ some (
    oid,
    record b {
      orders =
          insert oid
            (record o { ref_price = elim price [ none ↦ o.ref_price | some p ↦ or_default p 0 ] })
            b.orders;
    },
  )
]

unfoldable pub place_gtt : OrderRequest → MockBroker → ℕ × MockBroker
place_gtt kw b =
    (b.gtt_ids, record b { gtt_ids = b.gtt_ids + 1; gtts = insert b.gtt_ids kw b.gtts })

unfoldable pub delete_gtt : ℕ → MockBroker → MockBroker
delete_gtt tid b = record b { gtts = erase tid b.gtts }

-- `o.filled if o.side == "BUY" else -o.filled`
unfoldable pub signed : Order → ℤ
signed o = elim o.side [ buy ↦ pos o.filled | sell ↦ pos 0 -ℤ pos o.filled ]

-- the loop of `net_quantity`
unfoldable pub net_from : ℤ → ℕ → Dict Order → ℤ
unfolding signed
net_from net symbol [] = net
net_from net symbol ((k, o) ∷ os) =
    net_from (if (o.symbol == symbol) && ltb 0 o.filled then net +ℤ signed o else net) symbol os

unfoldable pub net_quantity : ℕ → MockBroker → ℤ
unfolding net_from
net_quantity symbol b = net_from (pos 0) symbol b.orders

pub record PositionRow : Type 0 where
  pub tradingsymbol : ℕ
  pub exchange : Exchange
  pub product : Product
  pub quantity : ℤ
  pub average_price : ℕ

-- the row that `net.setdefault(o.symbol, ...)` makes
unfoldable pub fresh_row : Order → PositionRow
fresh_row o = record {
  tradingsymbol = o.symbol;
  exchange = o.exchange;
  product = o.product;
  quantity = pos 0;
  average_price = o.avg_price;
}

unfoldable pub add_fill : Order → Dict PositionRow → Dict PositionRow
unfolding signed fresh_row
add_fill o net =
    let row = or_default (lookup o.symbol net) (fresh_row o) in
    insert o.symbol (record row { quantity = row.quantity +ℤ signed o }) net

-- the loop of `positions`
unfoldable pub positions_from : Dict PositionRow → Dict Order → Dict PositionRow
unfolding add_fill
positions_from net [] = net
positions_from net ((k, o) ∷ os) =
    positions_from (if leb o.filled 0 then net else add_fill o net) os

unfoldable pub positions : MockBroker → Dict PositionRow
unfolding positions_from
positions b = positions_from [] b.orders
