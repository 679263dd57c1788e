-- ===== src/Broker/Types.antt =====
-- The vocabulary of orders that broker/base.py, common/enums.py and execution/models.py share.
-- Trading symbols, instrument tokens and order ids are only compared, so they are naturals. A
-- message of the broker is the list of its code points.
use ai_trading_system.Base.{ℕ, Bool, true, false, Option, List}
use ai_trading_system.Base.Int.{ℤ}

pub data Side : Type 0 where
  buy sell : Side

pub data Exchange : Type 0 where
  nse bse nfo bfo mcx other_exchange : Exchange

pub data Product : Type 0 where
  mis cnc nrml other_product : Product

pub data OrderType : Type 0 where
  market limit sl slm : OrderType

-- The `status` of an order; `partial` is the placeholder of the executor's poll loop.
pub data BrokerStatus : Type 0 where
  working complete rejected cancelled partial other_status : BrokerStatus

abbrev pub Message : Type 0
Message = List ℕ

pub record OrderRequest : Type 0 where
  pub exchange : Option Exchange
  pub tradingsymbol : ℕ
  pub transaction_type : Side
  pub quantity : ℕ
  pub product : Option Product
  pub order_type : OrderType
  pub price : Option ℕ

-- What the code reads of one row of `order_history`; a key may be missing or null.
pub record HistoryRow : Type 0 where
  pub status : Option BrokerStatus
  pub filled_quantity : Option ℕ
  pub average_price : Option ℕ
  pub status_message : Option Message

-- What the code reads of one row of `positions()["net"]`.
pub record NetRow : Type 0 where
  pub instrument_token : Option ℕ
  pub quantity : ℤ

-- A one-cancels-other trigger of two exit legs.
pub record OcoRequest : Type 0 where
  pub lower_trigger : ℕ
  pub upper_trigger : ℕ
  pub lower : OrderRequest
  pub upper : OrderRequest

-- A call of the adapter returns or raises.
pub data Call {ℓ} (A : Type ℓ) : Type ℓ where
  returned : A → Call A
  raised : Call A

-- The calls of `BrokerAdapter` that the executor makes, over the broker's own state.
pub record Adapter (S : Type 0) : Type 0 where
  pub place_order : OrderRequest → S → Call ℕ × S
  pub order_history : ℕ → S → Call (List HistoryRow) × S
  pub cancel_order : ℕ → S → Call (Unit {0}) × S
  pub positions : S → Call (List NetRow) × S
  pub place_oco : OcoRequest → S → Call ℕ × S
  pub delete_gtt : ℕ → S → Call (Unit {0}) × S

abbrev pub opposite : Side → Side
opposite buy = sell
opposite sell = buy

abbrev pub is_buy : Side → Bool
is_buy buy = true
is_buy sell = false
