-- ===== src/Execution/Executor/Clips.antt =====
-- The loop of `_execute_live` of execution/executor.py over the clips of an order.
use ai_trading_system.Base.{
  ℕ, ◌+◌, ◌*◌, Bool, true, false, not, ◌&&◌, Option, none, some, List, [], ◌∷◌, ◌++◌, ltb,
  if◌then◌else◌,
}
use ai_trading_system.Broker.{
  BrokerStatus, complete, rejected, limit, OrderRequest, Call, returned, raised, Adapter,
}
use ai_trading_system.Execution.Executor.{Decision}
use ai_trading_system.Execution.Executor.Polling.{Polled, poll_order, cancel_and_confirm, transient}

-- What the loop over the clips has so far.
pub record Progress : Type 0 where
  pub filled : ℕ
  pub notional : ℕ
  pub order_ids : List ℕ
  pub remainder_dealt_with : Bool

abbrev pub no_progress : Progress
no_progress = record { filled = 0; notional = 0; order_ids = []; remainder_dealt_with = true }

-- After a clip the loop goes on, or breaks.
pub data Step : Type 0 where
  proceed halt : Progress → Step

abbrev pub placed : ℕ → Progress → Progress
placed oid p = record p { order_ids = p.order_ids ++ (oid ∷ []) }

abbrev pub counted : Polled → Progress → Progress
counted st p = record p {
  filled = p.filled + st.filled;
  notional = p.notional + st.filled * st.avg_price;
}

abbrev pub undealt : Progress → Progress
undealt p = record p { remainder_dealt_with = false }

abbrev pub is_status_complete : Option BrokerStatus → Bool
is_status_complete (some complete) = true
is_status_complete _ = false

abbrev pub is_status_rejected : Option BrokerStatus → Bool
is_status_rejected (some rejected) = true
is_status_rejected _ = false

abbrev pub entry_request : Decision → ℕ → OrderRequest
entry_request d clip = record {
  exchange = d.exchange;
  tradingsymbol = d.tradingsymbol;
  transaction_type = d.side;
  quantity = clip;
  product = d.product;
  order_type = d.order_type;
  price = elim d.order_type [ limit ↦ some d.entry_price | _ ↦ none ];
}

module _ {S : Type 0} (adapter : Adapter S) where
  -- the part of the loop's body after a poll that returned
  unfoldable pub after_poll : ℕ → ℕ → Polled → Progress → S → Step × S
  after_poll clip oid st p s =
      if is_status_complete st.status
      then (proceed p, s)
      else if is_status_rejected st.status && not (transient st.reason)
      then (halt p, s)
      else if ltb st.filled clip
      then (
        halt (record p {
          remainder_dealt_with = p.remainder_dealt_with && (cancel_and_confirm adapter 8 oid s).0;
        }),
        (cancel_and_confirm adapter 8 oid s).1,
      )
      else (halt p, s)

  -- the part of the body after the poll
  unfoldable pub after_answer : ℕ → ℕ → Progress → Call Polled × S → Step × S
  unfolding after_poll
  after_answer clip oid p (raised, s) = (halt (undealt p), s)
  after_answer clip oid p (returned st, s) = after_poll clip oid st (counted st p) s

  -- the part after an order was placed
  unfoldable pub after_place : ℕ → ℕ → Progress → S → Step × S
  unfolding after_answer
  after_place clip oid p s = after_answer clip oid p (poll_order adapter 12 oid s)

  -- the loop's body
  unfoldable pub send_clip : Decision → ℕ → Progress → S → Step × S
  unfolding after_place
  send_clip d clip p s =
      let (answer, s') = adapter.place_order (entry_request d clip) s in
      elim answer [
        | raised ↦ (halt (undealt p), s')
        | returned oid ↦ after_place clip oid (placed oid p) s'
      ]

  -- `break` and the next turn of the loop
  unfoldable pub resume : (Progress → S → Progress × S) → Step × S → Progress × S
  resume loop (halt p, s) = (p, s)
  resume loop (proceed p, s) = loop p s

  unfoldable pub send_clips : Decision → List ℕ → Progress → S → Progress × S
  unfolding resume send_clip
  send_clips d [] p s = (p, s)
  send_clips d (clip ∷ clips) p s = resume (send_clips d clips) (send_clip d clip p s)
