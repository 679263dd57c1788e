-- ===== src/Execution/Executor/Polling.antt =====
-- Polling and cancelling of execution/executor.py: `_poll_order`, `_cancel_and_confirm` and
-- `_transient`. The number of attempts is the source's, so it is no bound of the model.
use ai_trading_system.Base.{
  ℕ, zero, suc, Bool, true, false, ◌&&◌, ◌||◌, Option, none, some, List, [], ◌∷◌, leb, ◌+◌, ◌==◌,
  if◌then◌else◌, get_last?,
}
use ai_trading_system.Broker.{
  BrokerStatus, partial, Message, HistoryRow, Call, returned, raised, Adapter,
}
use ai_trading_system.Execution.Policy.{Truth, no_truth, is_final, reduce_order_history}

-- What `_poll_order` answers.
pub record Polled : Type 0 where
  pub status : Option BrokerStatus
  pub filled : ℕ
  pub avg_price : ℕ
  pub reason : Option Message

-- "poll timeout"
abbrev pub poll_timeout : Message
poll_timeout = 112 ∷ 111 ∷ 108 ∷ 108 ∷ 32 ∷ 116 ∷ 105 ∷ 109 ∷ 101 ∷ 111 ∷ 117 ∷ 116 ∷ []

abbrev pub answered : Truth → Polled
answered t = record {
  status = t.status;
  filled = t.filled;
  avg_price = t.avg_price;
  reason = t.reason;
}

abbrev pub timed_out : Truth → Polled
timed_out t = record {
  status = some partial;
  filled = t.filled;
  avg_price = t.avg_price;
  reason = some poll_timeout;
}

module _ {S : Type 0} (adapter : Adapter S) where
  -- the loop of `_poll_order`, with what the poll before said
  unfoldable pub poll_from : ℕ → ℕ → Truth → S → Call Polled × S
  poll_from zero oid rec s = (returned (timed_out rec), s)
  poll_from (suc n) oid rec s =
      let (answer, s') = adapter.order_history oid s in
      elim answer [
        | raised ↦ (raised, s')
        | returned rows ↦ elim ((reduce_order_history rows).terminal) [
          | true ↦ (returned (answered (reduce_order_history rows)), s')
          | false ↦ poll_from n oid (reduce_order_history rows) s'
        ]
      ]

  unfoldable pub poll_order : ℕ → ℕ → S → Call Polled × S
  unfolding poll_from
  poll_order attempts oid s = poll_from attempts oid no_truth s

  -- the status that the last row of a history shows
  unfoldable pub last_status : List HistoryRow → Option BrokerStatus
  last_status rows = elim (get_last? rows) [ none ↦ none | some row ↦ row.status ]

  -- the confirming polls of `_cancel_and_confirm`; one that raises is only logged
  unfoldable pub confirm : ℕ → ℕ → S → Bool × S
  unfolding last_status
  confirm zero oid s = (false, s)
  confirm (suc n) oid s =
      let (answer, s') = adapter.order_history oid s in
      elim answer [
        | raised ↦ confirm n oid s'
        | returned rows ↦ elim (is_final (last_status rows)) [
          | true ↦ (true, s')
          | false ↦ confirm n oid s'
        ]
      ]

  -- `_cancel_and_confirm`; a cancel that raises is only logged
  unfoldable pub cancel_and_confirm : ℕ → ℕ → S → Bool × S
  unfolding confirm
  cancel_and_confirm attempts oid s = confirm attempts oid ((adapter.cancel_order oid s).1)

abbrev pub lower : ℕ → ℕ
lower c = if leb 65 c && leb c 90 then c + 32 else c

-- does the lower-cased text begin with the word?
abbrev pub begins_with : Message → Message → Bool
begins_with [] text = true
begins_with (w ∷ ws) [] = false
begins_with (w ∷ ws) (c ∷ cs) = (lower c == w) && begins_with ws cs

abbrev pub contains_word : Message → Message → Bool
contains_word word [] = begins_with word []
contains_word word (c ∷ cs) = begins_with word (c ∷ cs) || contains_word word cs

-- "network", "timeout", "timed out", "try again", "connection"
abbrev pub transient_words : List Message
transient_words =
    (110 ∷ 101 ∷ 116 ∷ 119 ∷ 111 ∷ 114 ∷ 107 ∷ [])
    ∷ (116 ∷ 105 ∷ 109 ∷ 101 ∷ 111 ∷ 117 ∷ 116 ∷ [])
    ∷ (116 ∷ 105 ∷ 109 ∷ 101 ∷ 100 ∷ 32 ∷ 111 ∷ 117 ∷ 116 ∷ [])
    ∷ (116 ∷ 114 ∷ 121 ∷ 32 ∷ 97 ∷ 103 ∷ 97 ∷ 105 ∷ 110 ∷ [])
    ∷ (99 ∷ 111 ∷ 110 ∷ 110 ∷ 101 ∷ 99 ∷ 116 ∷ 105 ∷ 111 ∷ 110 ∷ [])
    ∷ []

abbrev pub any_word : List Message → Message → Bool
any_word [] text = false
any_word (w ∷ ws) text = contains_word w text || any_word ws text

-- Only the letters of ASCII are lowered, which is what the words are made of.
unfoldable pub transient : Option Message → Bool
transient none = false
transient (some reason) = any_word transient_words reason
