-- ===== src/Common/TickBuffer.antt =====
-- common/tick_buffer.py, over any type of ticks. Symbols are numbers. `popleft` on an empty deque
-- raises, which is `none`.
pub mod Laws
use ai_trading_system.Base.{
  ℕ, ◌+◌, Bool, Option, none, some, List, [], ◌∷◌, ◌++◌, leb, if◌then◌else◌, length,
}
use ai_trading_system.Base.Dict.{Dict, contains, insert, erase}

pub record Buffer {ℓ} (T : Type ℓ) : Type ℓ where
  pub max_symbols : ℕ
  pub latest : Dict T
  pub order : List ℕ
  pub coalesced : ℕ
  pub evicted : ℕ

module _ {ℓ} {T : Type ℓ} where
  unfoldable pub init : ℕ → Buffer T
  init max_symbols = record {
    max_symbols = max_symbols;
    latest = [];
    order = [];
    coalesced = 0;
    evicted = 0;
  }

  -- the eviction of the oldest symbol when the buffer is full
  unfoldable pub evict : Buffer T → Option (Buffer T)
  evict b =
      if leb b.max_symbols (length b.latest)
      then elim b.order [
        | [] ↦ none
        | oldest ∷ rest ↦
            some
              (record b { order = rest; latest = erase oldest b.latest; evicted = b.evicted + 1 })
      ]
      else some b

  unfoldable pub store : ℕ → T → Buffer T → Buffer T
  store symbol tick b = record b { latest = insert symbol tick b.latest }

  -- a new symbol takes its slot, once there is room
  unfoldable pub take_slot : ℕ → T → Option (Buffer T) → Option (Buffer T)
  unfolding store
  take_slot symbol tick none = none
  take_slot symbol tick (some b) =
      some (store symbol tick (record b { order = b.order ++ (symbol ∷ []) }))

  unfoldable pub put : ℕ → T → Buffer T → Option (Buffer T)
  unfolding evict store take_slot
  put symbol tick b =
      if contains symbol b.latest
      then some (store symbol tick (record b { coalesced = b.coalesced + 1 }))
      else take_slot symbol tick (evict b)

  unfoldable pub drain : Buffer T → Dict T × Buffer T
  drain b = (b.latest, record b { latest = []; order = [] })

  unfoldable pub size : Buffer T → ℕ
  size b = length b.latest
