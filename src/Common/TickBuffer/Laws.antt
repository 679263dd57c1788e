-- ===== src/Common/TickBuffer/Laws.antt =====
-- The bounds and the contents of common/tick_buffer.py.
use ai_trading_system.Base.{
  ℕ, suc, ◌+◌, ◌≤◌, ◌<◌, ◌≡◌, refl, sym, ◌∙◌, ap, inl, inr, true, false, Option, none, some, List,
  [], ◌∷◌, ◌++◌, arith, leb, ◌==◌, length, Bool-cases,
}
use ai_trading_system.Base.Dict.{
  Dict, lookup, contains, insert, lookup-insert, Distinct, insert-Distinct,
}
use ai_trading_system.Common.TickBuffer.{Buffer, init, evict, store, take_slot, put, size}

-- the keys of a dict, in order
abbrev pub keys {ℓ} : {T : Type ℓ} → Dict T → List ℕ
keys [] = []
keys ((k, v) ∷ d) = k ∷ keys d

==_refl : (n : ℕ) → (n == n) ≡ true
==_refl n = ground arith

module _ {ℓ} {T : Type ℓ} where
  -- The deque lists the symbols of the dict in the dict's own order, none twice, and they are at
  -- most `max_symbols`.
  pub record IsValid (b : Buffer T) : Type 0 where
    pub in_step : b.order ≡ keys b.latest
    pub distinct : Distinct b.latest
    pub bounded : length b.latest ≤ b.max_symbols

  keys-insert_old :
      (k : ℕ) (v : T) (d : Dict T)
      → contains k d ≡ true
      → (keys (insert k v d) ≡ keys d) × (length (insert k v d) ≡ length d)
  keys-insert_old k v [] h = cc
  keys-insert_old k v ((j, w) ∷ d) h = ground (arith, keys-insert_old k v d)

  keys-insert_new :
      (k : ℕ) (v : T) (d : Dict T)
      → contains k d ≡ false
      → (keys (insert k v d) ≡ keys d ++ (k ∷ [])) × (length (insert k v d) ≡ length d + 1)
  keys-insert_new k v [] h = (refl, refl)
  keys-insert_new k v ((j, w) ∷ d) h = ground (arith, keys-insert_new k v d)

  lookup-insert_self : (k : ℕ) (v : T) (d : Dict T) → lookup k (insert k v d) ≡ some v
  lookup-insert_self k v d = ground (arith, lookup-insert k k v d)

  -- a buffer whose deque lists its dict
  abbrev of_dict : ℕ → Dict T → ℕ → ℕ → Buffer T
  of_dict m d c e = record {
    max_symbols = m;
    latest = d;
    order = keys d;
    coalesced = c;
    evicted = e;
  }

  evict-of_dict :
      (m : ℕ) (d : Dict T) (c e : ℕ)
      → 0 < m
      → length d ≤ m
      → Distinct d
      → (d' : Dict T) × (e' : ℕ) × (evict (of_dict m d c e) ≡ some (of_dict m d' c e'))
        × (length d' < m)
        × Distinct d'
        × ((k : ℕ) → contains k d ≡ false → contains k d' ≡ false)
        × (length d' + e' ≡ length d + e)
  unfolding evict
  evict-of_dict m [] c e h le v = ([], e, ground arith, h, v, λ k q. q, refl)
  evict-of_dict m ((k, w) ∷ d) c e h le v = elim (Bool-cases (leb m (suc (length d)))) [
    | inl full ↦
        (d, e + 1, rw (full, ==_refl k), omega arith, v.1, λ j q. ground arith, omega arith)
    | inr room ↦ ((k, w) ∷ d, e, rw room, ground arith, v, λ j q. q, refl)
  ]

  with_order :
      (m : ℕ) (d : Dict T) (c e : ℕ) {o : List ℕ}
      → o ≡ keys d
      → some (record (of_dict m d c e) { order = o }) ≡ some (of_dict m d c e)
  with_order m d c e p = ap (λ o. some (record (of_dict m d c e) { order = o })) p

  put-of_dict :
      (symbol : ℕ) (tick : T) (m : ℕ) (d : Dict T) (c e : ℕ)
      → 0 < m
      → length d ≤ m
      → Distinct d
      → (d' : Dict T) × (c' : ℕ) × (e' : ℕ) × (put symbol tick (of_dict m d c e)
          ≡ some (of_dict m d' c' e'))
        × (length d' ≤ m)
        × Distinct d'
        × (lookup symbol d' ≡ some tick)
        × (length d' + c' + e' ≡ length d + c + e + 1)
  unfolding put store
  put-of_dict symbol tick m d c e h le v = elim (Bool-cases (contains symbol d)) [
    | inl old ↦
        let (same, len) = keys-insert_old symbol tick d old in
        (
          insert symbol tick d,
          c + 1,
          e,
          rw (old, same),
          omega arith,
          insert-Distinct symbol tick d v,
          lookup-insert_self symbol tick d,
          omega arith,
        )
    | inr new ↦
        let (d', e', ran, room, v', absent, count) = evict-of_dict m d c e h le v in
        let (same, len) = keys-insert_new symbol tick d' (absent symbol new) in
        (
          insert symbol tick d',
          c,
          e',
          rw new (
              ap (take_slot symbol tick) ran
              ∙ with_order m (insert symbol tick d') c e' (sym same)),
          omega arith,
          insert-Distinct symbol tick d' v',
          lookup-insert_self symbol tick d',
          omega arith,
        )
  ]

  eq-of_dict : (b : Buffer T) → IsValid b → b ≡ of_dict b.max_symbols b.latest b.coalesced b.evicted
  eq-of_dict b v = λ i. record b { order = v.in_step i }

  -- With room for at least one symbol a tick is always taken: the buffer stays valid and bounded,
  -- holds the tick as the latest of its symbol, and counts it, as held, as superseding another or
  -- by the symbol that was evicted for it.
  pub put_lem :
      (symbol : ℕ) (tick : T) (b : Buffer T)
      → IsValid b
      → 0 < b.max_symbols
      → (b' : Buffer T) × (put symbol tick b ≡ some b')
        × IsValid b'
        × (lookup symbol b'.latest ≡ some tick)
        × (size b' + b'.coalesced + b'.evicted ≡ size b + b.coalesced + b.evicted + 1)
        × (b'.max_symbols ≡ b.max_symbols)
  unfolding size
  put_lem symbol tick b v h =
      let (d', c', e', ran, le, v', found, count) =
        put-of_dict symbol tick b.max_symbols b.latest b.coalesced b.evicted h v.bounded
          v.distinct in
      (
        of_dict b.max_symbols d' c' e',
        ap (put symbol tick) (eq-of_dict b v) ∙ ran,
        record { in_step = refl; distinct = v'; bounded = le },
        found,
        count,
        refl,
      )

  -- what the feed does with a window of ticks
  abbrev pub put_all : List (ℕ × T) → Buffer T → Option (Buffer T)
  put_all [] b = some b
  put_all ((s, t) ∷ ticks) b = elim (put s t b) [ none ↦ none | some b' ↦ put_all ticks b' ]

  put_all-IsValid :
      (ticks : List (ℕ × T)) (b : Buffer T)
      → IsValid b
      → 0 < b.max_symbols
      → (b' : Buffer T) × (put_all ticks b ≡ some b')
        × IsValid b'
        × (size b' + b'.coalesced + b'.evicted ≡ size b + b.coalesced + b.evicted + length ticks)
        × (b'.max_symbols ≡ b.max_symbols)
  put_all-IsValid [] b v h = (b, refl, v, omega arith, refl)
  put_all-IsValid ((s, t) ∷ ticks) b v h =
      let (b', ran, v', _, count, same) = put_lem s t b v h in
      let (b'', ran', v'', count', same') = put_all-IsValid ticks b' v' (omega arith) in
      (b'', rw (ran, put_all) ran', v'', omega arith, same' ∙ same)

  -- Any burst of ticks into a fresh buffer is taken; the buffer holds at most `max_symbols` of
  -- them, and every tick of the burst is held, was superseded, or went with an evicted symbol.
  pub burst_bounded :
      (max_symbols : ℕ) (ticks : List (ℕ × T))
      → 0 < max_symbols
      → (b : Buffer T) × (put_all ticks (init max_symbols) ≡ some b)
        × (size b ≤ max_symbols)
        × (size b + b.coalesced + b.evicted ≡ length ticks)
  unfolding init size
  burst_bounded m ticks h =
      let (b, ran, v, count, same) =
        put_all-IsValid ticks (init m)
          (record { in_step = refl; distinct = tt; bounded = omega arith }) h in
      (b, ran, omega (arith, v.bounded, same), omega arith)
