-- ===== src/Execution/Structures/Unwound.antt =====
-- A structure of execution/structures.py that is rejected leaves no leg open.
use mathlib.Core.List.{Memᴰ}
use mathlib.Core.List.Memᴰ.{head, tail}
use mathlib.Core.Option.{none-ne-some}
use ai_trading_system.Base.{
  ℕ, ◌+◌, ◌≤◌, ◌<◌, ◌≡◌, refl, sym, ◌∙◌, subst, false, Option, none, some, List, [], ◌∷◌, ◌++◌,
  arith, ltb, Bool-cases, Option-cases, inl, inr, ◌⊎◌,
}
use ai_trading_system.Base.Dict.{lookup}
use ai_trading_system.Broker.{Adapter, Side, Call, returned, raised}
use ai_trading_system.Common.RuntimeMode.{load_runtime_mode, is_live_mode}
use ai_trading_system.Execution.Costs.{InstrumentType}
use ai_trading_system.Execution.Policy.{close_books_fully}
use ai_trading_system.Execution.Executor.{Setup, Position, World}
use ai_trading_system.Execution.Executor.Book.{
  is_open, is_closable, close_found, close_position, mark_close_pending, append_event,
}
use ai_trading_system.Execution.Executor.Booking.{open_position}
use ai_trading_system.Execution.Executor.Exit.{
  NormalizedFill, Prices, settle, do_live_exit, cancel_bracket, broker_net_qty, is_flat, close_live,
  close_sim, close_row, close,
}
use ai_trading_system.Execution.Executor.Closing.{IsSettled}
use ai_trading_system.Execution.Executor.Settled.{
  is_open_row, shut_row, close-keeps, close-IsSettled,
}
use ai_trading_system.Execution.Structures.{Leg, legs_from_structure, fill_based_risk}
use ai_trading_system.Execution.Structures.Opening.{
  Ask, Desk, Failure, Market, Resolved, Progress, new_leg, book_leg, filled, open_legs, close_legs,
  unwind, keep_legs, settle_legs, open_structure, no_prices, is_overrun,
}

module _ {S : Type 0} (adapter : Adapter S) (setup : Setup) where
  next_id-close_found :
      (o : Option Position) (pid price fees : ℕ) (w : World S)
      → (close_found o pid price fees w).1.next_id ≡ w.next_id
  unfolding close_found
  next_id-close_found none pid price fees w = refl
  next_id-close_found (some p) pid price fees w = elim (Bool-cases (is_closable p.status)) [
    | inl b ↦ rw b refl
    | inr b ↦ rw b refl
  ]

  next_id-settle :
      (pid : ℕ) (p : Position) (answer : Call NormalizedFill) (w : World S)
      → (settle adapter pid p answer w).1.next_id ≡ w.next_id
  unfolding settle mark_close_pending append_event close_position
  next_id-settle pid p raised w = refl
  next_id-settle pid p (returned nf) w =
      elim (Bool-cases (close_books_fully nf.status nf.filled_qty p.quantity)) [
        | inl b ↦ rw b (next_id-close_found (lookup pid w.positions) pid nf.avg_price nf.fees w)
        | inr b ↦ rw b refl
      ]

  next_id-close_live :
      (pid : ℕ) (p : Position) (w : World S)
      → (close_live adapter setup pid p w).1.next_id ≡ w.next_id
  unfolding close_live do_live_exit mark_close_pending append_event
  next_id-close_live pid p w =
      elim (Bool-cases (
        is_flat adapter
          (broker_net_qty adapter p.instrument_token (cancel_bracket adapter p w.broker)).0)) [
            | inl b ↦ rw b refl
            | inr b ↦ rw b (next_id-settle pid p _ _)
          ]

  next_id-close_row :
      (ps : Prices S) (pid : ℕ) (o : Option Position) (w : World S)
      → (close_row adapter setup ps pid o w).1.next_id ≡ w.next_id
  unfolding close_row close_sim close_position
  next_id-close_row ps pid none w = refl
  next_id-close_row ps pid (some p) w = elim (Bool-cases (is_open p.status)) [
    | inr b ↦ rw b refl
    | inl b ↦ rw b (elim (Bool-cases (is_live_mode (load_runtime_mode w.config).mode)) [
      | inl c ↦ rw c (next_id-close_live pid p w)
      | inr c ↦ rw c (next_id-close_found (lookup pid w.positions) pid _ _ _)
    ])
  ]

  next_id-close :
      (ps : Prices S) (pid : ℕ) (w : World S) → (close adapter setup ps pid w).1.next_id ≡ w.next_id
  unfolding close
  next_id-close ps pid w = next_id-close_row ps pid (lookup pid w.positions) w

below_or_last : (pid n : ℕ) → pid < n + 1 → (pid < n) ⊎ (pid ≡ n)
below_or_last pid n h = elim (Bool-cases (ltb pid n)) [
  | inl b ↦ inl (ground (arith, b))
  | inr b ↦ inr (ground (arith, b))
]

module _ {S : Type 0} (adapter : Adapter S) (setup : Setup) (m : Market S) where
  next_id-close_legs :
      (legs : List Leg) (w : World S) → (close_legs adapter setup m legs w).next_id ≡ w.next_id
  unfolding close_legs
  next_id-close_legs [] w = refl
  next_id-close_legs (leg ∷ legs) w =
      next_id-close_legs legs _
      ∙ next_id-close adapter setup (no_prices (m.quote leg.token)) leg.position_id w

  close_legs-keeps :
      (pid : ℕ) (legs : List Leg) (w : World S)
      → IsSettled adapter setup pid w
      → IsSettled adapter setup pid (close_legs adapter setup m legs w)
  unfolding close_legs
  close_legs-keeps pid [] w h = h
  close_legs-keeps pid (leg ∷ legs) w h =
      close_legs-keeps pid legs
        (close adapter setup (no_prices (m.quote leg.token)) leg.position_id w).1
        (close-keeps adapter setup pid leg.position_id (no_prices (m.quote leg.token)) w h)

  close_legs-IsSettled :
      (leg : Leg) (legs : List Leg) (w : World S)
      → Memᴰ leg legs
      → IsSettled adapter setup leg.position_id (close_legs adapter setup m legs w)
  unfolding close_legs
  close_legs-IsSettled leg [] w h = elim h [ ]
  close_legs-IsSettled leg (x ∷ legs) w (head e) =
      let w' = (close adapter setup (no_prices (m.quote x.token)) x.position_id w).1 in
      close_legs-keeps leg.position_id legs w' (
        subst (λ y. IsSettled adapter setup y.position_id w') (sym e)
          (close-IsSettled adapter setup (no_prices (m.quote x.token)) x.position_id w))
  close_legs-IsSettled leg (x ∷ legs) w (tail h) =
      close_legs-IsSettled leg legs
        (close adapter setup (no_prices (m.quote x.token)) x.position_id w).1 h

  -- every id that was given out since a start is of a leg
  abbrev Accounted : ℕ → List Leg → Desk S → Type 0
  Accounted n legs k =
      (pid : ℕ)
      → n ≤ pid
      → pid < k.world.next_id
      → (leg : Leg) × Memᴰ leg legs × (leg.position_id ≡ pid)

  mem-snoc : {x : Leg} {xs : List Leg} (y : Leg) → Memᴰ x xs → Memᴰ x (xs ++ (y ∷ []))
  mem-snoc y (head e) = head e
  mem-snoc y (tail h) = tail (mem-snoc y h)

  last-snoc : (xs : List Leg) (y : Leg) → Memᴰ y (xs ++ (y ∷ []))
  last-snoc [] y = head refl
  last-snoc (x ∷ xs) y = tail (last-snoc xs y)

  book_leg-Accounted :
      (n : ℕ) (a : Ask) (opt : InstrumentType) (side : Side) (oi : Resolved) (price : ℕ)
      (legs : List Leg) (k : Desk S)
      → Accounted n legs k
      → let (legs', k') = book_leg adapter setup m a opt side oi price (legs, k) in
        Accounted n legs' k'
  unfolding book_leg open_position
  book_leg-Accounted n a opt side oi price legs k h pid lo hi =
      let y = new_leg setup a opt side oi price k.world.next_id in
      elim (below_or_last pid k.world.next_id hi) [
        | inl old ↦ let (leg, g, e) = h pid lo old in (leg, mem-snoc y g, e)
        | inr e ↦ (y, last-snoc legs y, sym e)
      ]

  AccountedAfter : ℕ → Progress adapter setup m → Type 0
  AccountedAfter n (o, legs, k) = Accounted n legs k

  open_legs-Accounted :
      (n : ℕ) (a : Ask) (ls : List (InstrumentType × ℕ × Side)) (legs : List Leg) (k : Desk S)
      → Accounted n legs k
      → AccountedAfter n (open_legs adapter setup m a ls (legs, k))
  unfolding open_legs AccountedAfter
  open_legs-Accounted n a [] legs k h = h
  open_legs-Accounted n a ((opt, strike, side) ∷ ls) legs k h =
      elim (Option-cases (m.resolve opt strike)) [
        | inl u ↦ rw (u, open_legs) h
        | inr (oi, u) ↦ elim (Option-cases (filled adapter setup m a side oi)) [
          | inl q ↦ rw (u, open_legs) (rw q h)
          | inr (price, q) ↦
              rw (u, open_legs)
                (rw q (
                  open_legs-Accounted n a ls _ _
                    (book_leg-Accounted n a opt side oi price legs k h)))
        ]
      ]

  -- no row with an id from n on is open
  abbrev pub NoneOpen : ℕ → Desk S → Type 0
  NoneOpen n k =
      (pid : ℕ)
      → n ≤ pid
      → pid < k.world.next_id
      → is_open_row (lookup pid k.world.positions) ≡ false

  unwind-NoneOpen :
      (n : ℕ) (legs : List Leg) (k : Desk S)
      → Accounted n legs k
      → NoneOpen n (unwind adapter setup m legs k)
  unwind-NoneOpen n legs k h pid lo hi =
      let (leg, g, e) = h pid lo (subst (λ t. pid < t) (next_id-close_legs legs k.world) hi) in
      shut_row _ (
        subst (λ t. IsSettled adapter setup t (close_legs adapter setup m legs k.world)) e
          (close_legs-IsSettled leg legs k.world g))

  settle_legs-NoneOpen :
      (n : ℕ) (a : Ask) (p : Progress adapter setup m) (why : Failure)
      → AccountedAfter n p
      → (settle_legs adapter setup m a p).0 ≡ some why
      → NoneOpen n (settle_legs adapter setup m a p).1
  unfolding settle_legs keep_legs AccountedAfter
  settle_legs-NoneOpen n a (some x, legs, k) why h e = unwind-NoneOpen n legs k h
  settle_legs-NoneOpen n a (none, legs, k) why h e =
      elim (Bool-cases (is_overrun adapter setup m a (fill_based_risk a.structure.shape legs).1)) [
        | inl b ↦ rw b (unwind-NoneOpen n legs k h)
        | inr b ↦ absurd (none-ne-some why (rw b at e))
      ]

  -- A structure that is rejected, because a leg was not found or not quoted or because the fills
  -- carry too much risk, leaves none of the positions open that were opened for it.
  pub open_structure-rejected :
      (a : Ask) (k : Desk S) (why : Failure) (pid : ℕ)
      → (open_structure adapter setup m a k).0 ≡ some why
      → k.world.next_id ≤ pid
      → let k' = (open_structure adapter setup m a k).1 in
        pid < k'.world.next_id → is_open_row (lookup pid k'.world.positions) ≡ false
  unfolding open_structure
  open_structure-rejected a k why pid e lo hi =
      settle_legs-NoneOpen k.world.next_id a
        (open_legs adapter setup m a (legs_from_structure a.structure.shape) ([], k)) why
        (open_legs-Accounted k.world.next_id a (legs_from_structure a.structure.shape) [] k
          (λ i l h. absurd (omega arith)))
        e pid lo hi
