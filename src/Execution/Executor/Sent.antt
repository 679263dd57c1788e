-- ===== src/Execution/Executor/Sent.antt =====
-- The orders that a close of execution/executor.py sends, seen by an adapter that writes them down.
use ai_trading_system.Base.{
  Bool, true, false, if◌then◌else◌, ℕ, zero, suc, ◌≡◌, ◌⊎◌, refl, sym, subst, Option, none, some,
  List, ◌∷◌, All, ◌==◌, or_default, Bool-cases, inl, inr,
}
use ai_trading_system.Broker.{
  Side, buy, sell, opposite, Exchange, OrderRequest, Call, returned, raised, Adapter,
}
use ai_trading_system.Execution.Policy.{
  Truth, no_truth, reduce_order_history, exit_product_supported,
}
use ai_trading_system.Execution.Executor.{Setup, Position}
use ai_trading_system.Execution.Executor.Polling.{poll_from, poll_order}
use ai_trading_system.Execution.Executor.Exit.{
  Prices, row_of, exchange_of, exit_request, market_exit, cancel_bracket, broker_net_qty,
}

-- The adapter beside a log of the orders that were sent, the last first.
abbrev pub logged : {S : Type 0} → Adapter S → Adapter (S × List OrderRequest)
logged adapter = record {
  place_order = λ r (s, log). let (answer, s') = adapter.place_order r s in (answer, (s', r ∷ log));
  order_history =
      λ oid (s, log). let (answer, s') = adapter.order_history oid s in (answer, (s', log));
  cancel_order =
      λ oid (s, log). let (answer, s') = adapter.cancel_order oid s in (answer, (s', log));
  positions = λ (s, log). let (answer, s') = adapter.positions s in (answer, (s', log));
  place_oco = λ r (s, log). let (answer, s') = adapter.place_oco r s in (answer, (s', log));
  delete_gtt = λ gtt (s, log). let (answer, s') = adapter.delete_gtt gtt s in (answer, (s', log));
}

-- the call for a quote and the prices of a close, beside a log that they leave as it is
abbrev pub logged_quote :
    {S : Type 0} → (S → Option ℕ × S) → S × List OrderRequest → Option ℕ × (S × List OrderRequest)
logged_quote quote (s, log) = let (answer, s') = quote s in (answer, (s', log))

abbrev pub logged_prices : {S : Type 0} → Prices S → Prices (S × List OrderRequest)
logged_prices ps = record {
  price = ps.price;
  quote = logged_quote ps.quote;
  fallback_price = ps.fallback_price;
}

pub quoted-log :
    {S : Type 0} (b : Bool) (quote : S → Option ℕ × S) (s : S × List OrderRequest)
    → (if b then logged_quote quote s else (none, s)).1.1 ≡ s.1
quoted-log true quote s = refl
quoted-log false quote s = refl

-- One side buys what the other sells.
abbrev pub Opposed : Side → Side → Type 0
Opposed buy sell = Unit
Opposed sell buy = Unit
Opposed _ _ = ⊥

-- The order takes the whole of the position off: its instrument and quantity, on the other side.
pub record IsExit (p : Position) (r : OrderRequest) : Type 0 where
  pub opposed : Opposed p.side r.transaction_type
  pub quantity : r.quantity ≡ p.quantity
  pub tradingsymbol : r.tradingsymbol ≡ p.tradingsymbol
  pub product : r.product ≡ p.product

pub exit_request-IsExit : (e : Option Exchange) (p : Position) → IsExit p (exit_request e p)
exit_request-IsExit e p = record {
  opposed = other p.side;
  quantity = refl;
  tradingsymbol = refl;
  product = refl;
}
  where
    other : (s : Side) → Opposed s (opposite s)
    other buy = tt
    other sell = tt

pub Call-cases : {A : Type 0} (c : Call A) → (c ≡ raised) ⊎ ((a : A) × (c ≡ returned a))
Call-cases raised = inl refl
Call-cases (returned a) = inr (a, refl)

module _ {S : Type 0} (adapter : Adapter S) where
  -- the log of a broker
  abbrev pub log_of : S × List OrderRequest → List OrderRequest
  log_of s = s.1

  poll_from-log :
      (n oid : ℕ) (rec : Truth) (s : S × List OrderRequest)
      → log_of (poll_from (logged adapter) n oid rec s).1 ≡ log_of s
  unfolding poll_from
  poll_from-log zero oid rec s = refl
  poll_from-log (suc n) oid rec s = elim (Call-cases (adapter.order_history oid s.0).0) [
    | inl e ↦ rw (e, poll_from) refl
    | inr (rows, e) ↦
        rw (e, poll_from)
          (elim (Bool-cases (reduce_order_history rows).terminal) [
            | inl t ↦ rw (t, poll_from) refl
            | inr t ↦
                rw (t, poll_from)
                  (poll_from-log n oid (reduce_order_history rows)
                    ((adapter.order_history oid s.0).1, s.1))
          ])
  ]

  pub market_exit-log :
      (P : OrderRequest → Type 0) (setup : Setup) (p : Position) (s : S × List OrderRequest)
      → ((e : Option Exchange) → P (exit_request e p))
      → All P (log_of s)
      → All P (log_of (market_exit (logged adapter) setup p s).1)
  unfolding market_exit poll_order
  market_exit-log P setup p s exits h =
      let e = exchange_of p.exchange (row_of setup p.instrument_token) in
      elim (Bool-cases (exit_product_supported e p.product)) [
        | inr b ↦ rw b h
        | inl b ↦ rw b (elim (Call-cases (adapter.place_order (exit_request e p) s.0).0) [
          | inl c ↦ rw (c, log_of) (exits e, h)
          | inr (oid, c) ↦
              let s' : S × List OrderRequest =
                ((adapter.place_order (exit_request e p) s.0).1, exit_request e p ∷ s.1) in
              let same = poll_from-log 12 oid no_truth s' in
              rw (c, log_of)
                (elim (Call-cases (poll_from (logged adapter) 12 oid no_truth s').0) [
                  | inl q ↦ rw (q, log_of) (subst (All P) (sym same) (exits e, h))
                  | inr (st, q) ↦ rw (q, log_of) (subst (All P) (sym same) (exits e, h))
                ])
        ])
      ]

  pub cancel_bracket-log :
      (p : Position) (s : S × List OrderRequest)
      → log_of (cancel_bracket (logged adapter) p s) ≡ log_of s
  unfolding cancel_bracket
  cancel_bracket-log p s = elim (Bool-cases (or_default p.gtt_id 0 == 0)) [
    | inl b ↦ rw (b, log_of) refl
    | inr b ↦ rw (b, log_of) refl
  ]

  pub broker_net_qty-log :
      (token : Option ℕ) (s : S × List OrderRequest)
      → log_of (broker_net_qty (logged adapter) token s).1 ≡ log_of s
  unfolding broker_net_qty
  broker_net_qty-log none s = refl
  broker_net_qty-log (some t) s = elim (Call-cases (adapter.positions s.0).0) [
    | inl e ↦ rw (e, broker_net_qty) refl
    | inr (rows, e) ↦ rw (e, broker_net_qty) refl
  ]
