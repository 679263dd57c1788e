-- ===== src/Execution/Executor/Flat.antt =====
-- A close of execution/executor.py, of a position that the broker no longer holds.
use ai_trading_system.Base.{
  ℕ, ◌≡◌, ◌∙◌, refl, sym, ap, subst, true, Option, none, some, List, [], ◌∷◌, All, arith, ◌==◌,
  if◌then◌else◌, or_default, Bool-cases, inl, inr,
}
use ai_trading_system.Base.Int.{pos}
use ai_trading_system.Base.Dict.{lookup}
use ai_trading_system.Broker.{NetRow, OrderRequest, Call, returned, raised, Adapter}
use ai_trading_system.Common.RuntimeMode.{load_runtime_mode, is_live_mode}
use ai_trading_system.Execution.Policy.{duplicate_exit_risk}
use ai_trading_system.Execution.Executor.{Setup, Position, World}
use ai_trading_system.Execution.Executor.Book.{
  is_open, is_closable, close_found, close_position, mark_close_pending, append_event,
}
use ai_trading_system.Execution.Executor.Exit.{
  Prices, net_qty, cancel_bracket, broker_net_qty, is_flat, close_live, close_sim, close_row, close,
}
use ai_trading_system.Execution.Executor.Sent.{
  logged_prices, quoted-log, logged, Call-cases, log_of, cancel_bracket-log, broker_net_qty-log,
}

-- The broker answers, and every row of the instrument has the quantity 0.
abbrev pub NoneHeld : ℕ → Call (List NetRow) → Type 0
NoneHeld token raised = ⊥
NoneHeld token (returned rows) =
    All (λ r. r.instrument_token ≡ some token → r.quantity ≡ pos 0) rows

net_qty-none :
    (token : ℕ) (rows : List NetRow) → NoneHeld token (returned rows) → net_qty token rows ≡ pos 0
unfolding net_qty
net_qty-none token [] h = refl
net_qty-none token (r ∷ rows) (h, hs) = at_token r.instrument_token h (net_qty-none token rows hs)
  where
    at_token :
        (o : Option ℕ)
        → (o ≡ some token → r.quantity ≡ pos 0)
        → net_qty token rows ≡ pos 0
        → elim o [
          | none ↦ net_qty token rows
          | some t ↦ let rest = net_qty token rows in if t == token then r.quantity else rest
        ]
          ≡ pos 0
    at_token none g rest = rest
    at_token (some t) g rest = elim (Bool-cases (t == token)) [
      | inl b ↦ let e : t ≡ token = ground (arith, b) in rw b (g (ap some e))
      | inr b ↦ rw b rest
    ]

module _ {S : Type 0} (adapter : Adapter S) (token : ℕ) (IsGone : S → Type 0) where
  cancel_bracket-IsGone :
      ((gtt : ℕ) (s : S) → IsGone s → IsGone (adapter.delete_gtt gtt s).1)
      → (p : Position) (s : S × List OrderRequest) → IsGone s.0
      → IsGone (cancel_bracket (logged adapter) p s).0
  unfolding cancel_bracket
  cancel_bracket-IsGone keeps p s h = elim (Bool-cases (or_default p.gtt_id 0 == 0)) [
    | inl b ↦ rw b h
    | inr b ↦ rw b (keeps (or_default p.gtt_id 0) s.0 h)
  ]

  asked-flat :
      (s : S × List OrderRequest)
      → NoneHeld token (adapter.positions s.0).0
      → is_flat (logged adapter) (broker_net_qty (logged adapter) (some token) s).0 ≡ true
  unfolding broker_net_qty duplicate_exit_risk
  asked-flat s h = elim (Call-cases (adapter.positions s.0).0) [
    | inl e ↦ absurd (subst (NoneHeld token) e h)
    | inr (rows, e) ↦
        rw (e, broker_net_qty) (rw (net_qty-none token rows (subst (NoneHeld token) e h)) refl)
  ]

  close_found-broker :
      (o : Option Position) (k price fees : ℕ) (w : World (S × List OrderRequest))
      → log_of adapter (close_found o k price fees w).1.broker ≡ log_of adapter w.broker
  unfolding close_found
  close_found-broker none k price fees w = refl
  close_found-broker (some p) k price fees w = elim (Bool-cases (is_closable p.status)) [
    | inl b ↦ rw b refl
    | inr b ↦ rw b refl
  ]

  -- At a broker that no longer holds anything of a position's instrument (its bracket has filled, or
  -- it was closed by hand), which the deletion of a trigger does not change, no close of the position
  -- sends an order, in either mode and whatever prices it is offered.
  pub flat-close :
      (setup : Setup)
      → ((gtt : ℕ) (s : S) → IsGone s → IsGone (adapter.delete_gtt gtt s).1)
      → ((s : S) → IsGone s → NoneHeld token (adapter.positions s).0)
      → (ps : Prices S) (pid : ℕ) (p : Position) (w : World (S × List OrderRequest))
      → lookup pid w.positions ≡ some p
      → p.instrument_token ≡ some token
      → IsGone w.broker.0
      → (close (logged adapter) setup (logged_prices ps) pid w).1.broker.1 ≡ w.broker.1
  unfolding close close_row close_sim close_position close_live mark_close_pending append_event
  flat-close setup keeps none_held ps pid p w found at gone =
      subst
        (λ o. (close_row (logged adapter) setup (logged_prices ps) pid o w).1.broker.1 ≡ w.broker.1)
        (sym found)
        (elim (Bool-cases (is_open p.status)) [
          | inr b ↦ rw b refl
          | inl b ↦ rw b (elim (Bool-cases (is_live_mode (load_runtime_mode w.config).mode)) [
            | inl c ↦
                let s = cancel_bracket (logged adapter) p w.broker in
                let flat =
                  asked-flat s (none_held s.0 (cancel_bracket-IsGone keeps p w.broker gone)) in
                let quiet =
                  broker_net_qty-log adapter p.instrument_token s
                  ∙ cancel_bracket-log adapter p w.broker in
                rw
                  (
                    c,
                    ap (λ o. is_flat (logged adapter) (broker_net_qty (logged adapter) o s).0) at
                        ∙ flat,
                  )
                  quiet
            | inr c ↦ rw c (
                close_found-broker (lookup pid w.positions) pid _ _ _
                ∙ quoted-log (or_default ps.price 0 == 0) ps.quote w.broker)
          ])
        ])
