-- ===== src/Broker/MockBroker/Outcomes.antt =====
-- What the scenarios of broker/mock_broker.py come to, and what cancelling does.
use ai_trading_system.Base.{
  ℕ, zero, suc, ◌≡◌, refl, sym, ◌⊎◌, Bool, true, false, arith, ap, subst, ◌∙◌, inl, inr,
}
use ai_trading_system.Broker.Types.{OrderRequest, BrokerStatus, working, complete, rejected}
use ai_trading_system.Broker.MockBroker.{
  Scenario, completes, partial_then_complete, partial_then_stuck, rejects, no_fill, unlisted,
  is_terminal, Order, half, new_order, received, MockBroker, advance, cancel,
}

-- A finished order never changes again: polling and cancelling both leave it as it is.
pub terminal_absorbs :
    (b : MockBroker) (o : Order) → is_terminal o.status ≡ true → (advance b o ≡ o) × (cancel o ≡ o)
unfolding advance cancel
terminal_absorbs b o h = (rw h, rw h)

abbrev pub polled : ℕ → MockBroker → Order → Order
polled zero b o = o
polled (suc n) b o = polled n b (advance b o)

polled-terminal :
    (n : ℕ) (b : MockBroker) (o : Order) → is_terminal o.status ≡ true → polled n b o ≡ o
polled-terminal zero b o h = refl
polled-terminal (suc n) b o h = rw (terminal_absorbs b o h).0 (polled-terminal n b o h)

-- What a fresh order has come to from the second poll on, by its scenario: its status and its
-- filled quantity.
abbrev pub outcome : Scenario → ℕ → BrokerStatus × ℕ
outcome completes q = (complete, q)
outcome partial_then_complete q = (complete, q)
outcome partial_then_stuck q = (working, half q)
outcome rejects q = (rejected, 0)
outcome no_fill q = (working, 0)
outcome unlisted q = (working, 0)

abbrev pub is_idle : Scenario → Bool
is_idle completes = false
is_idle partial_then_complete = false
is_idle rejects = false
is_idle _ = true

abbrev At : Scenario → ℕ → Order → Type 0
At s q o =
    (o.scenario ≡ s) × (o.qty ≡ q) × (o.status ≡ (outcome s q).0) × (o.filled ≡ (outcome s q).1)

idle-advance :
    (s : Scenario) (b : MockBroker) (o : Order)
    → is_idle s ≡ true
    → o.scenario ≡ s
    → o.status ≡ working
    → o.filled ≡ 0 ⊎ (o.filled ≡ (outcome s o.qty).1)
    → At s o.qty (advance b o)
unfolding advance
idle-advance completes b o i e w f = cc
idle-advance partial_then_complete b o i e w f = cc
idle-advance rejects b o i e w f = cc
idle-advance partial_then_stuck b o i e w f = ground arith
idle-advance no_fill b o i e w f = ground arith
idle-advance unlisted b o i e w f = ground arith

idle-working : (s : Scenario) (q : ℕ) → is_idle s ≡ true → (outcome s q).0 ≡ working
idle-working completes q i = cc
idle-working partial_then_complete q i = cc
idle-working rejects q i = cc
idle-working _ q i = refl

idle-polled :
    (n : ℕ) (s : Scenario) (q : ℕ) (b : MockBroker) (o : Order)
    → is_idle s ≡ true
    → At s q o
    → At s q (polled n b o)
idle-polled zero s q b o i a = a
idle-polled (suc n) s q b o i (e, eq, w, f) = idle-polled n s q b (advance b o) i (
    subst (λ k. At s k (advance b o)) eq
      (idle-advance s b o i e (w ∙ idle-working s q i)
        (inr (f ∙ ap (λ k. (outcome s k).1) (sym eq)))))

finished-polled :
    (n : ℕ) (b : MockBroker) (o : Order)
    → is_terminal o.status ≡ true
    → ((polled n b o).status ≡ o.status) × ((polled n b o).filled ≡ o.filled)
finished-polled n b o h =
    (ap (λ o'. o'.status) (polled-terminal n b o h), ap (λ o'. o'.filled) (polled-terminal n b o h))

idle-placed :
    (n : ℕ) (s : Scenario) (b : MockBroker) (oid : ℕ) (kw : OrderRequest)
    → is_idle s ≡ true
    → At s kw.quantity (polled (suc n) b (new_order oid s kw))
unfolding new_order received
idle-placed n s b oid kw i =
    idle-polled n s kw.quantity b (advance b (new_order oid s kw)) i
      (idle-advance s b (new_order oid s kw) i refl refl (inl refl))

-- From the second poll on, an order that was just placed stands at its scenario's outcome, however
-- often it is polled: in full for `complete` and `partial_then_complete`, at half for
-- `partial_then_stuck`, at nothing for the others.
pub polled-outcome :
    (n : ℕ) (s : Scenario) (b : MockBroker) (oid : ℕ) (kw : OrderRequest)
    → let o = polled (suc (suc n)) b (new_order oid s kw) in
      (o.status ≡ (outcome s kw.quantity).0) × (o.filled ≡ (outcome s kw.quantity).1)
unfolding new_order received advance
polled-outcome n completes b oid kw =
    finished-polled (suc n) b (advance b (new_order oid completes kw)) refl
polled-outcome n partial_then_complete b oid kw =
    finished-polled n b (advance b (advance b (new_order oid partial_then_complete kw))) refl
polled-outcome n rejects b oid kw =
    finished-polled (suc n) b (advance b (new_order oid rejects kw)) refl
polled-outcome n partial_then_stuck b oid kw =
    let a = idle-placed (suc n) partial_then_stuck b oid kw refl in (a.2, a.3)
polled-outcome n no_fill b oid kw = let a = idle-placed (suc n) no_fill b oid kw refl in (a.2, a.3)
polled-outcome n unlisted b oid kw =
    let a = idle-placed (suc n) unlisted b oid kw refl in (a.2, a.3)

-- Cancelling a working order ends it, and keeps what was filled.
pub cancel-ends :
    (o : Order) → is_terminal (cancel o).status ≡ true × ((cancel o).filled ≡ o.filled)
unfolding cancel
cancel-ends o = ground arith
