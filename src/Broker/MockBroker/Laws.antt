-- ===== src/Broker/MockBroker/Laws.antt =====
-- The invariant of the orders of broker/mock_broker.py, under every method.
use mathlib.Core.Option.{some-injective}
use ai_trading_system.Base.{
  ℕ, ◌+◌, ◌≤◌, ◌≡◌, sym, Option, none, some, List, [], ◌∷◌, arith, get_last?, get_last?-snoc,
  Option-cases, or_default, subst, ◌==◌, Bool-cases, inl, inr,
}
use ai_trading_system.Base.Dict.{Dict, lookup, insert}
use ai_trading_system.Broker.Types.{OrderRequest, complete}
use ai_trading_system.Broker.MockBroker.{
  Scenario, completes, partial_then_complete, partial_then_stuck, rejects, no_fill, unlisted,
  is_terminal, is_listed, Order, shot, snapshot, new_order, received, MockBroker, init, set_ltp, px,
  advance_by, advance, place_order, order_history, cancel, cancel_order, modify_order, place_gtt,
  delete_gtt,
}

-- What every order satisfies between calls.
pub record IsSound (o : Order) : Type 0 where
  pub filled_le : o.filled ≤ o.qty
  pub full : o.status ≡ complete → o.filled ≡ o.qty
  pub reported : get_last? o.history ≡ some (shot o)

snapshot-IsSound :
    (o : Order) → o.filled ≤ o.qty → (o.status ≡ complete → o.filled ≡ o.qty) → IsSound (snapshot o)
unfolding snapshot shot
snapshot-IsSound o le full = record {
  filled_le = le;
  full = full;
  reported = get_last?-snoc o.history _;
}

pub new_order-IsSound : (oid : ℕ) (s : Scenario) (kw : OrderRequest) → IsSound (new_order oid s kw)
unfolding new_order received
new_order-IsSound oid s kw = snapshot-IsSound (received oid s kw) (omega arith) (λ e. cc)

advance_by-fills :
    (s : Scenario) (p : ℕ) (o : Order)
    → o.filled ≤ o.qty
    → (o.status ≡ complete → o.filled ≡ o.qty)
    → let o' = advance_by s p o in
      (o'.filled ≤ o'.qty) × (o'.status ≡ complete → o'.filled ≡ o'.qty)
unfolding advance_by
advance_by-fills completes p o le full = ground arith
advance_by-fills rejects p o le full = ground arith
advance_by-fills no_fill p o le full = ground arith
advance_by-fills partial_then_stuck p o le full = ground arith
advance_by-fills partial_then_complete p o le full = ground arith
advance_by-fills unlisted p o le full = (le, full)

pub advance-IsSound : (b : MockBroker) (o : Order) → IsSound o → IsSound (advance b o)
unfolding advance
advance-IsSound b o v = elim (Bool-cases (is_terminal o.status)) [
  | inl done ↦ rw (done, advance) v
  | inr more ↦
      rw (more, advance)
        (let polled : Order = record o { polls = o.polls + 1 } in
          let (le, full) = advance_by-fills o.scenario (px b o) polled v.filled_le v.full in
          snapshot-IsSound _ le full)
]

pub cancel-IsSound : (o : Order) → IsSound o → IsSound (cancel o)
unfolding cancel
cancel-IsSound o v = elim (Bool-cases (is_terminal o.status)) [
  | inl done ↦ rw (done, cancel) v
  | inr more ↦ rw (more, cancel) (snapshot-IsSound _ v.filled_le (λ e. cc))
]

-- Every order of the broker.
abbrev pub AllSound : Dict Order → Type 0
AllSound [] = Unit
AllSound ((k, o) ∷ os) = IsSound o × AllSound os

lookup-IsSound :
    (k : ℕ) (os : Dict Order) {o : Order} → AllSound os → lookup k os ≡ some o → IsSound o
lookup-IsSound k [] h e = cc
lookup-IsSound k ((j, o') ∷ os) (h, hs) e = elim (Bool-cases (j == k)) [
  | inl same ↦ subst IsSound (some-injective _ _ (rw same at e)) h
  | inr other ↦ lookup-IsSound k os hs (rw other at e)
]

insert-AllSound :
    (k : ℕ) (o : Order) (os : Dict Order) → IsSound o → AllSound os → AllSound (insert k o os)
insert-AllSound k o [] v h = (v, tt)
insert-AllSound k o ((j, o') ∷ os) v (h, hs) = elim (Bool-cases (j == k)) [
  | inl same ↦ rw same (v, hs)
  | inr other ↦ rw other (h, insert-AllSound k o os v hs)
]

-- One call of the broker's methods, with what it returned forgotten.
pub data Call : Type 0 where
  place : Option Scenario → OrderRequest → Call
  poll cancels : ℕ → Call
  modify : ℕ → Option (Option ℕ) → Call
  gtt : OrderRequest → Call
  drop_gtt : ℕ → Call
  quote : ℕ → ℕ → Call

abbrev after {ℓ} : {A : Type ℓ} → MockBroker → Option (A × MockBroker) → MockBroker
after b none = b
after b (some r) = r.1

-- A call that raises leaves the broker as it was.
unfoldable pub step : Call → MockBroker → MockBroker
step (place s kw) b = after b (place_order s kw b)
step (poll oid) b = after b (order_history oid b)
step (cancels oid) b = after b (cancel_order oid b)
step (modify oid p) b = after b (modify_order oid p b)
step (gtt kw) b = (place_gtt kw b).1
step (drop_gtt t) b = delete_gtt t b
step (quote s p) b = set_ltp s p b

unfoldable pub run : List Call → MockBroker → MockBroker
run [] b = b
run (c ∷ cs) b = run cs (step c b)

modify-IsSound : (p : ℕ) (o : Order) → IsSound o → IsSound (record o { ref_price = p })
unfolding shot
modify-IsSound p o v = record { filled_le = v.filled_le; full = v.full; reported = v.reported }

step-AllSound : (c : Call) (b : MockBroker) → AllSound b.orders → AllSound (step c b).orders
unfolding step place_order order_history cancel_order modify_order place_gtt delete_gtt set_ltp
step-AllSound (place s kw) b h = elim (Bool-cases (is_listed (or_default s b.default_scenario))) [
  | inl listed ↦ rw listed (insert-AllSound b.ids _ b.orders (new_order-IsSound _ _ kw) h)
  | inr unknown ↦ rw unknown h
]
step-AllSound (poll oid) b h = elim (Option-cases (lookup oid b.orders)) [
  | inl missing ↦ rw (missing, AllSound, after) h
  | inr (o, e) ↦
      rw (e, AllSound, after)
        (insert-AllSound oid _ b.orders (advance-IsSound b o (lookup-IsSound oid b.orders h e)) h)
]
step-AllSound (cancels oid) b h = elim (Option-cases (lookup oid b.orders)) [
  | inl missing ↦ rw (missing, AllSound, after) h
  | inr (o, e) ↦
      rw (e, AllSound, after)
        (insert-AllSound oid _ b.orders (cancel-IsSound o (lookup-IsSound oid b.orders h e)) h)
]
step-AllSound (modify oid p) b h = elim (Option-cases (lookup oid b.orders)) [
  | inl missing ↦ rw (missing, AllSound, after) h
  | inr (o, e) ↦
      rw (e, AllSound, after)
        (insert-AllSound oid _ b.orders (modify-IsSound _ o (lookup-IsSound oid b.orders h e)) h)
]
step-AllSound (gtt kw) b h = h
step-AllSound (drop_gtt t) b h = h
step-AllSound (quote s p) b h = h

run-AllSound : (cs : List Call) (b : MockBroker) → AllSound b.orders → AllSound (run cs b).orders
unfolding run
run-AllSound [] b h = h
run-AllSound (c ∷ cs) b h = run-AllSound cs (step c b) (step-AllSound c b h)

fresh-orders : (s : Scenario) (price : ℕ) {b : MockBroker} → init s price ≡ some b → b.orders ≡ []
unfolding init
fresh-orders s price e = ground arith

-- However a fresh broker is called, each of its orders has filled at most its quantity, exactly its
-- quantity once it is COMPLETE, and the last row of its history reports its status and its fill.
pub run-IsSound :
    (s : Scenario) (price : ℕ) (cs : List Call) {b : MockBroker} (oid : ℕ) {o : Order}
    → init s price ≡ some b
    → lookup oid (run cs b).orders ≡ some o
    → IsSound o
unfolding init
run-IsSound s price cs {b} oid {o} started found =
    lookup-IsSound oid (run cs b).orders (run-AllSound cs b (empty b started)) found
  where
    empty : (b : MockBroker) → init s price ≡ some b → AllSound b.orders
    empty b e = subst AllSound (sym (fresh-orders s price e)) tt
