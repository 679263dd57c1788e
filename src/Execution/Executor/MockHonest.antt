-- ===== src/Execution/Executor/MockHonest.antt =====
-- broker/mock_broker.py is honest in the sense of the executor's bound.
use mathlib.Core.Option.{some-injective}
use ai_trading_system.Base.{
  ℕ, ◌+◌, ◌≤◌, ◌≡◌, refl, sym, ap, ◌∙◌, subst, inl, inr, Bool, true, false, none, some, arith,
  Bool-cases, List, [], ◌∷◌, map, get_last?, ==_iff, if◌then◌else◌,
}
use ai_trading_system.Base.Dict.{lookup, insert, lookup-insert}
use ai_trading_system.Broker.{OrderRequest, returned}
use ai_trading_system.Broker.MockBroker.{
  Scenario, completes, rejects, no_fill, partial_then_stuck, partial_then_complete, unlisted,
  is_listed, is_terminal, Order, MockBroker, Snapshot, shot, snapshot, new_order, received, advance,
  advance_by, place_order, order_history, px,
}
use ai_trading_system.Broker.MockBroker.Laws.{IsSound, new_order-IsSound, advance-IsSound}
use ai_trading_system.Broker.MockBroker.AsAdapter.{to_row, to_rows, mock_adapter, to_call}
use ai_trading_system.Execution.Policy.{reduce_order_history, read_row}
use ai_trading_system.Execution.Executor.Honest.{IsHonest}

abbrev pub Knows : ℕ → ℕ → MockBroker → Type 0
Knows oid q b = (o : Order) × (lookup oid b.orders ≡ some o) × IsSound o × (o.qty ≡ q)

inserted : (oid : ℕ) (o : Order) (b : MockBroker) → lookup oid (insert oid o b.orders) ≡ some o
inserted oid o b = rw (lookup-insert oid oid o b.orders) (ground (arith, (==_iff oid oid).1 refl))

abbrev with_order : MockBroker → OrderRequest → MockBroker
with_order b r = record b {
  ids = b.ids + 1;
  orders = insert b.ids (new_order b.ids b.default_scenario r) b.orders;
}

returned-injective : {A : Type 0} {a b : A} → returned a ≡ returned b → a ≡ b
returned-injective e = cc

-- the new order is known, in the answer that was given
taken :
    (listed : Bool) (r : OrderRequest) (oid : ℕ) (b : MockBroker)
    → (to_call b (if listed then some (b.ids, with_order b r) else none)).0 ≡ returned oid
    → Knows oid r.quantity (to_call b (if listed then some (b.ids, with_order b r) else none)).1
unfolding new_order received snapshot
taken true r oid b e =
    subst (λ k. Knows k r.quantity (with_order b r)) (returned-injective e)
      (
        new_order b.ids b.default_scenario r,
        inserted b.ids (new_order b.ids b.default_scenario r) b,
        new_order-IsSound b.ids b.default_scenario r,
        refl,
      )
taken false r oid b e = ground (arith, e)

mock-takes :
    (r : OrderRequest) (oid : ℕ) (b : MockBroker)
    → (mock_adapter.place_order r b).0 ≡ returned oid
    → Knows oid r.quantity (mock_adapter.place_order r b).1
unfolding place_order
mock-takes r oid b e = taken (is_listed b.default_scenario) r oid b e

qty-advance_by : (s : Scenario) (p : ℕ) (o : Order) → (advance_by s p o).qty ≡ o.qty
unfolding advance_by
qty-advance_by completes p o = refl
qty-advance_by rejects p o = refl
qty-advance_by no_fill p o = refl
qty-advance_by partial_then_stuck p o = refl
qty-advance_by partial_then_complete p o = ground arith
qty-advance_by unlisted p o = refl

qty-advance : (b : MockBroker) (o : Order) → (advance b o).qty ≡ o.qty
unfolding advance snapshot
qty-advance b o = elim (Bool-cases (is_terminal o.status)) [
  | inl t ↦ rw t refl
  | inr t ↦ rw t (qty-advance_by o.scenario (px b o) (record o { polls = o.polls + 1 }))
]

get_last?-map :
    (xs : List Snapshot) (x : Snapshot)
    → get_last? xs ≡ some x
    → get_last? (map to_row xs) ≡ some (to_row x)
get_last?-map [] x e = ground (arith, e)
get_last?-map (y ∷ []) x e = ap (λ z. some (to_row z)) (some-injective y x e)
get_last?-map (y ∷ z ∷ xs) x e = get_last?-map (z ∷ xs) x e

polled-mock :
    (oid : ℕ) (o : Order) (b : MockBroker)
    → lookup oid b.orders ≡ some o
    → mock_adapter.order_history oid b ≡ (
      returned (map to_row (advance b o).history),
      record b { orders = insert oid (advance b o) b.orders },
    )
unfolding order_history
polled-mock oid o b found = rw (found, to_rows) refl

-- the last row of a sound order reports no more than its quantity
reported_le : (o : Order) → IsSound o → (reduce_order_history (map to_row o.history)).filled ≤ o.qty
unfolding reduce_order_history read_row shot
reported_le o v = rw (get_last?-map o.history (shot o) v.reported, reduce_order_history) v.filled_le

-- Every order of the mock broker is honest between calls.
pub mock-IsHonest : IsHonest mock_adapter Knows
mock-IsHonest = record {
  takes = mock-takes;
  keeps = λ oid q b (o, found, v, same).
      subst (λ r. Knows oid q r.1) (sym (polled-mock oid o b found))
        (advance b o, inserted oid (advance b o) b, advance-IsSound b o v, qty-advance b o ∙ same);
  reports = λ oid q b rows (o, found, v, same) e.
      subst (λ r. (reduce_order_history r).filled ≤ q)
        (returned-injective (sym (ap (λ r. r.0) (polled-mock oid o b found)) ∙ e))
        (subst (λ n. (reduce_order_history (map to_row (advance b o).history)).filled ≤ n)
          (qty-advance b o ∙ same) (reported_le (advance b o) (advance-IsSound b o v)));
}
