-- ===== src/Execution/Executor/Honest.antt =====
-- The quantity that an entry of execution/executor.py fills, at a broker that reports no order as
-- filled beyond its quantity.
use ai_trading_system.Base.{
  ℕ, zero, suc, ◌+◌, ◌≤◌, ◌≡◌, refl, ◌⊎◌, inl, inr, Bool, true, false, not, ◌&&◌, arith, ltb,
  if◌then◌else◌, Bool-cases, List, [], ◌∷◌, sum,
}
use ai_trading_system.Broker.{Call, returned, raised, HistoryRow, OrderRequest, Adapter}
use ai_trading_system.Execution.Policy.{Truth, no_truth, reduce_order_history}
use ai_trading_system.Execution.Executor.{Decision, Setup, freeze_limit}
use ai_trading_system.Execution.Executor.Slices.{slice, sum-slice}
use ai_trading_system.Execution.Executor.Polling.{Polled, poll_from, poll_order, transient}
use ai_trading_system.Execution.Executor.Clips.{
  Progress, no_progress, Step, proceed, halt, placed, counted, is_status_complete,
  is_status_rejected, entry_request, after_poll, after_answer, after_place, send_clip, resume,
  send_clips,
}

-- The broker keeps the quantity of an order that it took, and its history reports no more of it as
-- filled. `Knows oid q s` says that the broker's state `s` has the order `oid`, of quantity `q`.
pub record IsHonest {S : Type 0} (adapter : Adapter S) (Knows : ℕ → ℕ → S → Type 0) : Type 0 where
  pub takes :
      (r : OrderRequest) (oid : ℕ) (s : S)
      → (adapter.place_order r s).0 ≡ returned oid
      → Knows oid r.quantity (adapter.place_order r s).1
  pub keeps : (oid q : ℕ) (s : S) → Knows oid q s → Knows oid q (adapter.order_history oid s).1
  pub reports :
      (oid q : ℕ) (s : S) (rows : List HistoryRow)
      → Knows oid q s
      → (adapter.order_history oid s).0 ≡ returned rows
      → (reduce_order_history rows).filled ≤ q

Call-cases : {A : Type 0} (c : Call A) → (c ≡ raised) ⊎ ((a : A) × (c ≡ returned a))
Call-cases raised = inl refl
Call-cases (returned a) = inr (a, refl)

-- what a poll answers counts at most `q`
abbrev AtMost : ℕ → Call Polled → Type 0
AtMost q raised = Unit
AtMost q (returned st) = st.filled ≤ q

abbrev StepAtMost : ℕ → Step → Type 0
StepAtMost n (proceed p) = p.filled ≤ n
StepAtMost n (halt p) = p.filled ≤ n

module _ {S : Type 0} (adapter : Adapter S) (Knows : ℕ → ℕ → S → Type 0)
    (honest : IsHonest adapter Knows) where
  poll_from-AtMost :
      (n oid q : ℕ) (rec : Truth) (s : S)
      → Knows oid q s
      → rec.filled ≤ q
      → AtMost q (poll_from adapter n oid rec s).0
  unfolding poll_from
  poll_from-AtMost zero oid q rec s k h = h
  poll_from-AtMost (suc n) oid q rec s k h = elim (Call-cases (adapter.order_history oid s).0) [
    | inl e ↦ rw (e, AtMost) tt
    | inr (rows, e) ↦
        rw (e, AtMost)
          (elim (Bool-cases (reduce_order_history rows).terminal) [
            | inl t ↦ rw (t, AtMost) (honest.reports oid q s rows k e)
            | inr t ↦
                rw (t, AtMost)
                  (poll_from-AtMost n oid q (reduce_order_history rows)
                    (adapter.order_history oid s).1 (honest.keeps oid q s k)
                    (honest.reports oid q s rows k e))
          ])
  ]

  step_if :
      (b : Bool) (n : ℕ) (x y : Step × S)
      → StepAtMost n x.0
      → StepAtMost n y.0
      → StepAtMost n (if b then x else y).0
  step_if true n x y hx hy = hx
  step_if false n x y hx hy = hy

  after_poll-StepAtMost :
      (clip oid n : ℕ) (st : Polled) (p : Progress) (s : S)
      → p.filled ≤ n
      → StepAtMost n (after_poll adapter clip oid st p s).0
  unfolding after_poll
  after_poll-StepAtMost clip oid n st p s h =
      step_if (is_status_complete st.status) n (proceed p, s) _ h
        (step_if (is_status_rejected st.status && not (transient st.reason)) n (halt p, s) _ h
          (step_if (ltb st.filled clip) n _ (halt p, s) h h))

  -- one clip, once its order was placed
  after_answer-StepAtMost :
      (clip oid : ℕ) (answer : Call Polled × S) (p : Progress)
      → AtMost clip answer.0
      → StepAtMost (p.filled + clip) (after_answer adapter clip oid p answer).0
  unfolding after_answer
  after_answer-StepAtMost clip oid (raised, s) p h = omega arith
  after_answer-StepAtMost clip oid (returned st, s) p h =
      after_poll-StepAtMost clip oid (p.filled + clip) st (counted st p) s (omega arith)

  send_clip-StepAtMost :
      (d : Decision) (clip : ℕ) (p : Progress) (s : S)
      → StepAtMost (p.filled + clip) (send_clip adapter d clip p s).0
  unfolding send_clip after_place poll_order
  send_clip-StepAtMost d clip p s =
      elim (Call-cases (adapter.place_order (entry_request d clip) s).0) [
        | inl e ↦ rw (e, StepAtMost) (omega arith)
        | inr (oid, e) ↦
            rw (e, StepAtMost)
              (after_answer-StepAtMost clip oid _ (placed oid p) (
                poll_from-AtMost 12 oid clip no_truth _
                  (honest.takes (entry_request d clip) oid s e) (omega arith)))
      ]

  resume-bounded :
      (loop : Progress → S → Progress × S) (n m : ℕ) (t : Step × S)
      → ((p : Progress) (s : S) → (loop p s).0.filled ≤ p.filled + m)
      → StepAtMost n t.0
      → (resume adapter loop t).0.filled ≤ n + m
  unfolding resume
  resume-bounded loop n m (proceed p, s) later h = omega (arith, later p s)
  resume-bounded loop n m (halt p, s) later h = omega arith

  send_clips-bounded :
      (d : Decision) (clips : List ℕ) (p : Progress) (s : S)
      → (send_clips adapter d clips p s).0.filled ≤ p.filled + sum clips
  unfolding send_clips
  send_clips-bounded d [] p s = omega arith
  send_clips-bounded d (clip ∷ clips) p s = omega (
    arith,
    resume-bounded (send_clips adapter d clips) (p.filled + clip) (sum clips)
        (send_clip adapter d clip p s) (send_clips-bounded d clips)
        (send_clip-StepAtMost d clip p s),
  )

  -- The clips of a live entry fill at most the decision's quantity, at a broker that is honest
  -- about the orders it takes.
  pub entry-bounded :
      (setup : Setup) (d : Decision) (s : S)
      → (send_clips adapter d (slice d.quantity (freeze_limit setup)) no_progress s).0.filled
        ≤ d.quantity
  entry-bounded setup d s = omega (
    arith,
    send_clips-bounded d (slice d.quantity (freeze_limit setup)) no_progress s,
    sum-slice d.quantity (freeze_limit setup),
  )
