-- ===== src/Engine/Orchestrator/Bounds.antt =====
-- What an order of engine/orchestrator.py leaves of the budgets of the risk engine.
use native.Mathlib.Nat.{mul-le-mul_right, mul-le-mul_left}
use ai_trading_system.Base.{
  ℕ, ◌*◌, ◌≤◌, ◌<◌, ◌≡◌, refl, sym, ap, ◌∙◌, subst, ◌≢◌, inl, inr, Bool, true, false, not, ◌&&◌,
  ◌||◌, Option, none, some, arith, ltb, ltb→lt, ◌==◌, Bool-cases, if◌then◌else◌,
}
use ai_trading_system.Broker.{Adapter}
use ai_trading_system.Execution.Costs.{Sleeve, segment_key, round_trip_cost}
use ai_trading_system.Execution.Executor.{Decision, Setup}
use ai_trading_system.Execution.Executor.Entry.{EntryResult, execute}
use ai_trading_system.Execution.Executor.Honest.{IsHonest}
use ai_trading_system.Execution.Executor.Bounded.{execute-bounded}
use ai_trading_system.Execution.Structures.Opening.{Ask, Market, Desk as Holdings}
use ai_trading_system.Risk.Sizing.{Sized, SizingResult, accept, reject, floor_to_lot, distance}
use ai_trading_system.Risk.Sizing.Floor.{floor-fits}
use ai_trading_system.Risk.Engine.{Desk, funds}
use ai_trading_system.Risk.Engine.Ask.{Verdict, blocked, asked}
use ai_trading_system.Risk.Engine.Gates.{IsReady}
use ai_trading_system.Risk.Engine.Budgets.{WithinPct, StaysWithin, size-StaysWithin}
use ai_trading_system.Engine.Orchestrator.{
  Signal, Skip, Stage, leave, go, and_then, Idea, Chain, admitted, sized, unvetoed, lot_or_1,
  downsized, edge, decision_of, plan_from, plan, plan_structure, Result, ordered, place_order,
  place_structure, evaluate, is_fno, cost_edge,
}

-- a chain that goes through has gone through its first step
pub and_then-go {ℓ κ} :
    {A : Type ℓ} {B : Type κ} (s : Stage A) (f : A → Stage B) (b : B)
    → and_then s f ≡ go b
    → (a : A) × (s ≡ go a) × (f a ≡ go b)
and_then-go (leave why) f b e = ground (arith, e)
and_then-go (go a) f b e = (a, refl, e)

pub go-injective {ℓ} : {A : Type ℓ} {a b : A} → go a ≡ go b → a ≡ b
go-injective e = cc

sized-go : (v : Verdict SizingResult) (s : Sized) → sized v ≡ go s → v ≡ asked (accept s)
sized-go (blocked why) s e = ground (arith, e)
sized-go (asked (reject why)) s e = ground (arith, e)
sized-go (asked (accept t)) s e = ap (λ x. asked (accept x)) (go-injective e)

pub WithinPct-mono :
    (pct : Option ℕ) (capital m n : ℕ) → m ≤ n → WithinPct pct capital n → WithinPct pct capital m
WithinPct-mono none capital m n h w = tt
WithinPct-mono (some pct) capital m n h w = omega (arith, h, w)

-- a smaller order keeps every budget that a greater one keeps
pub StaysWithin-mono :
    (k : Desk) (sleeve : Sleeve) (entry exit_at m n : ℕ)
    → m ≤ n
    → StaysWithin k sleeve entry exit_at n
    → StaysWithin k sleeve entry exit_at m
StaysWithin-mono k sleeve entry exit_at m n h w = record {
  sleeve_capital =
      WithinPct-mono (k.risk.sleeve_cap_pct sleeve) (funds k) _ _
        (omega (arith, mul-le-mul_right entry h)) w.sleeve_capital;
  open_risk =
      WithinPct-mono (some k.risk.portfolio_risk_limit_pct) (funds k) _ _
        (omega (arith, mul-le-mul_right (distance entry exit_at) h)) w.open_risk;
}

-- the language model only shrinks
downsized-le : (qty lot d n : ℕ) → downsized qty lot d ≡ go n → n ≤ qty
unfolding downsized
downsized-le qty lot d n e = elim (Bool-cases (ltb d 10_000)) [
  | inl small ↦ elim (Bool-cases (ltb (floor_to_lot (qty * d) 10_000 lot) lot)) [
    | inl below ↦ ground (arith, e, small, below)
    | inr above ↦
        let same : n ≡ floor_to_lot (qty * d) 10_000 lot = ground (arith, e, small, above) in
        let fits = floor-fits (qty * d) 10_000 lot in
        omega (arith, same, fits, mul-le-mul_left qty (ltb→lt d 10_000 small))
  ]
  | inr whole ↦ ground (arith, e, whole)
]

if-go {ℓ} :
    {A : Type ℓ} (b : Bool) (why : Skip) (x n : A)
    → (if b then leave why else go x) ≡ go n
    → (b ≡ false) × (n ≡ x)
if-go true why x n e = ground (arith, e)
if-go false why x n e = (refl, sym (go-injective e))

-- Where a fraction is configured and the decision has a target, the costs of the round trip are at
-- most the fraction of a reward that is not 0.
abbrev pub IsWorth : Chain → Setup → Idea → Decision → Type 0
IsWorth chain setup i d =
    let reward = distance d.target_price d.entry_price * d.quantity in
    let segment = segment_key i.sleeve i.listing.instrument_type in
    0 < chain.cost_edge_max_fraction
    → 0 < d.target_price
    → (0 < reward)
      × (round_trip_cost setup.cost_model segment d.quantity d.entry_price d.target_price * 10_000
          ≤ reward * chain.cost_edge_max_fraction)

worth_of :
    (fraction target reward most costs : ℕ)
    → (not (fraction == 0) && not (target == 0) && ((reward == 0) || ltb most costs)) ≡ false
    → 0 < fraction
    → 0 < target
    → (0 < reward) × (costs ≤ most)
worth_of fraction target reward most costs h f t = ground arith

edge-go :
    (chain : Chain) (setup : Setup) (i : Idea) (signal : Signal) (qty n : ℕ)
    → edge chain setup i signal qty ≡ go n
    → (n ≡ qty) × IsWorth chain setup i (decision_of i signal qty)
unfolding edge decision_of
edge-go chain setup i signal qty n e =
    let (silent, same) = if-go _ cost_edge qty n e in
    (same, λ f t. worth_of chain.cost_edge_max_fraction signal.target _ _ _ silent f t)

pub unvetoed-go : (i : Idea) (d : ℕ) → unvetoed i.opinion ≡ go d → i.opinion.veto ≡ false
unvetoed-go i d e = ground (arith, e)

-- an order that is planned
pub record IsPlanned (chain : Chain) (setup : Setup) (k : Desk) (i : Idea) (d : Decision)
    : Type 0 where
  pub ready : IsReady k i.sleeve
  pub within : StaysWithin k i.sleeve d.entry_price d.stop_price d.quantity
  pub worth : IsWorth chain setup i d
  pub not_vetoed : i.opinion.veto ≡ false

plan_from-IsPlanned :
    (chain : Chain) (setup : Setup) (k : Desk) (i : Idea) (signal : Signal) (confidence : ℕ)
    (d : Decision) (r : ℕ)
    → plan_from chain setup k i signal confidence ≡ go (d, r)
    → IsPlanned chain setup k i d
unfolding plan_from decision_of
plan_from-IsPlanned chain setup k i signal confidence d r e =
    let (s, e1, f1) = and_then-go _ _ (d, r) e in
    let (downsize, e2, f2) = and_then-go _ _ (d, r) f1 in
    let (n, e3, f3) = and_then-go _ _ (d, r) f2 in
    let (qty, e4, f4) = and_then-go _ _ (d, r) f3 in
    let (ready, within) =
      size-StaysWithin i.margin k signal.entry signal.stop i.listing i.sleeve confidence signal.side
        s (sized-go _ s e1) in
    let less = downsized-le s.quantity (lot_or_1 s.lot_size) downsize n e3 in
    let (same, worth) = edge-go chain setup i signal n qty e4 in
    subst (λ (p : Decision × ℕ). IsPlanned chain setup k i p.0) (go-injective f4)
      (record {
        ready = ready;
        within =
            StaysWithin-mono k i.sleeve signal.entry signal.stop qty s.quantity
              (omega (arith, same, less)) within;
        worth = subst (λ m. IsWorth chain setup i (decision_of i signal m)) (sym same) worth;
        not_vetoed = unvetoed-go i downsize e2;
      })

plan-IsPlanned :
    (chain : Chain) (setup : Setup) (k : Desk) (i : Idea) (d : Decision) (r : ℕ)
    → plan chain setup k i ≡ go (d, r)
    → IsPlanned chain setup k i d
unfolding plan
plan-IsPlanned chain setup k i d r e =
    let ((signal, confidence), _, f) =
      and_then-go (admitted chain i i.pipeline)
        (λ (a : Signal × ℕ). plan_from chain setup k i a.0 a.1) (d, r) e in
    plan_from-IsPlanned chain setup k i signal confidence d r f

ordered-injective :
    {d d' : Decision} {r r' : ℕ} {e e' : EntryResult}
    → ordered d r e ≡ ordered d' r' e'
    → (d ≡ d') × (r ≡ r') × (e ≡ e')
ordered-injective q = (cc, cc, cc)

module _ {S : Type 0} (adapter : Adapter S) (setup : Setup) (m : Market S) where
  place_structure-not_ordered :
      (ask : Ask) (i : Idea) (p : Stage (Signal × ℕ)) (h : Holdings S) (d : Decision) (r : ℕ)
      (e : EntryResult)
      → (place_structure adapter setup m ask i p h).0 ≢ ordered d r e
  unfolding place_structure
  place_structure-not_ordered ask i (leave why) h d r e q = ground (arith, q)
  place_structure-not_ordered ask i (go (signal, lots)) h d r e q = ground (arith, q)

  place_order-ordered :
      (quote : S → Option ℕ × S) (p : Stage (Decision × ℕ)) (h : Holdings S) (d : Decision) (r : ℕ)
      (e : EntryResult)
      → (place_order adapter setup m quote p h).0 ≡ ordered d r e
      → (p ≡ go (d, r)) × ((execute adapter setup quote none d h.world).0 ≡ e)
  unfolding place_order
  place_order-ordered quote (leave why) h d r e q = ground (arith, q)
  place_order-ordered quote (go (d', r')) h d r e q =
      let (same, same', answer) = ordered-injective q in
      (
        λ j. go (same j, same' j),
        sym (ap (λ x. (execute adapter setup quote none x h.world).0) same) ∙ answer,
      )

  second_branch :
      (b : Bool) (x y : Result × Holdings S) (z : Result)
      → x.0 ≢ z
      → (if b then x else y).0 ≡ z
      → y.0 ≡ z
  second_branch true x y z h q = ground (arith, h q)
  second_branch false x y z h q = q

  evaluate-ordered :
      (chain : Chain) (k : Desk) (quote : S → Option ℕ × S) (ask : Ask) (i : Idea) (h : Holdings S)
      (d : Decision) (r : ℕ) (e : EntryResult)
      → (evaluate adapter setup m chain k quote ask i h).0 ≡ ordered d r e
      → (plan chain setup k i ≡ go (d, r)) × ((execute adapter setup quote none d h.world).0 ≡ e)
  unfolding evaluate
  evaluate-ordered chain k quote ask i h d r e q =
      place_order-ordered quote (plan chain setup k i) h d r e (
        second_branch (is_fno i.sleeve) _ _ (ordered d r e)
          (place_structure-not_ordered ask i (plan_structure chain k i) h d r e) q)

  -- What the chain orders of a single instrument was neither vetoed nor stopped by a switch, a brake
  -- or a full book, is worth its costs, and at a broker that is honest about the orders it takes what
  -- is reported as filled is at most the quantity decided on, with which the capital in the sleeve
  -- and the open risk of the book stay within their limits.
  pub evaluate-StaysWithin :
      (Knows : ℕ → ℕ → S → Type 0)
      → IsHonest adapter Knows
      → (chain : Chain) (k : Desk) (quote : S → Option ℕ × S) (ask : Ask) (i : Idea)
        (h : Holdings S) (d : Decision) (r : ℕ) (e : EntryResult)
      → (evaluate adapter setup m chain k quote ask i h).0 ≡ ordered d r e
      → IsPlanned chain setup k i d
        × (e.filled_quantity ≤ d.quantity)
        × StaysWithin k i.sleeve d.entry_price d.stop_price e.filled_quantity
  evaluate-StaysWithin Knows honest chain k quote ask i h d r e q =
      let (planned, ran) = evaluate-ordered chain k quote ask i h d r e q in
      let ok = plan-IsPlanned chain setup k i d r planned in
      let bounded =
        subst (λ (x : EntryResult). x.filled_quantity ≤ d.quantity) ran
          (execute-bounded adapter Knows honest setup quote d h.world) in
      (
        ok,
        bounded,
        StaysWithin-mono k i.sleeve d.entry_price d.stop_price e.filled_quantity d.quantity bounded
            ok.within,
      )
