-- ===== src/Engine/Orchestrator/Structures.antt =====
-- What a structure that engine/orchestrator.py orders leaves of the risk budgets.
use native.Mathlib.Nat.{mul-le-mul_right, mul-le-mul_left}
use ai_trading_system.Base.{
  ℕ, ◌*◌, ◌≤◌, ◌<◌, ◌≡◌, ◌≢◌, refl, sym, ◌∙◌, ap, subst, inl, inr, Bool, true, false, Option, none,
  some, List, arith, ltb, ltb→lt, Bool-cases, if◌then◌else◌, or_default,
}
use ai_trading_system.Base.Round.Bounds.{round_half_even-le}
use ai_trading_system.Broker.{Adapter}
use ai_trading_system.Execution.Executor.{Decision, Setup}
use ai_trading_system.Execution.Structures.Opening.{
  Ask, Market, Failure, execute_structure, Desk as Holdings,
}
use ai_trading_system.Risk.Sizing.Structure.{StructureSize, StructureResult, take, refuse}
use ai_trading_system.Risk.Positions.{Symbol}
use ai_trading_system.Risk.Engine.{Desk, funds}
use ai_trading_system.Risk.Engine.Ask.{Verdict, blocked, asked, underlying_pct}
use ai_trading_system.Risk.Engine.Gates.{IsReady}
use ai_trading_system.Risk.Engine.Budgets.{
  StaysCovered, ask_structure-StaysCovered, ask_structure-risk,
}
use ai_trading_system.Engine.Confidence.{GateResult}
use ai_trading_system.Engine.Orchestrator.{
  Signal, PipelineResult, accepted, rejected, Skip, low_confidence, Stage, leave, go, and_then,
  Idea, Chain, admitted, sized_structure, downsized_lots, lots_from, plan, plan_structure, Result,
  structured, ask_for, place_order, place_structure, evaluate, is_fno,
}
use ai_trading_system.Engine.Orchestrator.Bounds.{
  and_then-go, go-injective, WithinPct-mono, unvetoed-go,
}

sized-go :
    (v : Verdict StructureResult) (s : StructureSize)
    → sized_structure v ≡ go s
    → v ≡ asked (take s)
sized-go (blocked why) s e = ground (arith, e)
sized-go (asked (refuse why)) s e = ground (arith, e)
sized-go (asked (take t)) s e = ap (λ x. asked (take x)) (go-injective e)

StaysCovered-mono :
    (k : Desk) (name : Symbol) (m n : ℕ) → m ≤ n → StaysCovered k name n → StaysCovered k name m
StaysCovered-mono k name m n h w = record {
  portfolio =
      WithinPct-mono (some k.risk.portfolio_risk_limit_pct) (funds k) _ _ (omega (arith, h))
        w.portfolio;
  underlying =
      WithinPct-mono (underlying_pct k.risk.per_underlying_risk_pct name) (funds k) _ _
        (omega (arith, h)) w.underlying;
}

-- the language model shrinks the lots, but to no less than one
downsized_lots-IsBetween :
    (lots d : ℕ) → 0 < lots → (0 < downsized_lots lots d) × (downsized_lots lots d ≤ lots)
unfolding downsized_lots
downsized_lots-IsBetween lots d h = elim (Bool-cases (ltb d 10_000)) [
  | inl small ↦
      let fewer =
        round_half_even-le (lots * d) 10_000 lots (omega arith)
          (omega (arith, mul-le-mul_left lots (ltb→lt d 10_000 small))) in
      rw small (omega arith, omega (arith, fewer))
  | inr whole ↦ rw whole (h, omega arith)
]

-- lots that are planned
pub record IsPlanned (k : Desk) (i : Idea) (signal : Signal) (lots : ℕ) : Type 0 where
  pub ready : IsReady k i.sleeve
  pub least : 0 < lots
  pub covered : StaysCovered k i.underlying (lots * or_default signal.max_loss_per_lot 0)
  pub not_vetoed : i.opinion.veto ≡ false

lots_from-IsPlanned :
    (k : Desk) (i : Idea) (signal : Signal) (confidence lots : ℕ)
    → lots_from k i signal confidence ≡ go lots
    → IsPlanned k i signal lots
unfolding lots_from
lots_from-IsPlanned k i signal confidence lots e =
    let loss = or_default signal.max_loss_per_lot 0 in
    let lot = or_default signal.lot_size 1 in
    let (s, e1, f1) = and_then-go _ _ lots e in
    let (downsize, e2, f2) = and_then-go _ _ lots f1 in
    let answer = sized-go _ s e1 in
    let (ready, covered) =
      ask_structure-StaysCovered k loss lot i.sleeve confidence i.structure_margin i.underlying s
        answer in
    let (least, risk) =
      ask_structure-risk k loss lot i.sleeve confidence i.structure_margin i.underlying s answer in
    let (some_left, fewer) = downsized_lots-IsBetween s.lots downsize least in
    subst (IsPlanned k i signal) (go-injective f2) (record {
      ready = ready;
      least = some_left;
      covered =
          StaysCovered-mono k i.underlying (downsized_lots s.lots downsize * loss) s.actual_risk
            (omega (arith, risk, mul-le-mul_right loss fewer)) covered;
      not_vetoed = unvetoed-go i downsize e2;
    })

-- a signal that goes on is the one of an accepted pipeline
abbrev pub IsAccepted : Option PipelineResult → Signal → Type 0
IsAccepted p signal = (gates : List GateResult) × (p ≡ some (accepted gates signal))

if_go {ℓ} :
    {A : Type ℓ} (b : Bool) (why : Skip) (x a : A) → (if b then go x else leave why) ≡ go a → x ≡ a
if_go true why x a e = go-injective e
if_go false why x a e = ground (arith, e)

admitted-IsAccepted :
    (chain : Chain) (i : Idea) (p : Option PipelineResult) (a : Signal × ℕ)
    → admitted chain i p ≡ go a
    → IsAccepted p a.0
unfolding admitted
admitted-IsAccepted chain i none a e = ground (arith, e)
admitted-IsAccepted chain i (some (rejected gates)) a e = ground (arith, e)
admitted-IsAccepted chain i (some (accepted gates signal)) a e =
    (gates, ap (λ (b : Signal × ℕ). some (accepted gates b.0)) (if_go _ low_confidence _ a e))

plan_structure-IsPlanned :
    (chain : Chain) (k : Desk) (i : Idea) (signal : Signal) (lots : ℕ)
    → plan_structure chain k i ≡ go (signal, lots)
    → IsAccepted i.pipeline signal × IsPlanned k i signal lots
unfolding plan_structure
plan_structure-IsPlanned chain k i signal lots e =
    let (a, e1, f1) =
      and_then-go (admitted chain i i.pipeline)
        (λ (a : Signal × ℕ). and_then (lots_from k i a.0 a.1) (λ n. go (a.0, n))) (signal, lots)
        e in
    let (n, e2, f2) = and_then-go (lots_from k i a.0 a.1) (λ m. go (a.0, m)) (signal, lots) f1 in
    subst (λ (b : Signal × ℕ). IsAccepted i.pipeline b.0 × IsPlanned k i b.0 b.1) (go-injective f2)
      (admitted-IsAccepted chain i i.pipeline a e1, lots_from-IsPlanned k i a.0 a.1 n e2)

structured-injective :
    {a b : Ask} {f g : Option Failure} → structured a f ≡ structured b g → (a ≡ b) × (f ≡ g)
structured-injective q = (cc, cc)

-- the structure, its lots and its lot size are the signal's, the planned ones and the context's
pub record IsFor (i : Idea) (signal : Signal) (a : Ask) : Type 0 where
  pub structure : a.structure ≡ signal.structure
  pub lot_size : a.lot_size ≡ i.lot_size
  pub name : a.name ≡ i.listing.tradingsymbol
  pub expiry : a.expiry ≡ i.expiry

ask_for-IsFor :
    (ask : Ask) (i : Idea) (signal : Signal) (lots : ℕ) → IsFor i signal (ask_for ask i signal lots)
unfolding ask_for
ask_for-IsFor ask i signal lots = record {
  structure = refl;
  lot_size = refl;
  name = refl;
  expiry = refl;
}

module _ {S : Type 0} (adapter : Adapter S) (setup : Setup) (m : Market S) where
  place_order-not_structured :
      (quote : S → Option ℕ × S) (p : Stage (Decision × ℕ)) (h : Holdings S) (a : Ask)
      (f : Option Failure)
      → (place_order adapter setup m quote p h).0 ≢ structured a f
  unfolding place_order
  place_order-not_structured quote (leave why) h a f q = ground (arith, q)
  place_order-not_structured quote (go (d, r)) h a f q = ground (arith, q)

  -- an order that was sent, and what it has answered and left
  abbrev IsSent : Ask → Option Failure → Holdings S → Holdings S → Type 0
  IsSent a f h h' = execute_structure adapter setup m a h ≡ (f, h')

  place_structure-structured :
      (ask : Ask) (i : Idea) (p : Stage (Signal × ℕ)) (h : Holdings S) (a : Ask)
      (f : Option Failure)
      → let (r, h') = place_structure adapter setup m ask i p h in
        r ≡ structured a f
        → (signal : Signal) × (p ≡ go (signal, a.lots)) × IsFor i signal a × IsSent a f h h'
  unfolding place_structure ask_for
  place_structure-structured ask i (leave why) h a f q = ground (arith, q)
  place_structure-structured ask i (go (signal, n)) h a f q =
      let (same, answer) = structured-injective q in
      let b = ask_for ask i signal n in
      (
        signal,
        ap (λ (x : Ask). go (signal, x.lots)) same,
        subst (IsFor i signal) same (ask_for-IsFor ask i signal n),
        ap (λ x. execute_structure adapter setup m x h) (sym same)
            ∙ ap (λ x. (x, (execute_structure adapter setup m b h).1)) answer,
      )

  -- What the chain orders of a structure is the structure of the signal of an accepted pipeline, in
  -- the lot size of the context and at least one lot; it was neither vetoed nor stopped by a switch, a
  -- brake or a full book. With the signal's maximum loss of as many lots the open risk of the book
  -- stays within the portfolio's limit and the open risk on the underlying within the limit of one
  -- underlying. The executor is given this order, and nothing else has changed the holdings.
  pub evaluate-StaysCovered :
      (chain : Chain) (k : Desk) (quote : S → Option ℕ × S) (ask : Ask) (i : Idea) (h : Holdings S)
      (a : Ask) (f : Option Failure)
      → (evaluate adapter setup m chain k quote ask i h).0 ≡ structured a f
      → (signal : Signal) × IsAccepted i.pipeline signal
        × IsFor i signal a
        × IsPlanned k i signal a.lots
        × (execute_structure adapter setup m a h
            ≡ (f, (evaluate adapter setup m chain k quote ask i h).1))
  unfolding evaluate
  evaluate-StaysCovered chain k quote ask i h a f q = sent (is_fno i.sleeve) q
    where
      x : Result × Holdings S
      x = place_structure adapter setup m ask i (plan_structure chain k i) h

      y : Result × Holdings S
      y = place_order adapter setup m quote (plan chain setup k i) h

      sent :
          (b : Bool)
          → (if b then x else y).0 ≡ structured a f
          → (signal : Signal) × IsAccepted i.pipeline signal
            × IsFor i signal a
            × IsPlanned k i signal a.lots
            × IsSent a f h (if b then x else y).1
      sent true e =
          let (signal, planned, mine, ran) =
            place_structure-structured ask i (plan_structure chain k i) h a f e in
          let (origin, ok) = plan_structure-IsPlanned chain k i signal a.lots planned in
          (signal, origin, mine, ok, ran)
      sent false e = absurd (place_order-not_structured quote (plan chain setup k i) h a f e)
