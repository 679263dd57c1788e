-- ===== src/Engine/Orchestrator.antt =====
-- `_evaluate` of engine/orchestrator.py, for one instrument. What a pipeline, the learned model, the
-- language model and the feed answer are parameters, and the writes of the audit are left out, which
-- decide nothing. Confidence and `downsize` are in 1/10000. An accepted pipeline has a signal, as
-- `accept` of strategies/base.py gives it, and a structure stands in its detail.
pub mod Bounds
pub mod Structures
pub mod Confident
mod Tests
use ai_trading_system.Base.{
  ℕ, ◌+◌, ◌-◌, ◌*◌, Bool, true, false, not, ◌&&◌, ◌||◌, Option, none, some, List, ◌==◌, ltb,
  if◌then◌else◌, or_default, max,
}
use ai_trading_system.Base.Round.{round_half_even, round_2}
use ai_trading_system.Broker.{
  Call, returned, raised, Side, market, Adapter, Exchange, Product, mis, cnc, nrml,
}
use ai_trading_system.Execution.Costs.{
  Sleeve, intraday_stocks, swing_stocks, fno, mcx_commodities, segment_key, round_trip_cost,
}
use ai_trading_system.Execution.Policy.{Instrument}
use ai_trading_system.Execution.Executor.{Decision, Setup, World}
use ai_trading_system.Execution.Executor.Entry.{
  EntryResult, Outcome, outcome_filled, outcome_partial, execute,
}
use ai_trading_system.Execution.Structures.{Structure}
use ai_trading_system.Execution.Structures.Opening.{
  Ask, Market, Failure, execute_structure, Desk as Holdings,
}
use ai_trading_system.Risk.Sizing.{
  Sized, Refusal, SizingResult, accept, reject, floor_to_lot, distance,
}
use ai_trading_system.Risk.Sizing.Structure.{StructureSize, StructureResult, take, refuse}
use ai_trading_system.Risk.Positions.{Symbol}
use ai_trading_system.Risk.Engine.{Desk, Listing, MarginCall}
use ai_trading_system.Risk.Engine.Ask.{Verdict, Block, blocked, asked, size, ask_structure}
use ai_trading_system.Engine.Confidence.{GateResult, ConfidenceModel, score, passes}
use ai_trading_system.Engine.Context.{Verdict as Opinion}

-- `Signal`, with what is read of its detail; only an option strategy has a structure there.
pub record Signal : Type 0 where
  pub side : Side
  pub entry : ℕ
  pub stop : ℕ
  pub target : ℕ
  pub max_loss_per_lot : Option ℕ
  pub lot_size : Option ℕ
  pub structure : Structure

pub data PipelineResult : Type 0 where
  rejected : List GateResult → PipelineResult
  accepted : List GateResult → Signal → PipelineResult

-- why nothing is ordered
pub data Skip : Type 0 where
  no_pipeline pipeline_rejected low_confidence risk_refused llm_veto downsized_below_min cost_edge :
      Skip
  risk_blocked : Block → Skip

-- a return before the end of the chain, or what the next step gets
pub data Stage {ℓ} (A : Type ℓ) : Type ℓ where
  leave : Skip → Stage A
  go : A → Stage A

abbrev pub and_then {ℓ κ} : {A : Type ℓ} {B : Type κ} → Stage A → (A → Stage B) → Stage B
and_then (leave why) f = leave why
and_then (go a) f = f a

-- The instrument, as its readers see it, with the `expiry` and the `lot_size` of its context, and
-- what the parameters answer.
pub record Idea : Type 0 where
  pub expiry : Option ℕ
  pub lot_size : ℕ
  pub sleeve : Sleeve
  pub listing : Listing
  pub meta : Instrument
  pub underlying : Symbol
  pub pipeline : Option PipelineResult
  pub learned : Option (Call ℕ)
  pub margin : Option MarginCall
  pub structure_margin : Option ℕ
  pub opinion : Opinion

-- The configuration; a missing fraction is 0.
pub record Chain : Type 0 where
  pub model : ConfidenceModel
  pub cost_edge_max_fraction : ℕ

-- the filter of the learned model, whose error changes nothing
unfoldable pub shrink : Option (Call ℕ) → ℕ → ℕ
unfolding round_half_even
shrink none c = c
shrink (some raised) c = c
shrink (some (returned x)) c = round_half_even (c * x) 10_000

unfoldable pub confidence_of : Chain → Idea → List GateResult → ℕ
unfolding shrink score
confidence_of chain i gates = shrink i.learned (score chain.model gates)

-- the pipeline's result and the confidence in it
unfoldable pub admitted : Chain → Idea → Option PipelineResult → Stage (Signal × ℕ)
unfolding confidence_of passes
admitted chain i none = leave no_pipeline
admitted chain i (some (rejected gates)) = leave pipeline_rejected
admitted chain i (some (accepted gates signal)) =
    let confidence = confidence_of chain i gates in
    if passes chain.model confidence then go (signal, confidence) else leave low_confidence

abbrev pub sized : Verdict SizingResult → Stage Sized
sized (blocked why) = leave (risk_blocked why)
sized (asked (reject why)) = leave risk_refused
sized (asked (accept s)) = go s

abbrev pub sized_structure : Verdict StructureResult → Stage StructureSize
sized_structure (blocked why) = leave (risk_blocked why)
sized_structure (asked (refuse why)) = leave risk_refused
sized_structure (asked (take s)) = go s

-- the veto of the language model, and its `downsize`
abbrev pub unvetoed : Opinion → Stage ℕ
unvetoed v = if v.veto then leave llm_veto else go v.downsize

-- `sized.lot_size or 1`
abbrev pub lot_or_1 : ℕ → ℕ
lot_or_1 n = if n == 0 then 1 else n

unfoldable pub downsized : ℕ → ℕ → ℕ → Stage ℕ
unfolding floor_to_lot
downsized qty lot downsize =
    if ltb downsize 10_000
    then (let n = floor_to_lot (qty * downsize) 10_000 lot in
        if ltb n lot then leave downsized_below_min else go n)
    else go qty

-- the gate on the costs of the round trip
unfoldable pub edge : Chain → Setup → Idea → Signal → ℕ → Stage ℕ
unfolding round_trip_cost segment_key
edge chain setup i signal qty =
    let segment = segment_key i.sleeve i.listing.instrument_type in
    let costs = round_trip_cost setup.cost_model segment qty signal.entry signal.target in
    let reward = distance signal.target signal.entry * qty in
    if not (chain.cost_edge_max_fraction == 0)
      && not (signal.target == 0)
      && ((reward == 0) || ltb (reward * chain.cost_edge_max_fraction) (costs * 10_000))
    then leave cost_edge
    else go qty

-- `_PRODUCT`
abbrev pub product_of : Sleeve → Product
product_of swing_stocks = cnc
product_of fno = nrml
product_of mcx_commodities = nrml
product_of _ = mis

unfoldable pub decision_of : Idea → Signal → ℕ → Decision
decision_of i signal qty = record {
  sleeve = i.sleeve;
  exchange = i.listing.exchange;
  tradingsymbol = i.listing.tradingsymbol;
  instrument_token = i.listing.instrument_token;
  instrument_type = i.listing.instrument_type;
  instrument = i.meta;
  side = signal.side;
  quantity = qty;
  order_type = market;
  entry_price = signal.entry;
  stop_price = signal.stop;
  target_price = signal.target;
  product = some (product_of i.sleeve);
}

-- the decision and its `r_rupees`
unfoldable pub plan_from : Chain → Setup → Desk → Idea → Signal → ℕ → Stage (Decision × ℕ)
unfolding size downsized edge decision_of
plan_from chain setup k i signal confidence =
    and_then
      (sized (size i.margin k signal.entry signal.stop i.listing i.sleeve confidence signal.side))
      (λ s. and_then (unvetoed i.opinion) (λ downsize.
        and_then (downsized s.quantity (lot_or_1 s.lot_size) downsize) (λ n.
          and_then (edge chain setup i signal n) (λ qty.
            go (decision_of i signal qty, round_2 (qty * distance signal.entry signal.stop) 1)))))

-- all that is decided before the order of a single instrument
unfoldable pub plan : Chain → Setup → Desk → Idea → Stage (Decision × ℕ)
unfolding admitted plan_from
plan chain setup k i =
    and_then (admitted chain i i.pipeline)
      (λ (signal, confidence). plan_from chain setup k i signal confidence)

-- at least one lot stays
unfoldable pub downsized_lots : ℕ → ℕ → ℕ
unfolding round_half_even
downsized_lots lots downsize =
    if ltb downsize 10_000 then max 1 (round_half_even (lots * downsize) 10_000) else lots

unfoldable pub lots_from : Desk → Idea → Signal → ℕ → Stage ℕ
unfolding ask_structure downsized_lots
lots_from k i signal confidence =
    and_then
      (sized_structure (
        ask_structure k (or_default signal.max_loss_per_lot 0) (or_default signal.lot_size 1)
          i.sleeve confidence i.structure_margin i.underlying))
      (λ s. and_then (unvetoed i.opinion) (λ downsize. go (downsized_lots s.lots downsize)))

-- all that is decided before the order of a structure: its lots
unfoldable pub plan_structure : Chain → Desk → Idea → Stage (Signal × ℕ)
unfolding admitted lots_from
plan_structure chain k i =
    and_then (admitted chain i i.pipeline) (λ (signal, confidence).
      and_then (lots_from k i signal confidence) (λ lots. go (signal, lots)))

abbrev pub is_fno : Sleeve → Bool
is_fno fno = true
is_fno _ = false

pub data Result : Type 0 where
  skipped : Skip → Result
  ordered : Decision → ℕ → EntryResult → Result
  structured : Ask → Option Failure → Result

-- the two statuses "executed"
unfoldable pub is_executed : Result → Bool
is_executed (skipped why) = false
is_executed (ordered d r e) = elim e.outcome [
  | outcome_filled ↦ true
  | outcome_partial ↦ true
  | _ ↦ false
]
is_executed (structured a none) = true
is_executed (structured a (some why)) = false

-- the arguments of `execute_structure`; the correlation id and the configuration stand in `ask`
unfoldable pub ask_for : Ask → Idea → Signal → ℕ → Ask
ask_for ask i signal lots = record ask {
  name = i.listing.tradingsymbol;
  expiry = i.expiry;
  structure = signal.structure;
  lots = lots;
  lot_size = i.lot_size;
}

module _ {S : Type 0} (adapter : Adapter S) (setup : Setup) (m : Market S) where
  unfoldable pub place_order :
      (S → Option ℕ × S) → Stage (Decision × ℕ) → Holdings S → Result × Holdings S
  unfolding execute
  place_order quote (leave why) h = (skipped why, h)
  place_order quote (go (d, r)) h =
      let (e, w) = execute adapter setup quote none d h.world in
      (ordered d r e, record h { world = w })

  unfoldable pub place_structure :
      Ask → Idea → Stage (Signal × ℕ) → Holdings S → Result × Holdings S
  unfolding execute_structure ask_for
  place_structure ask i (leave why) h = (skipped why, h)
  place_structure ask i (go (signal, lots)) h =
      let a = ask_for ask i signal lots in
      let (f, h') = execute_structure adapter setup m a h in (structured a f, h')

  -- `_evaluate`
  unfoldable pub evaluate :
      Chain → Desk → (S → Option ℕ × S) → Ask → Idea → Holdings S → Result × Holdings S
  unfolding plan plan_structure place_order place_structure
  evaluate chain k quote ask i h =
      if is_fno i.sleeve
      then place_structure ask i (plan_structure chain k i) h
      else place_order quote (plan chain setup k i) h
