-- ===== src/Risk/Engine/Budgets.antt =====
-- What a size that `size` of risk/engine.py answers with leaves of the budgets of the book.
use native.Mathlib.Nat.{one-le-mul}
use ai_trading_system.Base.{
  ℕ, ◌*◌, ◌+◌, ◌-◌, ◌/◌, ◌≤◌, ◌<◌, ◌≡◌, sym, subst, Option, none, some, List, ◌++◌, arith, All,
}
use ai_trading_system.Broker.{Side}
use ai_trading_system.Execution.Costs.{Sleeve}
use ai_trading_system.Risk.Positions.{
  Symbol, deployed_by_sleeve, total_open_r, open_r_by_underlying,
}
use ai_trading_system.Risk.Sizing.{
  Sized, accept, size_position, Label, Limit, limit_of, limits, sleeve_cap, underlying_cap,
  distance,
}
use ai_trading_system.Risk.Sizing.Budget.{Fits}
use ai_trading_system.Risk.Sizing.Decision.{accept-IsWithin, accept-priced}
use ai_trading_system.Risk.Engine.{
  Desk, Listing, MarginCall, book, funds, kind_from_instrument, margin_per_unit, remaining_of,
  sleeve_remaining, portfolio_remaining_r,
}
use ai_trading_system.Risk.Engine.Ask.{
  Block, asked, after_gates, gates, size, request, lot_of, structure_request, underlying_pct,
  underlying_remaining_r, ask_structure, structure_gates,
}
use ai_trading_system.Risk.Sizing.Structure.{
  StructureSize, structure_limits, size_structure, take, take-IsCovered, take-priced,
}
use ai_trading_system.Risk.Engine.Gates.{IsReady, gates_iff, structure_gates_iff}

-- an amount is within a percentage of the capital, where one is configured
abbrev pub WithinPct : Option ℕ → ℕ → ℕ → Type 0
WithinPct none capital n = Unit
WithinPct (some pct) capital n = n * 1_000_000 ≤ pct * capital

room : (x used total : ℕ) → 0 < x → x ≤ total / 1_000_000 - used → (used + x) * 1_000_000 ≤ total
room x used total h k = omega arith

limit_of-Fits :
    (label : Label) (pct : Option ℕ) (capital used n each : ℕ) (rest : List Limit)
    → 0 < n * each
    → All (Fits n) (limit_of label (remaining_of pct capital used) each ++ rest)
    → WithinPct pct capital (used + n * each) × All (Fits n) rest
limit_of-Fits label none capital used n each rest h f = (tt, f)
limit_of-Fits label (some pct) capital used n each rest h (f, fs) =
    (room (n * each) used (pct * capital) h f, fs)

asked_through {ℓ} :
    {R : Type ℓ} (o : Option Block) (r r' : R) → after_gates o r ≡ asked r' → (o ≡ none) × (r ≡ r')
asked_through none r r' e = ground (arith, e)
asked_through (some why) r r' e = ground (arith, e)

-- the budgets of a desk still hold with an order of n units added
pub record StaysWithin (k : Desk) (sleeve : Sleeve) (entry stop n : ℕ) : Type 0 where
  pub sleeve_capital :
      WithinPct
        (k.risk.sleeve_cap_pct sleeve)
        (funds k)
        (deployed_by_sleeve (book k) sleeve + n * entry)
  pub open_risk :
      WithinPct
        (some k.risk.portfolio_risk_limit_pct)
        (funds k)
        (total_open_r (book k) + n * distance entry stop)

request-StaysWithin :
    (k : Desk) (entry stop : ℕ) (i : Listing) (sleeve : Sleeve) (confidence lot n : ℕ)
    (margin : Option (ℕ × ℕ))
    → 0 < n * entry
    → 0 < n * distance entry stop
    → All (Fits n) (limits (request k entry stop i sleeve confidence lot margin))
    → StaysWithin k sleeve entry stop n
unfolding limits request sleeve_remaining portfolio_remaining_r
request-StaysWithin k entry stop i sleeve confidence lot n margin h h' (_, fs) =
    let (a, (f, _)) =
      limit_of-Fits sleeve_cap (k.risk.sleeve_cap_pct sleeve) (funds k)
        (deployed_by_sleeve (book k) sleeve) n entry _ h fs in
    record {
      sleeve_capital = a;
      open_risk =
          room (n * distance entry stop) (total_open_r (book k))
            (k.risk.portfolio_risk_limit_pct * funds k) h' f;
    }

-- When the engine answers with an accepted size, no switch and no brake is on, a slot is free, and
-- with the order added the capital that is deployed in the sleeve stays within the sleeve's cap and
-- the open risk of the whole book within the portfolio's limit.
pub size-StaysWithin :
    (call : Option MarginCall) (k : Desk) (entry stop : ℕ) (i : Listing) (sleeve : Sleeve)
    (confidence : ℕ) (side : Side) (s : Sized)
    → size call k entry stop i sleeve confidence side ≡ asked (accept s)
    → IsReady k sleeve × StaysWithin k sleeve entry stop s.quantity
unfolding size request
size-StaysWithin call k entry stop i sleeve confidence side s e =
    let lot = lot_of i (kind_from_instrument i.instrument_type) in
    let margin = margin_per_unit call i side sleeve lot in
    let q = request k entry stop i sleeve confidence lot margin in
    let (open_gates, sized) =
      asked_through (gates k i sleeve margin) (size_position q) (accept s) e in
    let (within, _, least, _) = accept-IsWithin q s sized in
    let (priced, risky) = accept-priced q s sized in
    (
      ((gates_iff k i sleeve margin).0 open_gates).0,
      request-StaysWithin k entry stop i sleeve confidence lot s.quantity margin
          (one-le-mul (omega (arith, least)) priced) (one-le-mul (omega (arith, least)) risky)
          within.1,
    )

-- the budgets of a desk still hold with the risk of a structure added
pub record StaysCovered (k : Desk) (name : Symbol) (risk : ℕ) : Type 0 where
  pub portfolio :
      WithinPct (some k.risk.portfolio_risk_limit_pct) (funds k) (total_open_r (book k) + risk)
  pub underlying :
      WithinPct
        (underlying_pct k.risk.per_underlying_risk_pct name)
        (funds k)
        (open_r_by_underlying (book k) name + risk)

request-StaysCovered :
    (k : Desk) (max_loss lot : ℕ) (sleeve : Sleeve) (confidence : ℕ) (margin : Option ℕ)
    (name : Symbol) (n : ℕ)
    → 0 < n * max_loss
    → All
        (Fits n)
        (structure_limits (structure_request k max_loss lot sleeve confidence margin name))
    → StaysCovered k name (n * max_loss)
unfolding structure_limits structure_request underlying_remaining_r portfolio_remaining_r
request-StaysCovered k max_loss lot sleeve confidence margin name n h (f, fs) = record {
  portfolio =
      room (n * max_loss) (total_open_r (book k)) (k.risk.portfolio_risk_limit_pct * funds k) h f;
  underlying =
      (limit_of-Fits underlying_cap (underlying_pct k.risk.per_underlying_risk_pct name) (funds k)
        (open_r_by_underlying (book k) name) n max_loss _ h fs).0;
}

-- the risk of a structure that the engine answers with is that of its lots
pub ask_structure-risk :
    (k : Desk) (max_loss lot : ℕ) (sleeve : Sleeve) (confidence : ℕ) (margin : Option ℕ)
    (name : Symbol) (s : StructureSize)
    → ask_structure k max_loss lot sleeve confidence margin name ≡ asked (take s)
    → (0 < s.lots) × (s.actual_risk ≡ s.lots * max_loss)
unfolding ask_structure structure_request
ask_structure-risk k max_loss lot sleeve confidence margin name s e =
    let q = structure_request k max_loss lot sleeve confidence margin name in
    let (_, taken) =
      asked_through (structure_gates k sleeve margin) (size_structure q) (take s) e in
    let (_, least, _, risk, _) = take-IsCovered q s taken in (least, risk)

-- When the engine answers with lots of a structure, no switch and no brake is on, a slot is free, and
-- with the structure's whole risk added the open risk of the book stays within the portfolio's limit
-- and the open risk on its underlying, over all strikes, within the limit of one underlying.
pub ask_structure-StaysCovered :
    (k : Desk) (max_loss lot : ℕ) (sleeve : Sleeve) (confidence : ℕ) (margin : Option ℕ)
    (name : Symbol) (s : StructureSize)
    → ask_structure k max_loss lot sleeve confidence margin name ≡ asked (take s)
    → IsReady k sleeve × StaysCovered k name s.actual_risk
unfolding ask_structure structure_request
ask_structure-StaysCovered k max_loss lot sleeve confidence margin name s e =
    let q = structure_request k max_loss lot sleeve confidence margin name in
    let (open_gates, sized) =
      asked_through (structure_gates k sleeve margin) (size_structure q) (take s) e in
    let (covered, least, _, risk, _) = take-IsCovered q s sized in
    (
      ((structure_gates_iff k sleeve margin).0 open_gates).0,
      subst (StaysCovered k name) (sym risk) (
          request-StaysCovered k max_loss lot sleeve confidence margin name s.lots
            (one-le-mul least (take-priced q s sized)) covered.1),
    )
