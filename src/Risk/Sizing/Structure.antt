-- ===== src/Risk/Sizing/Structure.antt =====
-- `size_structure` and `max_concurrent_positions` of risk/sizing.py, in the units of `size_position`.
use ai_trading_system.Base.{
  ℕ, ◌*◌, ◌/◌, ◌≤◌, ◌<◌, ◌≡◌, refl, subst, Bool, true, false, Option, none, some, List, [], ◌∷◌,
  ◌++◌, arith, All, All-append, ltb, ◌==◌, if◌then◌else◌, min, Bool-cases, inl, inr,
}
use ai_trading_system.Base.Int.{ℤ}
use ai_trading_system.Risk.Sizing.{
  Label, portfolio_risk, underlying_cap, max_lots_per_structure, Limit, limit_of, margin_limit,
  scale, Clamped, apply_all, floor_to_lot,
}
use ai_trading_system.Risk.Sizing.Floor.{floor-fits, floor-greatest}
use ai_trading_system.Risk.Sizing.Budget.{
  Fits, IsPriced, limit_of-IsPriced, margin-IsPriced, Fits-mono, apply_all-le, apply_all-Fits,
  apply_all-greatest,
}

pub record StructureRequest : Type 0 where
  pub capital : ℕ
  pub per_trade_risk_pct : ℕ
  pub max_loss_per_lot : ℕ
  pub lot_size : ℕ
  pub confidence : ℕ
  pub portfolio_remaining_r : Option ℤ
  pub underlying_remaining_r : Option ℤ
  pub margin_available : Option ℤ
  pub margin_per_lot : Option (ℕ × ℕ)
  pub max_lots : Option ℕ

abbrev pub structure_r : StructureRequest → ℕ
structure_r q = q.capital * q.per_trade_risk_pct * min q.confidence 10_000

-- `max_lots is not None and max_lots > 0`
abbrev pub lots_limit : Option ℕ → List Limit
lots_limit none = []
lots_limit (some n) =
    if n == 0 then [] else record { label = max_lots_per_structure; num = n; den = 1 } ∷ []

unfoldable pub structure_limits : StructureRequest → List Limit
structure_limits q =
    limit_of portfolio_risk q.portfolio_remaining_r q.max_loss_per_lot
    ++ (limit_of underlying_cap q.underlying_remaining_r q.max_loss_per_lot
        ++ (margin_limit q.margin_available q.margin_per_lot ++ lots_limit q.max_lots))

-- the number of lots after the clamps; lots are counted one by one
unfoldable pub structure_lots : StructureRequest → Clamped
unfolding apply_all structure_limits floor_to_lot
structure_lots q =
    apply_all 1 (structure_limits q)
      (floor_to_lot (structure_r q) (scale * q.max_loss_per_lot) 1, [])

pub data StructureRefusal : Type 0 where
  no_budget no_max_loss below_lot : StructureRefusal

pub record StructureSize : Type 0 where
  pub lots : ℕ
  pub quantity : ℕ
  pub actual_risk : ℕ
  pub clamps : List Label

pub data StructureResult : Type 0 where
  refuse : StructureRefusal → StructureResult
  take : StructureSize → StructureResult

abbrev pub structure_of : StructureRequest → Clamped → StructureSize
structure_of q (lots, clamps) = record {
  lots = lots;
  quantity = lots * q.lot_size;
  actual_risk = lots * q.max_loss_per_lot;
  clamps = clamps;
}

unfoldable pub size_structure : StructureRequest → StructureResult
unfolding structure_lots
size_structure q =
    if structure_r q == 0
    then refuse no_budget
    else if q.max_loss_per_lot == 0
    then refuse no_max_loss
    else if ltb (structure_lots q).0 1
    then refuse below_lot
    else take (structure_of q (structure_lots q))

-- `portfolio_risk_limit_pct // per_trade_risk_pct`
unfoldable pub max_concurrent_positions : ℕ → ℕ → ℕ
max_concurrent_positions portfolio_risk_limit_pct per_trade_risk_pct =
    if per_trade_risk_pct == 0 then 0 else portfolio_risk_limit_pct / per_trade_risk_pct

-- a number of lots keeps the risk budget and every limit of the request
abbrev pub IsCovered : StructureRequest → ℕ → Type 0
IsCovered q n =
    Fits n
      (record { label = portfolio_risk; num = structure_r q; den = scale * q.max_loss_per_lot })
    × All (Fits n) (structure_limits q)

lots-IsCovered : (q : StructureRequest) → IsCovered q (structure_lots q).0
unfolding structure_lots
lots-IsCovered q =
    let start : Clamped = (floor_to_lot (structure_r q) (scale * q.max_loss_per_lot) 1, []) in
    (
      Fits-mono _ start.0
          (record { label = portfolio_risk; num = structure_r q; den = scale * q.max_loss_per_lot })
          (apply_all-le 1 (structure_limits q) start)
          (floor-fits (structure_r q) (scale * q.max_loss_per_lot) 1),
      apply_all-Fits 1 (structure_limits q) start,
    )

lots-IsPriced : (o : Option ℕ) → All IsPriced (lots_limit o)
lots-IsPriced none = tt
lots-IsPriced (some n) = elim (Bool-cases (n == 0)) [
  | inl p ↦ rw p tt
  | inr p ↦ rw p (omega arith, tt)
]

structure-IsPriced :
    (q : StructureRequest) → 0 < q.max_loss_per_lot → All IsPriced (structure_limits q)
unfolding structure_limits
structure-IsPriced q h =
    All-append IsPriced (limit_of portfolio_risk q.portfolio_remaining_r q.max_loss_per_lot) _
      (limit_of-IsPriced portfolio_risk q.portfolio_remaining_r q.max_loss_per_lot h)
      (All-append IsPriced (limit_of underlying_cap q.underlying_remaining_r q.max_loss_per_lot) _
        (limit_of-IsPriced underlying_cap q.underlying_remaining_r q.max_loss_per_lot h)
        (All-append IsPriced (margin_limit q.margin_available q.margin_per_lot) _
          (margin-IsPriced q.margin_available q.margin_per_lot) (lots-IsPriced q.max_lots)))

lots-greatest :
    (q : StructureRequest) (k : ℕ)
    → 0 < q.max_loss_per_lot
    → IsCovered q (k * 1)
    → k * 1 ≤ (structure_lots q).0
unfolding structure_lots
lots-greatest q k h (f, fs) =
    apply_all-greatest 1 k (structure_limits q) _ (structure-IsPriced q h) fs
      (floor-greatest (structure_r q) (scale * q.max_loss_per_lot) 1 k (omega arith) f)

one_each : (n : ℕ) → n ≡ n * 1
one_each n = omega arith

passed :
    (b : Bool) (r : StructureRefusal) (x : StructureResult) (s : StructureSize)
    → (if b then refuse r else x) ≡ take s
    → (b ≡ false) × (x ≡ take s)
passed true r x s e = ground (arith, e)
passed false r x s e = (refl, e)

take-injective : {s t : StructureSize} → take s ≡ take t → s ≡ t
take-injective e = cc

-- A structure that is taken has at least one lot; its known maximum loss stays within the risk that
-- its confidence allows and within every limit of the request, and no greater number of lots does.
pub take-IsCovered :
    (q : StructureRequest) (s : StructureSize)
    → size_structure q ≡ take s
    → IsCovered q s.lots
      × (0 < s.lots)
      × (s.quantity ≡ s.lots * q.lot_size)
      × (s.actual_risk ≡ s.lots * q.max_loss_per_lot)
      × ((n : ℕ) → IsCovered q n → n ≤ s.lots)
unfolding size_structure
take-IsCovered q s e =
    let (_, e1) = passed (structure_r q == 0) no_budget _ s e in
    let (p, e2) = passed (q.max_loss_per_lot == 0) no_max_loss _ s e1 in
    let (l, e3) = passed (ltb (structure_lots q).0 1) below_lot _ s e2 in
    subst
      (λ t.
        IsCovered q t.lots
        × (0 < t.lots)
        × (t.quantity ≡ t.lots * q.lot_size)
        × (t.actual_risk ≡ t.lots * q.max_loss_per_lot)
        × ((n : ℕ) → IsCovered q n → n ≤ t.lots))
      (take-injective e3)
      (
        lots-IsCovered q,
        ground (arith, l),
        refl,
        refl,
        λ n h.
            omega
              (arith, lots-greatest q n (ground (arith, p)) (subst (IsCovered q) (one_each n) h)),
      )

pub take-priced :
    (q : StructureRequest) (s : StructureSize) → size_structure q ≡ take s → 0 < q.max_loss_per_lot
unfolding size_structure
take-priced q s e =
    let (_, e1) = passed (structure_r q == 0) no_budget _ s e in
    let (p, _) = passed (q.max_loss_per_lot == 0) no_max_loss _ s e1 in ground (arith, p)
