-- ===== src/Risk/Sizing/Budget.antt =====
-- What `size_position` of risk/sizing.py accepts keeps every limit, and what it refuses as below
-- one lot could not be one lot.
use native.Mathlib.Nat.{mul-le-mul_right}
use ai_trading_system.Base.{
  ℕ, ◌*◌, ◌≤◌, ◌<◌, Option, none, some, List, [], ◌∷◌, arith, All, All-append, ltb, max, Bool-cases,
  inl, inr, ◌==◌,
}
use ai_trading_system.Base.Int.{ℤ}
use ai_trading_system.Risk.Sizing.{
  floor_to_lot, Label, Limit, Request, Clamped, apply, apply_all, clamped, limits, effective_r,
  scale, risk_per_unit, portfolio_risk, sleeve_cap, limit_of, margin_of, margin_limit,
}
use ai_trading_system.Risk.Sizing.Floor.{floor-fits, IsWhole, floor-IsWhole, floor-greatest}

abbrev pub Fits : ℕ → Limit → Type 0
Fits n l = n * l.den ≤ l.num

pub Fits-mono : (m n : ℕ) (l : Limit) → m ≤ n → Fits n l → Fits m l
Fits-mono m n l h f = omega (arith, mul-le-mul_right l.den h, f)

apply-le : (u : ℕ) (l : Label) (c : Clamped) → ((apply u l c).0 ≤ c.0) × ((apply u l c).0 ≤ u)
unfolding apply
apply-le u l (units, clamps) = ground arith

pub apply_all-le : (lot : ℕ) (ls : List Limit) (c : Clamped) → (apply_all lot ls c).0 ≤ c.0
unfolding apply_all
apply_all-le lot [] c = omega arith
apply_all-le lot (l ∷ ls) c = omega (
  arith,
  apply_all-le lot ls (apply (floor_to_lot l.num l.den lot) l.label c),
  (apply-le (floor_to_lot l.num l.den lot) l.label c).0,
)

pub apply_all-Fits :
    (lot : ℕ) (ls : List Limit) (c : Clamped) → All (Fits (apply_all lot ls c).0) ls
unfolding apply_all
apply_all-Fits lot [] c = tt
apply_all-Fits lot (l ∷ ls) c = (
  Fits-mono _ (floor_to_lot l.num l.den lot) l
      (omega (
        arith,
        apply_all-le lot ls (apply (floor_to_lot l.num l.den lot) l.label c),
        (apply-le (floor_to_lot l.num l.den lot) l.label c).1,
      ))
      (floor-fits l.num l.den lot),
  apply_all-Fits lot ls (apply (floor_to_lot l.num l.den lot) l.label c),
)

apply-IsWhole :
    (lot u : ℕ) (l : Label) (c : Clamped)
    → IsWhole lot u
    → IsWhole lot c.0
    → IsWhole lot (apply u l c).0
unfolding apply
apply-IsWhole lot u l (units, clamps) hu hc = elim (Bool-cases (ltb u units)) [
  | inl p ↦ rw p hu
  | inr p ↦ rw p hc
]

apply_all-IsWhole :
    (lot : ℕ) (ls : List Limit) (c : Clamped) → IsWhole lot c.0 → IsWhole lot (apply_all lot ls c).0
unfolding apply_all
apply_all-IsWhole lot [] c h = h
apply_all-IsWhole lot (l ∷ ls) c h =
    apply_all-IsWhole lot ls _
      (apply-IsWhole lot (floor_to_lot l.num l.den lot) l.label c (floor-IsWhole l.num l.den lot) h)

apply-greatest : (m u : ℕ) (l : Label) (c : Clamped) → m ≤ u → m ≤ c.0 → m ≤ (apply u l c).0
unfolding apply
apply-greatest m u l (units, clamps) hu hc = ground arith

-- the limits divide by something
abbrev pub IsPriced : Limit → Type 0
IsPriced l = 0 < l.den

pub apply_all-greatest :
    (lot k : ℕ) (ls : List Limit) (c : Clamped)
    → All IsPriced ls
    → All (Fits (k * max 1 lot)) ls
    → k * max 1 lot ≤ c.0
    → k * max 1 lot ≤ (apply_all lot ls c).0
unfolding apply_all
apply_all-greatest lot k [] c ps fs h = h
apply_all-greatest lot k (l ∷ ls) c (p, ps) (f, fs) h =
    apply_all-greatest lot k ls _ ps fs
      (apply-greatest (k * max 1 lot) _ l.label c (floor-greatest l.num l.den lot k p f) h)

-- The first limit of an order: its risk within the risk that its confidence allows.
abbrev pub risk_limit : Request → Limit
risk_limit q = record { label = portfolio_risk; num = effective_r q; den = scale * risk_per_unit q }

-- an order of n units keeps every limit of the request
abbrev pub IsWithin : Request → ℕ → Type 0
IsWithin q n = Fits n (risk_limit q) × All (Fits n) (limits q)

abbrev unclamped : Request → Clamped
unclamped q = (floor_to_lot (effective_r q) (scale * risk_per_unit q) q.lot_size, [])

pub clamped-IsWithin : (q : Request) → IsWithin q (clamped q).0
unfolding clamped
clamped-IsWithin q = (
  Fits-mono _ (unclamped q).0 (risk_limit q) (apply_all-le q.lot_size (limits q) (unclamped q))
      (floor-fits (effective_r q) (scale * risk_per_unit q) q.lot_size),
  apply_all-Fits q.lot_size (limits q) (unclamped q),
)

pub clamped-IsWhole : (q : Request) → IsWhole q.lot_size (clamped q).0
unfolding clamped
clamped-IsWhole q =
    apply_all-IsWhole q.lot_size (limits q) (unclamped q)
      (floor-IsWhole (effective_r q) (scale * risk_per_unit q) q.lot_size)

pub limit_of-IsPriced :
    (l : Label) (r : Option ℤ) (each : ℕ) → 0 < each → All IsPriced (limit_of l r each)
limit_of-IsPriced l none each h = tt
limit_of-IsPriced l (some r) each h = (h, tt)

margin_of-IsPriced : (r : Option ℤ) (m : ℕ × ℕ) → 0 < m.0 → All IsPriced (margin_of r m)
margin_of-IsPriced none m h = tt
margin_of-IsPriced (some r) m h = (h, tt)

pub margin-IsPriced : (r : Option ℤ) (each : Option (ℕ × ℕ)) → All IsPriced (margin_limit r each)
margin-IsPriced r none = tt
margin-IsPriced r (some m) = elim (Bool-cases (m.0 == 0)) [
  | inl p ↦ rw p tt
  | inr p ↦ rw p (margin_of-IsPriced r m (ground arith))
]

limits-IsPriced : (q : Request) → 0 < q.entry_price → 0 < risk_per_unit q → All IsPriced (limits q)
unfolding limits
limits-IsPriced q he hr = (
  omega arith,
  All-append IsPriced (limit_of sleeve_cap q.sleeve_remaining_capital q.entry_price) _
      (limit_of-IsPriced sleeve_cap q.sleeve_remaining_capital q.entry_price he)
      (All-append IsPriced (limit_of portfolio_risk q.portfolio_remaining_r (risk_per_unit q)) _
        (limit_of-IsPriced portfolio_risk q.portfolio_remaining_r (risk_per_unit q) hr)
        (margin-IsPriced q.margin_available q.margin_per_unit)),
)

pub clamped-greatest :
    (q : Request) (k : ℕ)
    → 0 < q.entry_price
    → 0 < risk_per_unit q
    → IsWithin q (k * max 1 q.lot_size)
    → k * max 1 q.lot_size ≤ (clamped q).0
unfolding clamped
clamped-greatest q k he hr (h, hs) =
    apply_all-greatest q.lot_size k (limits q) (unclamped q) (limits-IsPriced q he hr) hs
      (floor-greatest (effective_r q) (scale * risk_per_unit q) q.lot_size k (omega arith) h)
