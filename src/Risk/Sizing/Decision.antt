-- ===== src/Risk/Sizing/Decision.antt =====
-- The decisions of `size_position` of risk/sizing.py: what it accepts, and why it refuses.
use ai_trading_system.Base.{
  ℕ, ◌*◌, ◌≤◌, ◌<◌, ◌≡◌, ◌≢◌, refl, Bool, true, false, arith, ltb, max, if◌then◌else◌, ◌==◌, subst,
  Bool-cases, inl, inr,
}
use ai_trading_system.Risk.Sizing.{
  Request, Clamped, clamped, effective_r, risk_per_unit, decide, sized, size_position, Refusal,
  no_risk_budget, invalid_stop, invalid_entry, below_one_lot, low_utilization, Sized, SizingResult,
  accept, reject,
}
use ai_trading_system.Risk.Sizing.Floor.{IsWhole}
use ai_trading_system.Risk.Sizing.Budget.{
  IsWithin, clamped-IsWithin, clamped-IsWhole, clamped-greatest,
}

passed :
    (b : Bool) (r : Refusal) (x : SizingResult) (s : Sized)
    → (if b then reject r else x) ≡ accept s
    → (b ≡ false) × (x ≡ accept s)
passed true r x s e = ground (arith, e)
passed false r x s e = (refl, e)

skipped :
    (b : Bool) (r r' : Refusal) (x : SizingResult)
    → r ≢ r'
    → (if b then reject r else x) ≡ reject r'
    → (b ≡ false) × (x ≡ reject r')
skipped true r r' x ne e = ground (arith, e, ne)
skipped false r r' x ne e = (refl, e)

accept-injective : {s t : Sized} → accept s ≡ accept t → s ≡ t
accept-injective e = cc

not_below :
    (b : Bool) (s : Sized) → (if b then reject low_utilization else accept s) ≢ reject below_one_lot
not_below b s e = ground (arith, e)

decide-accept :
    (q : Request) (c : Clamped) (s : Sized)
    → decide q c ≡ accept s
    → (sized q c ≡ s) × (max 1 q.lot_size ≤ c.0)
unfolding decide
decide-accept q c s e =
    let (b, e') = passed (ltb c.0 (max 1 q.lot_size)) below_one_lot _ s e in
    let (_, e'') = passed _ low_utilization (accept (sized q c)) s e' in
    (accept-injective e'', ground (arith, b))

decide-below :
    (q : Request) (c : Clamped) → decide q c ≡ reject below_one_lot → c.0 < max 1 q.lot_size
unfolding decide
decide-below q c e = elim (Bool-cases (ltb c.0 (max 1 q.lot_size))) [
  | inl p ↦ ground (arith, p)
  | inr p ↦ absurd (not_below _ (sized q c) (rw p at e))
]

nonzero : (n : ℕ) → (n == 0) ≡ false → 0 < n
nonzero n h = ground arith

-- An accepted order is a whole number of lots, at least one, within the risk that its confidence
-- allows and within every cap of the request, and no greater whole number of lots is within them.
pub accept-IsWithin :
    (q : Request) (s : Sized)
    → size_position q ≡ accept s
    → IsWithin q s.quantity
      × IsWhole q.lot_size s.quantity
      × (max 1 q.lot_size ≤ s.quantity)
      × ((k : ℕ) → IsWithin q (k * max 1 q.lot_size) → k * max 1 q.lot_size ≤ s.quantity)
unfolding size_position
accept-IsWithin q s e =
    let (_, e1) = passed (effective_r q == 0) no_risk_budget _ s e in
    let (r, e2) = passed (risk_per_unit q == 0) invalid_stop _ s e1 in
    let (p, e3) = passed (q.entry_price == 0) invalid_entry _ s e2 in
    let (same, least) = decide-accept q (clamped q) s e3 in
    subst
      (λ t.
        IsWithin q t.quantity
        × IsWhole q.lot_size t.quantity
        × (max 1 q.lot_size ≤ t.quantity)
        × ((k : ℕ) → IsWithin q (k * max 1 q.lot_size) → k * max 1 q.lot_size ≤ t.quantity))
      same
      (
        clamped-IsWithin q,
        clamped-IsWhole q,
        least,
        λ k. clamped-greatest q k (nonzero q.entry_price p) (nonzero (risk_per_unit q) r),
      )

-- A request that is refused as below one lot could not have had one: one lot exceeds the risk that
-- its confidence allows, or some cap.
pub below-IsWithin :
    (q : Request) → size_position q ≡ reject below_one_lot → ¬ IsWithin q (1 * max 1 q.lot_size)
unfolding size_position
below-IsWithin q e w =
    let (_, e1) =
      skipped (effective_r q == 0) no_risk_budget below_one_lot _ (λ h. ground (arith, h)) e in
    let (r, e2) =
      skipped (risk_per_unit q == 0) invalid_stop below_one_lot _ (λ h. ground (arith, h)) e1 in
    let (p, e3) =
      skipped (q.entry_price == 0) invalid_entry below_one_lot _ (λ h. ground (arith, h)) e2 in
    omega (
      arith,
      decide-below q (clamped q) e3,
      clamped-greatest q 1 (nonzero q.entry_price p) (nonzero (risk_per_unit q) r) w,
    )

pub accept-priced :
    (q : Request) (s : Sized)
    → size_position q ≡ accept s
    → (0 < q.entry_price) × (0 < risk_per_unit q)
unfolding size_position
accept-priced q s e =
    let (_, e1) = passed (effective_r q == 0) no_risk_budget _ s e in
    let (r, e2) = passed (risk_per_unit q == 0) invalid_stop _ s e1 in
    let (p, _) = passed (q.entry_price == 0) invalid_entry _ s e2 in
    (nonzero q.entry_price p, nonzero (risk_per_unit q) r)
