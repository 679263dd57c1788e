-- ===== src/Execution/Structures/Risk.antt =====
-- What `fill_based_risk` of execution/structures.py says of a vertical, against what its legs are
-- worth at expiry.
use native.Mathlib.Nat.{mul-le-mul_right, add-mul}
use ai_trading_system.Base.{
  ℕ, ◌+◌, ◌*◌, ◌-◌, ◌≤◌, ◌<◌, ◌≡◌, ap, ◌∙◌, Bool, true, List, [], ◌∷◌, arith,
}
use ai_trading_system.Base.Int.{
  ℤ, pos, negsuc, pos_part, neg_part, ◌+ℤ◌, ◌-ℤ◌, ◌*ℤ◌, +ℤ_parts, -ℤ_parts, *ℤ_parts,
}
use ai_trading_system.Broker.{buy, sell}
use ai_trading_system.Execution.Costs.{InstrumentType, ce, pe, fut, other_type}
use ai_trading_system.Execution.Structures.{
  vertical, Leg, leg_pnl, net_premium, risk_of, fill_based_risk, structure_width,
}

-- what an option is worth at expiry
abbrev pub intrinsic : InstrumentType → ℕ → ℕ → ℕ
intrinsic ce strike spot = spot - strike
intrinsic pe strike spot = strike - spot
intrinsic _ strike spot = 0

-- the short leg is worth at least as much as the long one
abbrev pub IsCreditSpread : InstrumentType → ℕ → ℕ → Type 0
IsCreditSpread ce long short = short ≤ long
IsCreditSpread pe long short = long ≤ short
IsCreditSpread _ long short = ⊥

mul_parts :
    (a b q : ℕ)
    → pos_part ((pos a -ℤ pos b) *ℤ q) + b * q ≡ neg_part ((pos a -ℤ pos b) *ℤ q) + a * q
mul_parts a b q =
    let d = pos a -ℤ pos b in
    omega (
      arith,
      *ℤ_parts d q,
      ap (λ (t : ℕ). t * q) (d_parts a b),
      add-mul (pos_part d) b q,
      add-mul (neg_part d) a q,
    )
  where
    d_parts : (a b : ℕ) → pos_part (pos a -ℤ pos b) + b ≡ neg_part (pos a -ℤ pos b) + a
    d_parts a b = omega (arith, -ℤ_parts (pos a) (pos b))

-- the worth of the legs at expiry, against what they were filled at
abbrev pub expiry_pnl : InstrumentType → ℕ → ℕ → ℕ → Leg → Leg → ℤ
expiry_pnl opt long short spot bought sold =
    leg_pnl bought (intrinsic opt long spot) +ℤ leg_pnl sold (intrinsic opt short spot)

spread_worth :
    (opt : InstrumentType) (long short spot : ℕ) (credit : Bool)
    → IsCreditSpread opt long short
    → (intrinsic opt long spot ≤ intrinsic opt short spot)
      × (intrinsic opt short spot
          ≤ intrinsic opt long spot + structure_width (vertical credit opt long short))
unfolding structure_width
spread_worth ce long short spot credit h = (omega arith, omega arith)
spread_worth pe long short spot credit h = (omega arith, omega arith)
spread_worth fut long short spot credit h = absurd h
spread_worth other_type long short spot credit h = absurd h

-- the premium was received, not paid
abbrev pub IsReceived : ℤ → Type 0
IsReceived (pos n) = Unit
IsReceived (negsuc n) = ⊥

-- a profit lies between a loss and a gain
abbrev pub IsBetween : ℤ → ℕ → ℕ → Type 0
IsBetween p loss gain = (neg_part p ≤ pos_part p + loss) × (pos_part p ≤ neg_part p + gain)

-- The profit p of a spread that is worth x less than its net premium, where x is at most w.
received :
    (net p : ℤ) (x w : ℕ)
    → IsReceived net
    → pos_part p + neg_part net + x ≡ neg_part p + pos_part net
    → x ≤ w
    → IsBetween p (risk_of net w).0 (risk_of net w).1
received (pos n) p x w r e h = (ground arith, ground arith)
received (negsuc n) p x w r e h = absurd r

paid :
    (net p : ℤ) (w d : ℕ)
    → net ≡ negsuc d
    → 100 ≤ d + 1
    → 0 < w
    → pos_part p + neg_part net + w ≡ neg_part p + pos_part net
    → pos_part p + (risk_of net w).0 < neg_part p
paid (pos n) p w d e h k f = ground (arith, e)
paid (negsuc n) p w d e h k f = ground (arith, e)

abbrev pub pair : Leg → Leg → List Leg
pair bought sold = bought ∷ sold ∷ []

-- both legs of a vertical were filled with one quantity
pub record IsVertical (bought sold : Leg) : Type 0 where
  pub is_bought : bought.side ≡ buy
  pub is_sold : sold.side ≡ sell
  pub same_qty : sold.qty ≡ bought.qty

sold_parts :
    (a b q : ℕ)
    → pos_part ((pos a -ℤ pos b) *ℤ q) + b * q ≡ neg_part ((pos a -ℤ pos b) *ℤ q) + a * q
sold_parts a b q = mul_parts a b q

-- the profit is the net premium less what the spread is worth
worth :
    (opt : InstrumentType) (long short spot : ℕ) (bought sold : Leg)
    → IsVertical bought sold
    → let p = expiry_pnl opt long short spot bought sold in
      let net = net_premium (pair bought sold) in
      pos_part p + neg_part net + intrinsic opt short spot * bought.qty
      ≡ neg_part p + pos_part net + intrinsic opt long spot * bought.qty
unfolding net_premium
worth opt long short spot bought sold v =
    rw (v.is_bought, v.is_sold, v.same_qty)
      (omega (
        arith,
        +ℤ_parts ((pos (intrinsic opt long spot) -ℤ pos bought.entry) *ℤ bought.qty)
            ((pos sold.entry -ℤ pos (intrinsic opt short spot)) *ℤ bought.qty),
        mul_parts (intrinsic opt long spot) bought.entry bought.qty,
        mul_parts sold.entry (intrinsic opt short spot) bought.qty,
        -ℤ_parts (pos 0) (pos (bought.entry * bought.qty)),
        +ℤ_parts (pos (sold.entry * bought.qty)) (pos 0),
        +ℤ_parts (pos 0 -ℤ pos (bought.entry * bought.qty))
            (pos (sold.entry * bought.qty) +ℤ pos 0),
      ))

-- the worth of a credit spread, times the quantity, is at most its width
spread_room :
    (opt : InstrumentType) (long short spot q : ℕ) (credit : Bool)
    → IsCreditSpread opt long short
    → (intrinsic opt long spot * q ≤ intrinsic opt short spot * q)
      × (intrinsic opt short spot * q
          ≤ intrinsic opt long spot * q + structure_width (vertical credit opt long short) * q)
spread_room opt long short spot q credit h =
    let (lo, hi) = spread_worth opt long short spot credit h in
    (
      mul-le-mul_right q lo,
      omega (
        arith,
        mul-le-mul_right q hi,
        add-mul (intrinsic opt long spot) (structure_width (vertical credit opt long short)) q,
      ),
    )

-- A credit vertical that was filled for a premium received cannot lose more at expiry than the
-- maximum loss that is worked out from its fills, nor make more than the maximum profit, wherever
-- the underlying ends.
pub fill_based_risk-IsBetween :
    (credit : Bool) (opt : InstrumentType) (long short spot : ℕ) (bought sold : Leg)
    → IsVertical bought sold
    → IsCreditSpread opt long short
    → IsReceived (net_premium (pair bought sold))
    → let (net, loss, profit) =
        fill_based_risk (vertical credit opt long short) (pair bought sold) in
      IsBetween (expiry_pnl opt long short spot bought sold) loss profit
unfolding fill_based_risk
fill_based_risk-IsBetween credit opt long short spot bought sold v c r =
    let q = bought.qty in
    let (lo, hi) = spread_room opt long short spot q credit c in
    received (net_premium (pair bought sold)) (expiry_pnl opt long short spot bought sold)
      (intrinsic opt short spot * q - intrinsic opt long spot * q)
      (structure_width (vertical credit opt long short) * q) r
      (omega (arith, worth opt long short spot bought sold v)) (omega arith)

full_width :
    (long short spot q : ℕ)
    → short < long
    → long ≤ spot
    → (spot - short) * q ≡ (spot - long) * q + structure_width (vertical true ce long short) * q
unfolding structure_width
full_width long short spot q h k =
    let e : spot - short ≡ (spot - long) + ((short - long) + (long - short)) = omega arith in
    ap (λ (t : ℕ). t * q) e ∙ add-mul (spot - long) ((short - long) + (long - short)) q

-- A call credit spread that was filled for a premium paid, of a paisa or more, loses more than the
-- maximum loss that is worked out from its fills wherever the underlying ends at or above its long
-- strike: its width is not counted.
pub fill_based_risk_understated :
    (long short spot d : ℕ) (bought sold : Leg)
    → IsVertical bought sold
    → short < long
    → long ≤ spot
    → 0 < structure_width (vertical true ce long short) * bought.qty
    → net_premium (pair bought sold) ≡ negsuc d
    → 100 ≤ d + 1
    → let p = expiry_pnl ce long short spot bought sold in
      pos_part p + (fill_based_risk (vertical true ce long short) (pair bought sold)).1 < neg_part p
unfolding fill_based_risk
fill_based_risk_understated long short spot d bought sold v h k w n e =
    let q = bought.qty in
    paid (net_premium (pair bought sold)) (expiry_pnl ce long short spot bought sold)
      (structure_width (vertical true ce long short) * q) d n e w
      (omega (arith, worth ce long short spot bought sold v, full_width long short spot q h k))
