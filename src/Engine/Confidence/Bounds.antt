-- ===== src/Engine/Confidence/Bounds.antt =====
-- The confidence that reaches the sizing is never above 1, and each filter only lowers it.
use native.Mathlib.Nat.{mul-le-mul_right, mul-le-mul_left}
use ai_trading_system.Base.{
  ℕ, ◌-◌, ◌*◌, ◌≤◌, ◌<◌, ◌≡◌, false, ◌||◌, List, [], ◌∷◌, arith, ltb, leb, ltb→lt, Bool-cases, inl,
  inr, or_default, All,
}
use ai_trading_system.Base.Round.Bounds.{round_half_even-le}
use ai_trading_system.Engine.Confidence.{GateResult, ConfidenceModel, sums, score}
use ai_trading_system.Engine.MetaLabel.{MetaLabeler, assess}

-- a score of a gate that the runner added
abbrev pub IsScore : GateResult → Type 0
IsScore g = g.score ≤ 10_000

sums-le :
    (m : ConfidenceModel) (gates : List GateResult)
    → All IsScore gates
    → (sums m gates).0 ≤ 10_000 * (sums m gates).1
sums-le m [] h = omega arith
sums-le m (g ∷ gs) (h, hs) =
    omega
      (arith, sums-le m gs hs, mul-le-mul_left (or_default (m.weights g.name) m.default_weight) h)

-- A weighted mean of scores from 0 to 1 is at most 1.
pub score-le :
    (m : ConfidenceModel) (gates : List GateResult) → All IsScore gates → score m gates ≤ 10_000
unfolding score
score-le m gates h = elim (Bool-cases (ltb 0 (sums m gates).1)) [
  | inl e ↦ rw e (
      round_half_even-le (sums m gates).0 (sums m gates).1 10_000 (ltb→lt 0 (sums m gates).1 e)
        (sums-le m gates h))
  | inr e ↦ rw e (omega arith)
]

in_band : (p v n : ℕ) → ltb p v ≡ false → (leb n p || leb n v) ≡ false → (v ≤ p) × (p < n)
in_band p v n h h' = ground arith

-- The filter never answers more than 1, where its floor is at most 1.
pub assess-le : (m : MetaLabeler) (p : ℕ) → m.soft_floor ≤ 10_000 → assess m p ≤ 10_000
unfolding assess
assess-le m p h = elim (Bool-cases (ltb p m.veto_below)) [
  | inl e ↦ rw e (omega arith)
  | inr e ↦ elim (Bool-cases (leb m.neutral_above p || leb m.neutral_above m.veto_below)) [
    | inl f ↦ rw (e, f) (omega arith)
    | inr f ↦
        let (above, below) = in_band p m.veto_below m.neutral_above e f in
        rw (e, f)
          (round_half_even-le _ (m.neutral_above - m.veto_below) 10_000
            (omega (arith, above, below))
            (omega (arith, mul-le-mul_right (m.neutral_above - p) h, above, below)))
  ]
]
