-- ===== src/Execution/Executor/Slices.antt =====
-- `_slice` of execution/executor.py: a freeze-quantity order in clips.
use native.Mathlib.Nat.{div-add-mod', mod-lt}
use ai_trading_system.Base.{
  ℕ, ◌/◌, ◌%◌, ◌≤◌, ◌<◌, ◌≡◌, ◌||◌, List, [], ◌∷◌, ◌++◌, arith, leb, ◌==◌, if◌then◌else◌, replicate,
  Bool-cases, inl, inr, sum, sum-append, sum-replicate, All, All-append, All-replicate,
}

unfoldable pub slice : ℕ → ℕ → List ℕ
slice quantity clip =
    if leb clip 0 || leb quantity clip
    then quantity ∷ []
    else if quantity % clip == 0
    then replicate (quantity / clip) clip
    else replicate (quantity / clip) clip ++ (quantity % clip ∷ [])

-- The clips add up to the quantity.
pub sum-slice : (quantity clip : ℕ) → sum (slice quantity clip) ≡ quantity
unfolding slice
sum-slice quantity clip = ground (
  arith,
  sum-append (replicate (quantity / clip) clip) (quantity % clip ∷ []),
  sum-replicate (quantity / clip) clip,
  div-add-mod' quantity clip,
)

-- an order that the exchange takes
abbrev pub IsClip : ℕ → ℕ → Type 0
IsClip clip c = (0 < c) × (c ≤ clip)

-- Of a positive quantity and a positive clip size, each clip is positive and at most the clip size.
pub slice-IsClip :
    (quantity clip : ℕ) → 0 < quantity → 0 < clip → All (IsClip clip) (slice quantity clip)
unfolding slice
slice-IsClip quantity clip some_qty some_clip =
    elim (Bool-cases (leb clip 0 || leb quantity clip)) [
      | inl p ↦ rw p (ground arith)
      | inr q ↦ rw q (elim (Bool-cases (quantity % clip == 0)) [
        | inl r ↦ rw r (All-replicate (IsClip clip) (quantity / clip) clip (some_clip, omega arith))
        | inr r ↦ rw r (
            All-append (IsClip clip) (replicate (quantity / clip) clip) (quantity % clip ∷ [])
              (All-replicate (IsClip clip) (quantity / clip) clip (some_clip, omega arith))
              ((ground arith, omega (arith, mod-lt quantity some_clip)), tt))
      ])
    ]
