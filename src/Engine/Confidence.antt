-- ===== src/Engine/Confidence.antt =====
-- engine/confidence.py, and the gates of strategies/base.py that it scores. Scores, weights and
-- confidence are counted in 1/10000, a weighted mean is the exact fraction rounded as the code
-- rounds it. A gate's name is a number.
pub mod Bounds
use ai_trading_system.Base.{
  ℕ, ◌+◌, ◌*◌, ◌/◌, ◌≤◌, ◌<◌, ◌≡◌, Bool, true, false, Option, none, some, List, [], ◌∷◌, ◌++◌,
  arith, leb, ltb, if◌then◌else◌, or_default, min, All, All-append, length, inl, inr, Bool-cases,
}
use ai_trading_system.Base.Int.{ℤ, pos_part}
use ai_trading_system.Base.Round.{round_half_even}

pub record GateResult : Type 0 where
  pub name : ℕ
  pub passed : Bool
  pub score : ℕ

-- `GateRunner.add`, which also answers `passed`; a score is cut to the range from 0 to 1
unfoldable pub add : ℕ → Bool → ℤ → List GateResult → Bool × List GateResult
add name passed score gates = (
  passed,
  gates ++ (record { name = name; passed = passed; score = min 10_000 (pos_part score) } ∷ []),
)

-- the sum and the number of the scores of the gates that passed
abbrev pub scored : List GateResult → ℕ × ℕ
scored [] = (0, 0)
scored (g ∷ gs) =
    let (total, count) = scored gs in
    if g.passed then (g.score + total, 1 + count) else (total, count)

-- `_confidence`, which the runner itself reports
unfoldable pub mean_confidence : List GateResult → ℕ
unfolding round_half_even
mean_confidence gates =
    let (total, count) = scored gates in if ltb 0 count then round_half_even total count else 0

pub record ConfidenceModel : Type 0 where
  pub weights : ℕ → Option ℕ
  pub default_weight : ℕ
  pub min_confidence : ℕ

-- the sums `num` and `den` over all gates
abbrev pub sums : ConfidenceModel → List GateResult → ℕ × ℕ
sums m [] = (0, 0)
sums m (g ∷ gs) =
    let (num, den) = sums m gs in
    let w = or_default (m.weights g.name) m.default_weight in (w * g.score + num, w + den)

unfoldable pub score : ConfidenceModel → List GateResult → ℕ
unfolding round_half_even
score m gates = let (num, den) = sums m gates in if ltb 0 den then round_half_even num den else 0

unfoldable pub passes : ConfidenceModel → ℕ → Bool
passes m confidence = leb m.min_confidence confidence
