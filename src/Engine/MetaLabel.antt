-- ===== src/Engine/MetaLabel.antt =====
-- The filter of research/meta_label.py, in 1/10000. The probability that the model predicts is a
-- parameter. The quotient of the code is written with one denominator, so that no difference is
-- below 0.
use ai_trading_system.Base.{ℕ, ◌+◌, ◌-◌, ◌*◌, ◌||◌, ltb, leb, if◌then◌else◌}
use ai_trading_system.Base.Round.{round_half_even}

pub record MetaLabeler : Type 0 where
  pub veto_below : ℕ
  pub neutral_above : ℕ
  pub soft_floor : ℕ

unfoldable pub assess : MetaLabeler → ℕ → ℕ
unfolding round_half_even
assess m p =
    if ltb p m.veto_below
    then 0
    else if leb m.neutral_above p || leb m.neutral_above m.veto_below
    then 10_000
    else round_half_even (m.soft_floor * (m.neutral_above - p) + 10_000 * (p - m.veto_below))
        (m.neutral_above - m.veto_below)
