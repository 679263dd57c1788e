-- ===== src/Engine/Context.antt =====
-- `assess` of llm/context.py. The reply of a provider is a parameter, what the code reads of it is a
-- record, and an empty reply is `returned none`. A timeout and an error are `raised`.
use ai_trading_system.Base.{ℕ, Bool, false, Option, none, some, min, or_default}
use ai_trading_system.Base.Int.{ℤ, pos, pos_part}
use ai_trading_system.Broker.{Call, returned, raised}

-- A missing veto is false, a missing downsize is 1.
pub record Reply : Type 0 where
  pub reply_veto : Option Bool
  pub reply_downsize : Option ℤ

pub record Verdict : Type 0 where
  pub veto : Bool
  pub downsize : ℕ

abbrev pub neutral : Verdict
neutral = record { veto = false; downsize = 10_000 }

abbrev pub cut : Reply → Verdict
cut r = record {
  veto = or_default r.reply_veto false;
  downsize = min 10_000 (pos_part (or_default r.reply_downsize (pos 10_000)));
}

-- with no provider the verdict is neutral
unfoldable pub assess : Option (Call (Option Reply)) → Verdict
assess none = neutral
assess (some raised) = neutral
assess (some (returned none)) = neutral
assess (some (returned (some r))) = cut r
