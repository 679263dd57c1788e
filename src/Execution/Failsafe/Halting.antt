-- ===== src/Execution/Failsafe/Halting.antt =====
-- What `safe_exit_all` of execution/failsafe.py leaves behind.
use mathlib.Core.List.{Memᴰ}
use ai_trading_system.Base.{Option, List}
use ai_trading_system.Base.Dict.{Dict}
