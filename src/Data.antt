-- ===== src/Data.antt =====
-- The market data under data/.
pub mod Candles
pub mod RateGovernor
pub mod Watchdog
