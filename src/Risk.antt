-- ===== src/Risk.antt =====
-- risk/: how much a trade may risk.
pub mod Scope
pub mod Positions
pub mod Capital
pub mod Sizing
pub mod Engine
pub mod Circuits
pub mod KillSwitch
mod Tests
