-- ===== src/Common.antt =====
-- The shared services under common/.
pub mod State
pub mod InstrumentMeta
pub mod RuntimeMode
pub mod PreLive
pub mod ModeTransition
pub mod Commands
pub mod TickBuffer
pub mod AuditChain
mod Tests
