-- ===== src/Execution.antt =====
-- The order lifecycle under execution/.
pub mod Policy
pub mod Lifecycle
pub mod Costs
pub mod Guards
pub mod Events
pub mod Executor
pub mod Reconcile
pub mod Recovery
pub mod Failsafe
pub mod Structures
pub mod Simulator
mod Tests
