-- ===== src/Broker.antt =====
-- The broker: broker/base.py as an interface, and broker/mock_broker.py as an implementation of it.
mod Types
pub mod MockBroker
mod Tests
pub use Types.*
