-- ===== src/Engine.antt =====
-- The decisions of the engine: confidence, the learned filter, the language model and the chain.
pub mod Confidence
pub mod MetaLabel
pub mod Context
pub mod Orchestrator
