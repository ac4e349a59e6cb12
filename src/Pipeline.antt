-- ===== src/Pipeline.antt =====
-- crates/syllog-runtime/src/pipeline.rs: the production pipeline executor.
pub mod Types
pub mod Log
pub mod Circuit
pub mod Stage
pub mod Groups
pub mod CircuitRefine
pub mod Retries
pub mod Deadlines
pub mod Joins
