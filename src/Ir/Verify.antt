-- ===== src/Ir/Verify.antt =====
-- The verifier, crates/syllog-ir/src/verify.rs: its errors, sets of locals, the control-flow graph,
-- the two dataflow analyses, and the checks over their results.
pub mod Errors
pub mod LocalSet
pub mod Control
pub mod Dataflow
pub mod Transfer
pub mod Ownership
pub mod Typing
pub mod Program
pub mod Safety
