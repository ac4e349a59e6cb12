-- ===== src/Interpreter.antt =====
-- The crate crates/syllog-interpreter: values, errors and state, the evaluation of operands, places
-- and operations, and the run of a function.
pub mod Value
pub mod Machine
pub mod Arith
pub mod Eval
pub mod Run
pub mod Safety
pub mod Total
pub mod Limits
