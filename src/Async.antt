-- ===== src/Async.antt =====
-- Async functions: the state machines of crates/syllog-ir/src/lib.rs, their construction in
-- crates/syllog-compiler/src/async_lower.rs, and their runs in crates/syllog-runtime/src/task.rs.
pub mod Machine
pub mod Lower
pub mod Task
