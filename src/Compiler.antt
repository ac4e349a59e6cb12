-- ===== src/Compiler.antt =====
-- The middle of the compiler: types of crates/syllog-semantic/src/types.rs, the typed HIR of
-- crates/syllog-compiler/src/hir.rs, and passes over it.
pub mod Types
pub mod Hir
pub mod AsyncLower
pub mod Effects
