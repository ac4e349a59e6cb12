-- ===== src/Ir.antt =====
-- The crate crates/syllog-ir: the types of MIR and the effect manifest (lib.rs), and the verifier
-- (verify.rs).
pub mod Syntax
pub mod Capability
pub mod Verify
