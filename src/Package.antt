-- ===== src/Package.antt =====
-- The crate crates/syllog-package: releases and their index, and the resolver.
pub mod Release
pub mod Constraint
pub mod Search
pub mod Solution
pub mod Sound
pub mod Ends
pub mod Induction
