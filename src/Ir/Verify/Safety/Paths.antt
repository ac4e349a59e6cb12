-- ===== src/Ir/Verify/Safety/Paths.antt =====
-- `verify` of crates/syllog-ir/src/verify.rs and the paths of the functions that it accepts.
use syllog.Ir.Verify.LocalSet.{LocalSet}
