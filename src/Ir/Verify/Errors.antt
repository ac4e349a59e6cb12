-- ===== src/Ir/Verify/Errors.antt =====
-- crates/syllog-ir/src/verify.rs: the verification errors. The first argument of each is the
-- function, the second, where there is one, the block.
use syllog.Prelude.{ℕ}
use syllog.Ir.Syntax.{DefId, BlockId, LocalId, MirType}

pub data VerificationError : Type 0 where
  use_after_move double_drop invalid_copy overwrite_without_drop :
      DefId → BlockId → LocalId → VerificationError
  empty_function : DefId → VerificationError
  missing_terminator : DefId → BlockId → VerificationError
  invalid_block_target : DefId → BlockId → BlockId → VerificationError
  invalid_local use_before_definition : DefId → BlockId → LocalId → VerificationError
  type_mismatch : DefId → BlockId → MirType → MirType → VerificationError
  unknown_function : DefId → BlockId → DefId → VerificationError
  argument_count : DefId → BlockId → ℕ → ℕ → VerificationError
  invalid_switch_type : DefId → BlockId → MirType → VerificationError
