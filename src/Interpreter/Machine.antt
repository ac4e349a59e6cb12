-- ===== src/Interpreter/Machine.antt =====
-- crates/syllog-interpreter/src/lib.rs: limits, errors, the machine, and the two counters that every
-- step charges. An action runs on the machine and the locals of the current frame; an error ends the
-- whole run, so it carries no state.
use syllog.Prelude.{ℕ, ◌*◌, List, Option, ltb, if◌then◌else◌, saturating_add}
use syllog.Ir.Syntax.{DefId}
use syllog.Ir.Verify.Errors.{VerificationError}
use syllog.Interpreter.Value.{Value}

pub record InterpreterLimits : Type 0 where
  pub max_instructions : ℕ
  pub max_call_depth : ℕ
  pub max_allocated_bytes : ℕ
  pub max_output_bytes : ℕ

unfoldable pub default_limits : InterpreterLimits
default_limits = record {
  max_instructions = 1_000_000;
  max_call_depth = 256;
  max_allocated_bytes = 64 * 1024 * 1024;
  max_output_bytes = 1024 * 1024;
}

-- The message of a `Trap`, one constructor for each text in the source.
pub data TrapMessage : Type 0 where
  u64_addition_overflow u64_subtraction_overflow u64_multiplication_overflow : TrapMessage
  u64_division_by_zero i64_addition_overflow i64_subtraction_overflow : TrapMessage
  i64_multiplication_overflow i64_division_failure invalid_binary_types : TrapMessage
  negative_switch_value switch_not_integer discriminant_not_aggregate : TrapMessage
  field_base_empty field_base_not_aggregate field_out_of_range : TrapMessage
  invalid_argument_count absent_block_target return_destination_empty : TrapMessage
  local_empty moved_local_empty local_out_of_range drop_target_empty : TrapMessage

-- `InvalidMir` holds the debug print of the errors; here it holds the errors.
pub data RuntimeError : Type 0 where
  invalid_mir : List VerificationError → RuntimeError
  missing_entry : DefId → RuntimeError
  instruction_limit_exceeded call_depth_limit_exceeded : ℕ → RuntimeError
  allocation_limit_exceeded output_limit_exceeded : ℕ → RuntimeError
  trap : TrapMessage → RuntimeError

-- `fail` is `Err`, `panic` a Rust panic (a failed `expect`, an index out of range), and
-- `out_of_fuel` is the model's own.
pub data Outcome (A : Type 0) : Type 0 where
  done : A → Outcome A
  fail : RuntimeError → Outcome A
  panic out_of_fuel : Outcome A

abbrev pub Locals : Type 0
Locals = List (Option Value)

pub record Machine : Type 0 where
  pub instructions : ℕ
  pub allocated_bytes : ℕ
  pub stdout : List ℕ
  pub drops_executed : ℕ

pub record State : Type 0 where
  pub machine : Machine
  pub locals : Locals

abbrev pub M : Type 0 → Type 0
M A = State → Outcome (A × State)

infixl 5 ◌>>=◌ ◌>>◌
abbrev pub ◌>>=◌ : {A B : Type 0} → M A → (A → M B) → M B
◌>>=◌ m f s = elim (m s) [
  | done (a, s') ↦ f a s'
  | fail e ↦ fail e
  | panic ↦ panic
  | out_of_fuel ↦ out_of_fuel
]

abbrev pub ◌>>◌ : {B : Type 0} → M (Unit {0}) → M B → M B
m >> k = m >>= λ _. k

abbrev pub pure : {A : Type 0} → A → M A
pure a s = done (a, s)

abbrev pub trap_with : {A : Type 0} → TrapMessage → M A
trap_with message s = fail (trap message)

module _ (limits : InterpreterLimits) where
  unfoldable pub tick : M (Unit {0})
  tick s =
      let n = saturating_add s.machine.instructions 1 in
      if ltb limits.max_instructions n
      then fail (instruction_limit_exceeded limits.max_instructions)
      else done (tt, record s { machine = record (s.machine) { instructions = n } })

  unfoldable pub charge_allocation : ℕ → M (Unit {0})
  charge_allocation bytes s =
      let n = saturating_add s.machine.allocated_bytes bytes in
      if ltb limits.max_allocated_bytes n
      then fail (allocation_limit_exceeded limits.max_allocated_bytes)
      else done (tt, record s { machine = record (s.machine) { allocated_bytes = n } })
