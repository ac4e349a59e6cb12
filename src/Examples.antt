-- ===== src/Examples.antt =====
-- Small MIR programs and async machines: runs of crates/syllog-interpreter/src/lib.rs and
-- crates/syllog-runtime/src/task.rs on them, and the theorems at concrete inputs.
pub mod Functions
pub mod Packages
pub mod Pipelines
pub mod Routes
use syllog.Prelude.{ℕ, ◌≡◌, ◌≢◌, refl, arith, true, List, [], ◌∷◌, some, ok, ◌↔◌}
use syllog.Ir.Syntax.{
  DefId, LocalId, Constant, Operand, constant, copy, move, Place, BinaryOp, add, less, Rvalue,
  use_operand, binary, Statement, assign, MirType, Terminator, goto, switch_int, BasicBlock,
  MirFunction, MirProgram, def_id_eq,
}
use syllog.Ir.Capability.{io, from_source, as_str, from_source_iff}
use syllog.Ir.Verify.LocalSet.{LocalSet, contains}
use syllog.Ir.Verify.Control.{successors, block_successors, marked, reachable_blocks}
use syllog.Ir.Verify.Control.Reach.{Reach, reachable_blocks_iff}
use syllog.Ir.Verify.Dataflow.{state_at, parameters, total_size, propagate}
use syllog.Ir.Verify.Dataflow.Fixpoint.{Subset}
use syllog.Ir.Verify.Dataflow.Walks.{Walk, at_entry, along, Holds, Given}
use syllog.Ir.Verify.Dataflow.Meaning.{available_locals-Holds, definite_initialization-Given}
use syllog.Ir.Verify.Transfer.{
  transfer_block, initialize_block, available_locals, definite_initialization,
}
use syllog.Ir.Verify.Ownership.{check_block_ownership}
use syllog.Ir.Verify.Typing.{find_function}
use syllog.Ir.Verify.Program.{verify}
use syllog.Ir.Verify.Safety.Agree.{check_block-state}
use syllog.Interpreter.Value.{RuntimeValue, Value, Values, nil, cons}
use syllog.Interpreter.Machine.{
  InterpreterLimits, trap, field_base_empty, Outcome, done, fail, panic, out_of_fuel,
}
use syllog.Interpreter.Run.{call, run, initial_state, execute}
use syllog.Interpreter.Total.{Completes, execute-Completes}
use syllog.Interpreter.Safety.Programs.{execute-ne-panic}
use syllog.Interpreter.Limits.{Settles}
use syllog.Interpreter.Limits.Runs.{call-run-Settles, execute-ne-out_of_fuel}
use syllog.Async.Machine.{AsyncTransition, AsyncStateMachine, verify_async_machine}
use syllog.Async.Lower.{state_of, build_machine}
use syllog.Async.Lower.Valid.{verify_async_machine-build_machine}
use syllog.Async.Task.{
  TaskControl, panic_at, TaskEvent, started, suspended, woken, resumed, dropped, TaskFailure,
  failed, cancels, panics, run_deterministic_task,
}
use syllog.Async.Task.Trace.{trace, panics_within, run_deterministic_task-build_machine}

abbrev id_of : ℕ → DefId
id_of n = record { module_id = 0; index = n }

abbrev block : List Statement → Terminator → BasicBlock
block statements terminator = record { statements = statements; terminator = some terminator }

abbrev set_local : ℕ → Rvalue → Statement
set_local l value = assign (Place.local l) value

-- `fn bump(x: u64) -> u64 { if x < 10 { x + 1 } else { x } }`
abbrev bump : MirFunction
bump = record {
  id = id_of 1;
  parameter_count = 1;
  return_type = MirType.u64;
  locals = MirType.u64 ∷ MirType.u64 ∷ MirType.bool ∷ [];
  blocks =
      block (set_local 2 (binary less (copy 1) (constant (Constant.u64 10))) ∷ [])
        (switch_int (copy 2) ((1, 1) ∷ []) 2)
      ∷ block (set_local 0 (binary add (move 1) (constant (Constant.u64 1))) ∷ []) (goto 3)
      ∷ block (set_local 0 (use_operand (copy 1)) ∷ []) (goto 3)
      ∷ block [] Terminator.return
      ∷ [];
}

-- `fn main() -> u64 { let x = 6; bump(x) }`
abbrev main : MirFunction
main = record {
  id = id_of 0;
  parameter_count = 0;
  return_type = MirType.u64;
  locals = MirType.u64 ∷ MirType.u64 ∷ [];
  blocks =
      block (set_local 1 (use_operand (constant (Constant.u64 6))) ∷ [])
        (Terminator.call (id_of 1) (move 1 ∷ []) (Place.local 0) 1)
      ∷ block [] Terminator.return
      ∷ [];
}

abbrev program : MirProgram
program = record { functions = main ∷ bump ∷ []; entry = some (id_of 0) }

abbrev small_limits : InterpreterLimits
small_limits = record {
  max_instructions = 100;
  max_call_depth = 8;
  max_allocated_bytes = 1000;
  max_output_bytes = 10;
}

-- `bump(6)` is 7.
program-result :
    execute program (id_of 0) small_limits
    ≡ done (record { value = RuntimeValue.u64 7; stdout = []; drops_executed = 0 })
unfolding syllog.Ir.Syntax.ty syllog.Ir.Syntax.def_id_eq syllog.Ir.Syntax.mir_type_eq
    syllog.Ir.Verify.LocalSet.contains syllog.Ir.Verify.LocalSet.insert
    syllog.Ir.Verify.LocalSet.remove syllog.Ir.Verify.LocalSet.intersection
    syllog.Ir.Verify.LocalSet.set_eq syllog.Ir.Verify.LocalSet.range
    syllog.Ir.Verify.Control.place_local syllog.Ir.Verify.Control.successors
    syllog.Ir.Verify.Control.block_successors syllog.Ir.Verify.Control.marked
    syllog.Ir.Verify.Control.edges syllog.Ir.Verify.Control.reachable_blocks
    syllog.Ir.Verify.Dataflow.state_at syllog.Ir.Verify.Dataflow.universe
    syllog.Ir.Verify.Dataflow.parameters syllog.Ir.Verify.Dataflow.initial
    syllog.Ir.Verify.Dataflow.total_size syllog.Ir.Verify.Dataflow.follows
    syllog.Ir.Verify.Dataflow.merge syllog.Ir.Verify.Dataflow.relax
    syllog.Ir.Verify.Dataflow.relax_all syllog.Ir.Verify.Dataflow.flow_block
    syllog.Ir.Verify.Dataflow.flow_blocks syllog.Ir.Verify.Dataflow.propagate
    syllog.Ir.Verify.Dataflow.analyze syllog.Ir.Verify.Transfer.consume_operand
    syllog.Ir.Verify.Transfer.consume_operands syllog.Ir.Verify.Transfer.consume_rvalue
    syllog.Ir.Verify.Transfer.define_place syllog.Ir.Verify.Transfer.consume_terminator
    syllog.Ir.Verify.Transfer.transfer_statement syllog.Ir.Verify.Transfer.transfer_statements
    syllog.Ir.Verify.Transfer.consume_end syllog.Ir.Verify.Transfer.transfer_block
    syllog.Ir.Verify.Transfer.initialize_statement syllog.Ir.Verify.Transfer.initialize_statements
    syllog.Ir.Verify.Transfer.initialize_end syllog.Ir.Verify.Transfer.initialize_block
    syllog.Ir.Verify.Transfer.initialize_blocks syllog.Ir.Verify.Transfer.ever_initialized
    syllog.Ir.Verify.Transfer.definite_initialization syllog.Ir.Verify.Transfer.available_locals
    syllog.Ir.Verify.Ownership.mir_type_is_copy syllog.Ir.Verify.Ownership.is_affine
    syllog.Ir.Verify.Ownership.check_read syllog.Ir.Verify.Ownership.check_operand_ownership
    syllog.Ir.Verify.Ownership.check_operands_ownership
    syllog.Ir.Verify.Ownership.check_rvalue_ownership syllog.Ir.Verify.Ownership.check_overwrite
    syllog.Ir.Verify.Ownership.check_statement_ownership
    syllog.Ir.Verify.Ownership.check_statements_ownership
    syllog.Ir.Verify.Ownership.check_terminator_ownership
    syllog.Ir.Verify.Ownership.check_end_ownership syllog.Ir.Verify.Ownership.check_block_ownership
    syllog.Ir.Verify.Ownership.check_reached_ownership
    syllog.Ir.Verify.Ownership.check_blocks_ownership
    syllog.Ir.Verify.Ownership.verify_affine_ownership syllog.Ir.Verify.Typing.find_function
    syllog.Ir.Verify.Typing.type_error syllog.Ir.Verify.Typing.verify_local_use
    syllog.Ir.Verify.Typing.operand_type syllog.Ir.Verify.Typing.place_type_of
    syllog.Ir.Verify.Typing.place_type syllog.Ir.Verify.Typing.operands_errors
    syllog.Ir.Verify.Typing.binary_type syllog.Ir.Verify.Typing.binary_checked
    syllog.Ir.Verify.Typing.verify_rvalue syllog.Ir.Verify.Typing.expect_type
    syllog.Ir.Verify.Typing.define_typed syllog.Ir.Verify.Typing.verify_statement
    syllog.Ir.Verify.Typing.verify_statements syllog.Ir.Verify.Typing.is_switch_type
    syllog.Ir.Verify.Typing.switch_errors syllog.Ir.Verify.Typing.arguments_errors
    syllog.Ir.Verify.Typing.call_errors syllog.Ir.Verify.Typing.verify_terminator
    syllog.Ir.Verify.Typing.verify_end syllog.Ir.Verify.Typing.verify_block
    syllog.Ir.Verify.Typing.verify_blocks syllog.Ir.Verify.Typing.target_errors
    syllog.Ir.Verify.Typing.callee_errors syllog.Ir.Verify.Typing.verify_target
    syllog.Ir.Verify.Typing.verify_targets syllog.Ir.Verify.Typing.verify_body
    syllog.Ir.Verify.Typing.verify_function syllog.Ir.Verify.Program.verify_functions
    syllog.Ir.Verify.Program.verify syllog.Interpreter.Value.get_value?
    syllog.Interpreter.Value.into_runtime syllog.Interpreter.Value.into_runtimes
    syllog.Interpreter.Arith.binary syllog.Interpreter.Eval.local_value
    syllog.Interpreter.Eval.local_value_mut syllog.Interpreter.Eval.write_local
    syllog.Interpreter.Eval.take_local syllog.Interpreter.Eval.constant_value
    syllog.Interpreter.Eval.operand syllog.Interpreter.Eval.operands
    syllog.Interpreter.Eval.field_of syllog.Interpreter.Eval.with_field
    syllog.Interpreter.Eval.write_field syllog.Interpreter.Eval.assign_place
    syllog.Interpreter.Eval.read_place syllog.Interpreter.Eval.count_drop
    syllog.Interpreter.Eval.drop_place syllog.Interpreter.Eval.discriminant_of
    syllog.Interpreter.Eval.switch_value syllog.Interpreter.Eval.rvalue
    syllog.Interpreter.Eval.integer_operand syllog.Interpreter.Eval.execute_statement
    syllog.Interpreter.Run.fill syllog.Interpreter.Run.switch_target
    syllog.Interpreter.Run.take_result syllog.Interpreter.Run.enter syllog.Interpreter.Run.call
    syllog.Interpreter.Run.execute_statements syllog.Interpreter.Run.execute_terminator
    syllog.Interpreter.Run.execute_end syllog.Interpreter.Run.execute_block
    syllog.Interpreter.Run.execute_at syllog.Interpreter.Run.run syllog.Interpreter.Run.execute
    syllog.Interpreter.Machine.tick syllog.Interpreter.Machine.charge_allocation
program-result = refl

-- A program that writes a field of a local that nothing has given a value.
abbrev field_first : MirFunction
field_first = record {
  id = id_of 0;
  parameter_count = 0;
  return_type = MirType.u64;
  locals = MirType.u64 ∷ MirType.aggregate (id_of 9) ∷ [];
  blocks =
      block
        (assign (Place.field 1 0) (use_operand (constant (Constant.u64 5)))
          ∷ set_local 0 (use_operand (constant (Constant.u64 1)))
          ∷ [])
        Terminator.return
      ∷ [];
}

abbrev field_program : MirProgram
field_program = record { functions = field_first ∷ []; entry = some (id_of 0) }

-- The verifier accepts it.
field_program-accepted : verify field_program ≡ ok tt
unfolding syllog.Ir.Syntax.ty syllog.Ir.Syntax.def_id_eq syllog.Ir.Syntax.mir_type_eq
    syllog.Ir.Verify.LocalSet.contains syllog.Ir.Verify.LocalSet.insert
    syllog.Ir.Verify.LocalSet.remove syllog.Ir.Verify.LocalSet.intersection
    syllog.Ir.Verify.LocalSet.set_eq syllog.Ir.Verify.LocalSet.range
    syllog.Ir.Verify.Control.place_local syllog.Ir.Verify.Control.successors
    syllog.Ir.Verify.Control.block_successors syllog.Ir.Verify.Control.marked
    syllog.Ir.Verify.Control.edges syllog.Ir.Verify.Control.reachable_blocks
    syllog.Ir.Verify.Dataflow.state_at syllog.Ir.Verify.Dataflow.universe
    syllog.Ir.Verify.Dataflow.parameters syllog.Ir.Verify.Dataflow.initial
    syllog.Ir.Verify.Dataflow.total_size syllog.Ir.Verify.Dataflow.follows
    syllog.Ir.Verify.Dataflow.merge syllog.Ir.Verify.Dataflow.relax
    syllog.Ir.Verify.Dataflow.relax_all syllog.Ir.Verify.Dataflow.flow_block
    syllog.Ir.Verify.Dataflow.flow_blocks syllog.Ir.Verify.Dataflow.propagate
    syllog.Ir.Verify.Dataflow.analyze syllog.Ir.Verify.Transfer.consume_operand
    syllog.Ir.Verify.Transfer.consume_operands syllog.Ir.Verify.Transfer.consume_rvalue
    syllog.Ir.Verify.Transfer.define_place syllog.Ir.Verify.Transfer.consume_terminator
    syllog.Ir.Verify.Transfer.transfer_statement syllog.Ir.Verify.Transfer.transfer_statements
    syllog.Ir.Verify.Transfer.consume_end syllog.Ir.Verify.Transfer.transfer_block
    syllog.Ir.Verify.Transfer.initialize_statement syllog.Ir.Verify.Transfer.initialize_statements
    syllog.Ir.Verify.Transfer.initialize_end syllog.Ir.Verify.Transfer.initialize_block
    syllog.Ir.Verify.Transfer.initialize_blocks syllog.Ir.Verify.Transfer.ever_initialized
    syllog.Ir.Verify.Transfer.definite_initialization syllog.Ir.Verify.Transfer.available_locals
    syllog.Ir.Verify.Ownership.mir_type_is_copy syllog.Ir.Verify.Ownership.is_affine
    syllog.Ir.Verify.Ownership.check_read syllog.Ir.Verify.Ownership.check_operand_ownership
    syllog.Ir.Verify.Ownership.check_operands_ownership
    syllog.Ir.Verify.Ownership.check_rvalue_ownership syllog.Ir.Verify.Ownership.check_overwrite
    syllog.Ir.Verify.Ownership.check_statement_ownership
    syllog.Ir.Verify.Ownership.check_statements_ownership
    syllog.Ir.Verify.Ownership.check_terminator_ownership
    syllog.Ir.Verify.Ownership.check_end_ownership syllog.Ir.Verify.Ownership.check_block_ownership
    syllog.Ir.Verify.Ownership.check_reached_ownership
    syllog.Ir.Verify.Ownership.check_blocks_ownership
    syllog.Ir.Verify.Ownership.verify_affine_ownership syllog.Ir.Verify.Typing.find_function
    syllog.Ir.Verify.Typing.type_error syllog.Ir.Verify.Typing.verify_local_use
    syllog.Ir.Verify.Typing.operand_type syllog.Ir.Verify.Typing.place_type_of
    syllog.Ir.Verify.Typing.place_type syllog.Ir.Verify.Typing.operands_errors
    syllog.Ir.Verify.Typing.binary_type syllog.Ir.Verify.Typing.binary_checked
    syllog.Ir.Verify.Typing.verify_rvalue syllog.Ir.Verify.Typing.expect_type
    syllog.Ir.Verify.Typing.define_typed syllog.Ir.Verify.Typing.verify_statement
    syllog.Ir.Verify.Typing.verify_statements syllog.Ir.Verify.Typing.is_switch_type
    syllog.Ir.Verify.Typing.switch_errors syllog.Ir.Verify.Typing.arguments_errors
    syllog.Ir.Verify.Typing.call_errors syllog.Ir.Verify.Typing.verify_terminator
    syllog.Ir.Verify.Typing.verify_end syllog.Ir.Verify.Typing.verify_block
    syllog.Ir.Verify.Typing.verify_blocks syllog.Ir.Verify.Typing.target_errors
    syllog.Ir.Verify.Typing.callee_errors syllog.Ir.Verify.Typing.verify_target
    syllog.Ir.Verify.Typing.verify_targets syllog.Ir.Verify.Typing.verify_body
    syllog.Ir.Verify.Typing.verify_function syllog.Ir.Verify.Program.verify_functions
    syllog.Ir.Verify.Program.verify
field_program-accepted = refl

-- Its run ends in a trap, on the field write.
field_program-trap : execute field_program (id_of 0) small_limits ≡ fail (trap field_base_empty)
unfolding syllog.Ir.Syntax.ty syllog.Ir.Syntax.def_id_eq syllog.Ir.Syntax.mir_type_eq
    syllog.Ir.Verify.LocalSet.contains syllog.Ir.Verify.LocalSet.insert
    syllog.Ir.Verify.LocalSet.remove syllog.Ir.Verify.LocalSet.intersection
    syllog.Ir.Verify.LocalSet.set_eq syllog.Ir.Verify.LocalSet.range
    syllog.Ir.Verify.Control.place_local syllog.Ir.Verify.Control.successors
    syllog.Ir.Verify.Control.block_successors syllog.Ir.Verify.Control.marked
    syllog.Ir.Verify.Control.edges syllog.Ir.Verify.Control.reachable_blocks
    syllog.Ir.Verify.Dataflow.state_at syllog.Ir.Verify.Dataflow.universe
    syllog.Ir.Verify.Dataflow.parameters syllog.Ir.Verify.Dataflow.initial
    syllog.Ir.Verify.Dataflow.total_size syllog.Ir.Verify.Dataflow.follows
    syllog.Ir.Verify.Dataflow.merge syllog.Ir.Verify.Dataflow.relax
    syllog.Ir.Verify.Dataflow.relax_all syllog.Ir.Verify.Dataflow.flow_block
    syllog.Ir.Verify.Dataflow.flow_blocks syllog.Ir.Verify.Dataflow.propagate
    syllog.Ir.Verify.Dataflow.analyze syllog.Ir.Verify.Transfer.consume_operand
    syllog.Ir.Verify.Transfer.consume_operands syllog.Ir.Verify.Transfer.consume_rvalue
    syllog.Ir.Verify.Transfer.define_place syllog.Ir.Verify.Transfer.consume_terminator
    syllog.Ir.Verify.Transfer.transfer_statement syllog.Ir.Verify.Transfer.transfer_statements
    syllog.Ir.Verify.Transfer.consume_end syllog.Ir.Verify.Transfer.transfer_block
    syllog.Ir.Verify.Transfer.initialize_statement syllog.Ir.Verify.Transfer.initialize_statements
    syllog.Ir.Verify.Transfer.initialize_end syllog.Ir.Verify.Transfer.initialize_block
    syllog.Ir.Verify.Transfer.initialize_blocks syllog.Ir.Verify.Transfer.ever_initialized
    syllog.Ir.Verify.Transfer.definite_initialization syllog.Ir.Verify.Transfer.available_locals
    syllog.Ir.Verify.Ownership.mir_type_is_copy syllog.Ir.Verify.Ownership.is_affine
    syllog.Ir.Verify.Ownership.check_read syllog.Ir.Verify.Ownership.check_operand_ownership
    syllog.Ir.Verify.Ownership.check_operands_ownership
    syllog.Ir.Verify.Ownership.check_rvalue_ownership syllog.Ir.Verify.Ownership.check_overwrite
    syllog.Ir.Verify.Ownership.check_statement_ownership
    syllog.Ir.Verify.Ownership.check_statements_ownership
    syllog.Ir.Verify.Ownership.check_terminator_ownership
    syllog.Ir.Verify.Ownership.check_end_ownership syllog.Ir.Verify.Ownership.check_block_ownership
    syllog.Ir.Verify.Ownership.check_reached_ownership
    syllog.Ir.Verify.Ownership.check_blocks_ownership
    syllog.Ir.Verify.Ownership.verify_affine_ownership syllog.Ir.Verify.Typing.find_function
    syllog.Ir.Verify.Typing.type_error syllog.Ir.Verify.Typing.verify_local_use
    syllog.Ir.Verify.Typing.operand_type syllog.Ir.Verify.Typing.place_type_of
    syllog.Ir.Verify.Typing.place_type syllog.Ir.Verify.Typing.operands_errors
    syllog.Ir.Verify.Typing.binary_type syllog.Ir.Verify.Typing.binary_checked
    syllog.Ir.Verify.Typing.verify_rvalue syllog.Ir.Verify.Typing.expect_type
    syllog.Ir.Verify.Typing.define_typed syllog.Ir.Verify.Typing.verify_statement
    syllog.Ir.Verify.Typing.verify_statements syllog.Ir.Verify.Typing.is_switch_type
    syllog.Ir.Verify.Typing.switch_errors syllog.Ir.Verify.Typing.arguments_errors
    syllog.Ir.Verify.Typing.call_errors syllog.Ir.Verify.Typing.verify_terminator
    syllog.Ir.Verify.Typing.verify_end syllog.Ir.Verify.Typing.verify_block
    syllog.Ir.Verify.Typing.verify_blocks syllog.Ir.Verify.Typing.target_errors
    syllog.Ir.Verify.Typing.callee_errors syllog.Ir.Verify.Typing.verify_target
    syllog.Ir.Verify.Typing.verify_targets syllog.Ir.Verify.Typing.verify_body
    syllog.Ir.Verify.Typing.verify_function syllog.Ir.Verify.Program.verify_functions
    syllog.Ir.Verify.Program.verify syllog.Interpreter.Value.get_value?
    syllog.Interpreter.Value.into_runtime syllog.Interpreter.Value.into_runtimes
    syllog.Interpreter.Arith.binary syllog.Interpreter.Eval.local_value
    syllog.Interpreter.Eval.local_value_mut syllog.Interpreter.Eval.write_local
    syllog.Interpreter.Eval.take_local syllog.Interpreter.Eval.constant_value
    syllog.Interpreter.Eval.operand syllog.Interpreter.Eval.operands
    syllog.Interpreter.Eval.field_of syllog.Interpreter.Eval.with_field
    syllog.Interpreter.Eval.write_field syllog.Interpreter.Eval.assign_place
    syllog.Interpreter.Eval.read_place syllog.Interpreter.Eval.count_drop
    syllog.Interpreter.Eval.drop_place syllog.Interpreter.Eval.discriminant_of
    syllog.Interpreter.Eval.switch_value syllog.Interpreter.Eval.rvalue
    syllog.Interpreter.Eval.integer_operand syllog.Interpreter.Eval.execute_statement
    syllog.Interpreter.Run.fill syllog.Interpreter.Run.switch_target
    syllog.Interpreter.Run.take_result syllog.Interpreter.Run.enter syllog.Interpreter.Run.call
    syllog.Interpreter.Run.execute_statements syllog.Interpreter.Run.execute_terminator
    syllog.Interpreter.Run.execute_end syllog.Interpreter.Run.execute_block
    syllog.Interpreter.Run.execute_at syllog.Interpreter.Run.run syllog.Interpreter.Run.execute
    syllog.Interpreter.Machine.tick syllog.Interpreter.Machine.charge_allocation
field_program-trap = refl

-- A machine whose start enters a resume, with no await behind it.
abbrev resume_first : AsyncStateMachine
resume_first = record {
  function = id_of 3;
  parent_scope_required = true;
  live_locals = [];
  states =
      state_of 0 (AsyncTransition.start 1)
      ∷ state_of 1 (AsyncTransition.resume 2 3)
      ∷ state_of 2 AsyncTransition.complete
      ∷ state_of 3 (AsyncTransition.cancel [])
      ∷ [];
}

-- The verifier accepts it, and its run ends in an invalid state.
resume_first-invalid :
    run_deterministic_task 3 3 resume_first 7 TaskControl.complete
    ≡ failed (TaskFailure.invalid_runtime_state 1)
unfolding syllog.Async.Machine.contiguous syllog.Async.Machine.transition_targets
    syllog.Async.Machine.target_errors syllog.Async.Machine.graph_errors
    syllog.Async.Machine.completions syllog.Async.Machine.cancellations
    syllog.Async.Machine.table_errors syllog.Async.Machine.parent_errors
    syllog.Async.Machine.terminal_errors syllog.Async.Machine.machine_errors
    syllog.Async.Machine.verify_async_machine syllog.Async.Task.turn_resume
    syllog.Async.Task.turn_on syllog.Async.Task.turn syllog.Async.Task.advance
    syllog.Async.Task.run_steps syllog.Async.Task.run_deterministic_task
resume_first-invalid = refl

execute-Completes_example : Completes (execute program (id_of 0) small_limits)
unfolding find_function def_id_eq
execute-Completes_example =
    execute-Completes program (id_of 0) small_limits main refl refl (omega arith)

execute-ne-panic_example : execute field_program (id_of 0) small_limits ≢ panic
execute-ne-panic_example = execute-ne-panic field_program (id_of 0) small_limits

execute-ne-out_of_fuel_example : execute program (id_of 0) small_limits ≢ out_of_fuel
execute-ne-out_of_fuel_example = execute-ne-out_of_fuel program (id_of 0) small_limits (omega arith)

call-run-Settles_example : Settles 0 100 (
    call program.functions small_limits
      (run program.functions small_limits 101)
      (id_of 1)
      (cons (Value.u64 6) nil)
      1
      initial_state)
call-run-Settles_example =
    call-run-Settles program.functions small_limits (omega arith) 101 (id_of 1)
      (cons (Value.u64 6) nil) 1 initial_state (omega arith) (omega arith)

-- The blocks of `bump`.
abbrev bump_test : BasicBlock
bump_test =
    block (set_local 2 (binary less (copy 1) (constant (Constant.u64 10))) ∷ [])
      (switch_int (copy 2) ((1, 1) ∷ []) 2)

abbrev bump_add : BasicBlock
bump_add = block (set_local 0 (binary add (move 1) (constant (Constant.u64 1))) ∷ []) (goto 3)

check_block-state_example :
    (check_block_ownership bump 1 (0 ∷ 1 ∷ 2 ∷ []) bump_add (1 ∷ 2 ∷ [])).0
    ≡ transfer_block bump_add (1 ∷ 2 ∷ [])
check_block-state_example = check_block-state bump 1 (0 ∷ 1 ∷ 2 ∷ []) bump_add (1 ∷ 2 ∷ [])

reachable_blocks_iff_example : (marked (reachable_blocks bump) 3 ≡ true) ↔ Reach bump.blocks 3
reachable_blocks_iff_example = reachable_blocks_iff bump 3 (omega arith)

-- The way through the block that moves the parameter.
abbrev bump_walk : Walk bump 3 (bump_add ∷ bump_test ∷ [])
unfolding contains block_successors successors
bump_walk =
    along {b = 1} bump_add (along {b = 0} bump_test at_entry refl refl (omega arith)) refl refl
      (omega arith)

available_locals-Holds_example :
    (s : LocalSet) × (state_at (available_locals bump) 3 ≡ some s)
    × ((l : LocalId) → contains s l ≡ true → Holds l bump (bump_add ∷ bump_test ∷ []))
available_locals-Holds_example =
    available_locals-Holds bump (omega arith) 3 (bump_add ∷ bump_test ∷ []) bump_walk

definite_initialization-Given_example :
    (s : LocalSet) × (state_at (definite_initialization bump) 3 ≡ some s)
    × ((l : LocalId) → contains s l ≡ true → Given l bump (bump_add ∷ bump_test ∷ []))
definite_initialization-Given_example =
    definite_initialization-Given bump (omega arith) 3 (bump_add ∷ bump_test ∷ []) bump_walk

verify_async_machine-build_machine_example :
    verify_async_machine (build_machine (id_of 3) 2 (id_of 4 ∷ [])) ≡ ok tt
verify_async_machine-build_machine_example =
    verify_async_machine-build_machine 2 (id_of 4 ∷ []) (omega arith) (id_of 3)

run_deterministic_task-build_machine_example :
    run_deterministic_task 3 4 (build_machine (id_of 3) 2 (id_of 4 ∷ [])) 7 (panic_at 1)
    ≡ failed (
        TaskFailure.panicked (
          started 7
          ∷ suspended 0
          ∷ woken 0
          ∷ resumed 0
          ∷ suspended 1
          ∷ woken 1
          ∷ resumed 1
          ∷ TaskEvent.panicked
          ∷ dropped (id_of 4 ∷ [])
          ∷ []))
unfolding panics_within trace panics cancels
run_deterministic_task-build_machine_example =
    run_deterministic_task-build_machine (id_of 3) 2 (id_of 4 ∷ []) (panic_at 1) (omega arith) 0 7 3
      (omega arith)

from_source_iff_example : (from_source "io" ≡ some io) ↔ ("io" ≡ as_str io)
from_source_iff_example = from_source_iff "io" io
