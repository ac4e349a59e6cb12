-- ===== src/Interpreter/Run.antt =====
-- crates/syllog-interpreter/src/lib.rs: `call` and `execute`. The `loop` over the blocks and the
-- recursion on calls share one fuel, spent on each block that is entered.
use syllog.Prelude.{
  ℕ, zero, suc, ◌+◌, not, List, [], ◌∷◌, Option, none, some, ltb, ◌==◌, min, if◌then◌else◌,
  get_elem?, length, set, replicate, ok, err, u32_max,
}
use syllog.Ir.Syntax.{
  DefId, BlockId, Statement, Terminator, goto, switch_int, BasicBlock, MirFunction, MirProgram,
}
use syllog.Ir.Verify.Typing.{find_function}
use syllog.Ir.Verify.Program.{verify}
use syllog.Interpreter.Value.{Value, RuntimeValue, into_runtime, Values, nil, cons, values_length}
use syllog.Interpreter.Machine.{
  InterpreterLimits, invalid_mir, missing_entry, call_depth_limit_exceeded, trap,
  invalid_argument_count, absent_block_target, return_destination_empty, Outcome, done, fail, panic,
  out_of_fuel, Locals, State, M, ◌>>=◌, ◌>>◌, pure, trap_with, tick,
}
use syllog.Interpreter.Eval.{operands, integer_operand, assign_place, execute_statement}

pub record ExecutionResult : Type 0 where
  pub value : RuntimeValue
  pub stdout : List ℕ
  pub drops_executed : ℕ

-- The run of a function from a block, at a call depth, on its frame.
abbrev pub Runner : Type 0
Runner = MirFunction → BlockId → ℕ → M Value

-- `for (index, argument) in arguments { locals[index + 1] = Some(argument); }`, from an index on.
unfoldable pub fill : ℕ → Values → Locals → Outcome Locals
fill index nil locals = done locals
fill index (cons v vs) locals =
    let rest = fill (index + 1) vs (set locals (index + 1) (some v)) in
    if ltb (index + 1) (length locals) then rest else panic

-- The first target whose value is the scrutinee's.
unfoldable pub switch_target : ℕ → List (ℕ × BlockId) → BlockId → BlockId
switch_target value [] otherwise = otherwise
switch_target value ((candidate, target) ∷ targets) otherwise =
    if candidate == value then target else switch_target value targets otherwise

-- `locals[0].take().ok_or_else(…)`; the index panics where there are no locals.
unfoldable pub take_result : M Value
take_result s = elim (get_elem? s.locals 0) [
  | none ↦ panic
  | some none ↦ fail (trap return_destination_empty)
  | some (some v) ↦ done (v, record s { locals = set s.locals 0 none })
]

module _ (functions : List MirFunction) (limits : InterpreterLimits) where
  -- The callee's frame replaces the caller's until the callee returns.
  unfoldable pub enter : Runner → MirFunction → Values → ℕ → M Value
  enter again f arguments depth s = elim (fill 0 arguments (replicate (length f.locals) none)) [
    | fail e ↦ fail e
    | panic ↦ panic
    | out_of_fuel ↦ out_of_fuel
    | done locals ↦ elim (again f 0 depth (record s { locals = locals })) [
      | done (v, s') ↦ done (v, record s' { locals = s.locals })
      | fail e ↦ fail e
      | panic ↦ panic
      | out_of_fuel ↦ out_of_fuel
    ]
  ]

  unfoldable pub call : Runner → DefId → Values → ℕ → M Value
  call again id arguments depth s =
      if ltb limits.max_call_depth depth
      then fail (call_depth_limit_exceeded limits.max_call_depth)
      else elim (find_function functions id) [
        | none ↦ fail (missing_entry id)
        | some f ↦
            if not (values_length arguments == f.parameter_count)
            then fail (trap invalid_argument_count)
            else enter again f arguments depth s
      ]

  unfoldable pub execute_statements : List Statement → M (Unit {0})
  execute_statements [] = pure tt
  execute_statements (statement ∷ rest) = do
    tick limits
    execute_statement limits statement
    execute_statements rest

  unfoldable pub execute_terminator : Runner → MirFunction → ℕ → Terminator → M Value
  execute_terminator again f depth Terminator.return = take_result
  execute_terminator again f depth (goto target) = again f target depth
  execute_terminator again f depth (switch_int value targets otherwise) = do
    n ← integer_operand limits value
    again f (switch_target n targets otherwise) depth
  execute_terminator again f depth (Terminator.call function args destination next) = do
    vs ← operands limits args
    v ← call again function vs (min (depth + 1) u32_max)
    assign_place destination v
    again f next depth

  -- `.expect("verified MIR has a terminator")`
  unfoldable pub execute_end : Runner → MirFunction → ℕ → Option Terminator → M Value
  execute_end again f depth none s = panic
  execute_end again f depth (some t) s = execute_terminator again f depth t s

  unfoldable pub execute_block : Runner → MirFunction → ℕ → BasicBlock → M Value
  execute_block again f depth block = do
    execute_statements block.statements
    tick limits
    execute_end again f depth block.terminator

  unfoldable pub execute_at : Runner → MirFunction → BlockId → ℕ → M Value
  execute_at again f block depth = elim (get_elem? f.blocks block) [
    | none ↦ trap_with absent_block_target
    | some b ↦ execute_block again f depth b
  ]

  unfoldable pub run : ℕ → Runner
  run zero f block depth s = out_of_fuel
  run (suc fuel) f block depth s = execute_at (run fuel) f block depth s

abbrev pub initial_state : State
initial_state = record {
  machine = record { instructions = 0; allocated_bytes = 0; stdout = []; drops_executed = 0 };
  locals = [];
}

abbrev pub execution_result : Outcome (Value × State) → Outcome ExecutionResult
execution_result (done (v, s)) = done (record {
  value = into_runtime v;
  stdout = s.machine.stdout;
  drops_executed = s.machine.drops_executed;
})
execution_result (fail e) = fail e
execution_result panic = panic
execution_result out_of_fuel = out_of_fuel

-- Each block that is entered ticks at least once, so `max_instructions + 1` blocks are enough.
unfoldable pub execute : MirProgram → DefId → InterpreterLimits → Outcome ExecutionResult
execute program entry limits = elim (verify program) [
  | err errors ↦ fail (invalid_mir errors)
  | ok _ ↦ execution_result (
      call program.functions limits (run program.functions limits (suc limits.max_instructions))
        entry nil 1 initial_state)
]
