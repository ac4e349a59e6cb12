-- ===== src/Interpreter/Limits/Runs.antt =====
-- Calls and blocks of crates/syllog-interpreter/src/lib.rs and the instruction counter.
use syllog.Prelude.{
  ℕ, zero, suc, ◌+◌, ◌<◌, ◌≤◌, ◌≢◌, arith, Bool, true, false, List, Option, none, some, ltb, ◌==◌,
  min, if◌then◌else◌, get_elem?, set, length, replicate, Bool-cases, Option-cases, inl, inr,
  u32_max, u64_max,
}
use syllog.Ir.Syntax.{DefId, Terminator, goto, switch_int, BasicBlock, MirFunction, MirProgram}
use syllog.Ir.Verify.Typing.{find_function}
use syllog.Interpreter.Value.{Value, Values, nil, cons, values_length}
use syllog.Interpreter.Machine.{
  InterpreterLimits, Outcome, done, fail, panic, out_of_fuel, Locals, State, tick,
}
use syllog.Interpreter.Eval.{assign_place}
use syllog.Interpreter.Run.{
  Runner, fill, switch_target, enter, call, execute_terminator, execute_end, execute_block,
  execute_at, run, initial_state, execution_result, execute,
}
use syllog.Interpreter.Safety.Programs.{verify-cases}
use syllog.Interpreter.Limits.{Settles, Ends, Settles-weaken, Settles-bind}
use syllog.Interpreter.Limits.Actions.{
  take_result-Keeps, operands-Keeps, integer_operand-Keeps, assign_place-Keeps, tick-Settles,
  execute_statements-Keeps,
}

fill-Ends : (index : ℕ) (vs : Values) (locals : Locals) → Ends (fill index vs locals)
unfolding fill
fill-Ends index nil locals = tt
fill-Ends index (cons v vs) locals =
    test (ltb (index + 1) (length locals)) (fill (index + 1) vs (set locals (index + 1) (some v)))
      (fill-Ends (index + 1) vs (set locals (index + 1) (some v)))
  where
    test : (b : Bool) (rest : Outcome Locals) → Ends rest → Ends (if b then rest else panic)
    test true rest h = h
    test false rest h = tt

module _ (functions : List MirFunction) (limits : InterpreterLimits)
    (machine : limits.max_instructions < u64_max) where
  abbrev high : ℕ
  high = limits.max_instructions

  -- A runner that settles where its fuel exceeds the instructions that are left.
  abbrev Within : ℕ → Runner → Type 0
  Within fuel again =
      (f : MirFunction) (k depth : ℕ) (s : State)
      → s.machine.instructions ≤ high
      → high < fuel + s.machine.instructions
      → Settles s.machine.instructions high (again f k depth s)

  module _ (fuel : ℕ) (again : Runner) (within : Within fuel again) where
    -- The caller's locals come back with the callee's result.
    restore :
        (low : ℕ) (locals : Locals) (r : Outcome (Value × State))
        → Settles low high r
        → Settles {A = Value} low high (elim r [
          | done (v, s') ↦ done (v, record s' { locals = locals })
          | fail e ↦ fail e
          | panic ↦ panic
          | out_of_fuel ↦ out_of_fuel
        ])
    restore low locals (done (v, s)) h = h
    restore low locals (fail e) h = h
    restore low locals panic h = h
    restore low locals out_of_fuel h = h

    enter_lem :
        (f : MirFunction) (vs : Values) (depth : ℕ) (s : State)
        → s.machine.instructions ≤ high
        → high < fuel + s.machine.instructions
        → Settles s.machine.instructions high (enter functions limits again f vs depth s)
    unfolding enter
    enter_lem f vs depth s le enough =
        go (fill 0 vs (replicate (length f.locals) none))
          (fill-Ends 0 vs (replicate (length f.locals) none))
      where
        go :
            (r : Outcome Locals)
            → Ends r
            → Settles {A = Value} s.machine.instructions high (elim r [
              | fail e ↦ fail e
              | panic ↦ panic
              | out_of_fuel ↦ out_of_fuel
              | done locals ↦ elim (again f 0 depth (record s { locals = locals })) [
                | done (v, s') ↦ done (v, record s' { locals = s.locals })
                | fail e ↦ fail e
                | panic ↦ panic
                | out_of_fuel ↦ out_of_fuel
              ]
            ])
        go (done locals) h =
            restore s.machine.instructions s.locals _
              (within f 0 depth (record s { locals = locals }) le enough)
        go (fail e) h = tt
        go panic h = tt
        go out_of_fuel h = h

    pub call_lem :
        (id : DefId) (vs : Values) (depth : ℕ) (s : State)
        → s.machine.instructions ≤ high
        → high < fuel + s.machine.instructions
        → Settles s.machine.instructions high (call functions limits again id vs depth s)
    unfolding call
    call_lem id vs depth s le enough = elim (Bool-cases (ltb limits.max_call_depth depth)) [
      | inl deep ↦ rw (deep, call) tt
      | inr shallow ↦ elim (Option-cases (find_function functions id)) [
        | inl missing ↦ rw (shallow, missing, call) tt
        | inr (g, found) ↦ elim (Bool-cases (values_length vs == g.parameter_count)) [
          | inr other ↦ rw (shallow, found, other, call) tt
          | inl same ↦ rw (shallow, found, same, call) (enter_lem g vs depth s le enough)
        ]
      ]
    ]

    execute_terminator_lem :
        (f : MirFunction) (depth : ℕ) (t : Terminator) (s : State)
        → s.machine.instructions ≤ high
        → high < fuel + s.machine.instructions
        → Settles s.machine.instructions high
            (execute_terminator functions limits again f depth t s)
    unfolding execute_terminator
    execute_terminator_lem f depth Terminator.return s le enough = take_result-Keeps high s le
    execute_terminator_lem f depth (goto target) s le enough = within f target depth s le enough
    execute_terminator_lem f depth (switch_int value targets otherwise) s le enough =
        Settles-bind _ high _ _ (integer_operand-Keeps high limits value s le) λ n s₁ low₁ le₁.
          Settles-weaken _ _ _ (again f (switch_target n targets otherwise) depth s₁) low₁
            (within f (switch_target n targets otherwise) depth s₁ le₁ (omega arith))
    execute_terminator_lem f depth (Terminator.call id args destination next) s le enough =
        let start = s.machine.instructions in
        Settles-bind start high _ _ (operands-Keeps high limits args s le) λ vs s₁ low₁ le₁.
          Settles-bind start high _ _
            (Settles-weaken _ _ _ (call functions limits again id vs (min (depth + 1) u32_max) s₁)
              low₁ (call_lem id vs (min (depth + 1) u32_max) s₁ le₁ (omega arith)))
            λ v s₂ low₂ le₂.
              Settles-bind start high _ _
                (Settles-weaken _ _ _ (assign_place destination v s₂) low₂
                  (assign_place-Keeps high destination v s₂ le₂))
                λ _ s₃ low₃ le₃.
                  Settles-weaken _ _ _ (again f next depth s₃) low₃
                    (within f next depth s₃ le₃ (omega arith))

    execute_end_lem :
        (f : MirFunction) (depth : ℕ) (t : Option Terminator) (s : State)
        → s.machine.instructions ≤ high
        → high < fuel + s.machine.instructions
        → Settles s.machine.instructions high (execute_end functions limits again f depth t s)
    unfolding execute_end
    execute_end_lem f depth none s le enough = tt
    execute_end_lem f depth (some t) s le enough = execute_terminator_lem f depth t s le enough

    execute_block_lem :
        (f : MirFunction) (depth : ℕ) (b : BasicBlock) (s : State)
        → s.machine.instructions ≤ high
        → high < suc fuel + s.machine.instructions
        → Settles s.machine.instructions high (execute_block functions limits again f depth b s)
    unfolding execute_block
    execute_block_lem f depth b s le enough =
        let start = s.machine.instructions in
        Settles-bind start high _ _
          (execute_statements-Keeps limits machine functions b.statements s le)
          λ _ s₁ low₁ le₁. Settles-weaken (suc start) start high _ (omega arith) (
            Settles-bind (suc start) high _ _
              (Settles-weaken _ _ _ (tick limits s₁) (omega (arith, low₁))
                (tick-Settles limits machine s₁ le₁))
              λ _ s₂ low₂ le₂.
                Settles-weaken _ _ _ (execute_end functions limits again f depth b.terminator s₂)
                  low₂ (execute_end_lem f depth b.terminator s₂ le₂ (omega arith)))

    execute_at_lem : Within (suc fuel) (execute_at functions limits again)
    unfolding execute_at
    execute_at_lem f k depth s le enough = elim (Option-cases (get_elem? f.blocks k)) [
      | inl e ↦ rw (e, execute_at) tt
      | inr (b, e) ↦ rw (e, execute_at) (execute_block_lem f depth b s le enough)
    ]

  run-Within : (fuel : ℕ) → Within fuel (run functions limits fuel)
  unfolding run
  run-Within zero f k depth s le enough = absurd (omega arith)
  run-Within (suc fuel) f k depth s le enough =
      execute_at_lem fuel (run functions limits fuel) (run-Within fuel) f k depth s le enough

  -- A call ends, with an instruction counter that is neither below its start nor above the limit,
  -- where the fuel exceeds the instructions that are left, the counter starts within the limit and
  -- the limit is below the greatest `u64`.
  pub call-run-Settles :
      (fuel : ℕ) (id : DefId) (vs : Values) (depth : ℕ) (s : State)
      → s.machine.instructions ≤ limits.max_instructions
      → limits.max_instructions < fuel + s.machine.instructions
      → Settles s.machine.instructions limits.max_instructions
          (call functions limits (run functions limits fuel) id vs depth s)
  call-run-Settles fuel = call_lem fuel (run functions limits fuel) (run-Within fuel)

ends_lem :
    (low high : ℕ) (r : Outcome (Value × State))
    → Settles low high r
    → execution_result r ≢ out_of_fuel
ends_lem low high (done (v, s)) h e = cc e
ends_lem low high (fail x) h e = cc e
ends_lem low high panic h e = cc e
ends_lem low high out_of_fuel h e = h

-- Every execution ends by itself, where the instruction limit is below the greatest `u64`.
pub execute-ne-out_of_fuel :
    (program : MirProgram) (entry : DefId) (limits : InterpreterLimits)
    → limits.max_instructions < u64_max
    → execute program entry limits ≢ out_of_fuel
unfolding execute
execute-ne-out_of_fuel program entry limits machine e = elim (verify-cases program) [
  | inr (es, rejected) ↦ ground arith
  | inl accepted ↦
      ends_lem 0 limits.max_instructions _
        (call-run-Settles program.functions limits machine (suc limits.max_instructions) entry nil 1
          initial_state (omega arith) (omega arith))
        (rw (accepted, execute) at e)
]
