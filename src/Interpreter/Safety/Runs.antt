-- ===== src/Interpreter/Safety/Runs.antt =====
-- A run of an accepted function, in crates/syllog-interpreter/src/lib.rs, from a block that it can
-- be at, on a frame that holds what the analysis found there.
use syllog.Prelude.{
  ℕ, zero, suc, ◌+◌, ◌≡◌, refl, ◌∙◌, true, List, [], ◌∷◌, ◌++◌, map, Option, none, some, arith,
  length, get_elem?, get_elem?_of_lt-length, Bool-cases, inl, inr, ltb, ==_iff, min, u32_max,
}
use syllog.Ir.Syntax.{DefId, BlockId, Terminator, goto, switch_int, BasicBlock, MirFunction}
use syllog.Ir.Verify.LocalSet.{LocalSet, contains}
use syllog.Ir.Verify.Control.{successors, block_successors}
use syllog.Ir.Verify.Dataflow.Fixpoint.{Subset}
use syllog.Ir.Verify.Transfer.{
  consume_operand, consume_operands, define_place, consume_terminator, consume_end,
  transfer_statements, transfer_block,
}
use syllog.Ir.Verify.Typing.{find_function}
use syllog.Ir.Verify.Safety.{TerminatorSafe, EndSafe}
use syllog.Ir.Verify.Safety.Certificate.{
  targets_of, Accepted, Good, Good-entry, Good-safe, Good-step,
}
use syllog.Interpreter.Value.{Value, Values, values_length}
use syllog.Interpreter.Machine.{InterpreterLimits, State}
use syllog.Interpreter.Run.{
  Runner, switch_target, take_result, enter, call, execute_terminator, execute_end, execute_block,
  execute_at, run,
}
use syllog.Interpreter.Safety.{Ensures, Ensures-bind}
use syllog.Interpreter.Safety.Arguments.{arguments_lem, switch_target-successor}
use syllog.Interpreter.Safety.Frame.{Frame, Frame-weaken, Leaves, tick-Leaves, assign_place-Leaves}
use syllog.Interpreter.Safety.Steps.{
  LeavesValues, operands-Leaves, integer_operand-Leaves, execute_statements-Leaves,
}

module _ (functions : List MirFunction) (limits : InterpreterLimits)
    (accepted : (id : DefId) (g : MirFunction)
      → find_function functions id ≡ some g
      → Accepted functions g) where
  -- A runner that is safe from each block that a run of an accepted function can be at.
  abbrev SafeRunner : Runner → Type 0
  SafeRunner again =
      (f : MirFunction) (k depth : ℕ) (s : State) (held : LocalSet)
      → Accepted functions f
      → Good functions f k held
      → Frame (length f.locals) held s
      → Ensures (λ _. Unit {0}) (again f k depth s)

  module _ (again : Runner) (safe : SafeRunner again) where
    enter_lem :
        (n : ℕ) (held : LocalSet) (g : MirFunction) (vs : Values) (depth : ℕ) (s : State)
        → Accepted functions g
        → values_length vs ≡ g.parameter_count
        → Frame n held s
        → Ensures (Leaves n held) (enter functions limits again g vs depth s)
    unfolding enter
    enter_lem n held g vs depth s acc count frame =
        let (t, e, size, covers) = arguments_lem g vs count acc.fits in
        let (held', good, sub) = Good-entry functions g acc in
        rw (e, enter)
          (Ensures-bind (λ _. Unit {0}) (Leaves n held) _ _
            (safe g 0 depth (record s { locals = t }) held' acc good
              (record { size = size; covers = λ l h. covers l (sub l h) }))
            λ v s' _. record { size = frame.size; covers = frame.covers })

    call_lem :
        (n : ℕ) (held : LocalSet) (id : DefId) (g : MirFunction) (vs : Values) (depth : ℕ)
        (s : State)
        → find_function functions id ≡ some g
        → values_length vs ≡ g.parameter_count
        → Frame n held s
        → Ensures (Leaves n held) (call functions limits again id vs depth s)
    unfolding call
    call_lem n held id g vs depth s e count frame =
        elim (Bool-cases (ltb limits.max_call_depth depth)) [
          | inl deep ↦ rw (deep, call) tt
          | inr fits ↦
              rw (fits, e, call, (==_iff (values_length vs) g.parameter_count).1 count)
                (enter_lem n held g vs depth s (accepted id g e) count frame)
        ]

    -- Where a safe terminator leads: to blocks that the run can be at, with what it leaves.
    abbrev Onward : MirFunction → List BlockId → LocalSet → Type 0
    Onward f targets left =
        (c : BlockId)
        → contains targets c ≡ true
        → (held : LocalSet) × Good functions f c held × Subset held left

    again_lem :
        (f : MirFunction) (targets : List BlockId) (left : LocalSet) (c depth : ℕ) (s : State)
        → Accepted functions f
        → Onward f targets left
        → contains targets c ≡ true
        → Frame (length f.locals) left s
        → Ensures (λ _. Unit {0}) (again f c depth s)
    again_lem f targets left c depth s acc onward member frame =
        let (held, good, sub) = onward c member in
        safe f c depth s held acc good (Frame-weaken (length f.locals) left held s sub frame)

    execute_terminator_lem :
        (f : MirFunction) (t : Terminator) (depth : ℕ) (s : State) (held : LocalSet)
        → Accepted functions f
        → TerminatorSafe functions f t held
        → Onward f (successors t) (consume_terminator t held)
        → Frame (length f.locals) held s
        → Ensures (λ _. Unit {0}) (execute_terminator functions limits again f depth t s)
    unfolding execute_terminator consume_terminator successors contains
    execute_terminator_lem f Terminator.return depth s held acc h onward frame =
        returned (frame.covers 0 h)
      where
        returned :
            (v : Value) × (get_elem? s.locals 0 ≡ some (some v))
            → Ensures (λ _. Unit {0}) (take_result s)
        returned (v, e) = unfold take_result in rw (e, take_result) tt
    execute_terminator_lem f (goto target) depth s held acc h onward frame =
        again_lem f (target ∷ []) held target depth s acc onward (ground arith) frame
    execute_terminator_lem f (switch_int value targets otherwise) depth s held acc h onward frame =
        let left = consume_operand value held in
        Ensures-bind (Leaves (length f.locals) left) (λ _. Unit {0}) _ _
          (integer_operand-Leaves limits (length f.locals) held s value frame h)
          λ n s₁ f₁.
            again_lem f (map (λ t. t.1) targets ++ otherwise ∷ []) left
              (switch_target n targets otherwise) depth s₁ acc onward
              (switch_target-successor n targets otherwise) f₁
    execute_terminator_lem f (Terminator.call id args destination next) depth s held acc h onward
          frame =
        let n = length f.locals in
        let (g, found, count) = h.2 in
        let middle = consume_operands args held in
        let left = define_place destination middle in
        Ensures-bind (LeavesValues n middle (length args)) (λ _. Unit {0}) _ _
          (operands-Leaves limits n held s args frame h.0)
          λ vs s₁ f₁.
            Ensures-bind (Leaves n middle) (λ _. Unit {0}) _ _
              (call_lem n middle id g vs (min (depth + 1) u32_max) s₁ found (f₁.1 ∙ count) f₁.0)
              λ v s₂ f₂.
                Ensures-bind (Leaves n left) (λ _. Unit {0}) _ _
                  (assign_place-Leaves n middle s₂ destination v f₂ h.1)
                  λ _ s₃ f₃. again_lem f (next ∷ []) left next depth s₃ acc onward (ground arith) f₃

    execute_end_lem :
        (f : MirFunction) (t : Option Terminator) (depth : ℕ) (s : State) (held : LocalSet)
        → Accepted functions f
        → EndSafe functions f t held
        → Onward f (targets_of functions f t) (consume_end t held)
        → Frame (length f.locals) held s
        → Ensures (λ _. Unit {0}) (execute_end functions limits again f depth t s)
    unfolding execute_end consume_end
    execute_end_lem f none depth s held acc h onward frame = absurd h
    execute_end_lem f (some t) depth s held acc h onward frame =
        execute_terminator_lem f t depth s held acc h onward frame

    execute_block_lem :
        (f : MirFunction) (k depth : ℕ) (b : BasicBlock) (s : State) (held : LocalSet)
        → Accepted functions f
        → Good functions f k held
        → get_elem? f.blocks k ≡ some b
        → Frame (length f.locals) held s
        → Ensures (λ _. Unit {0}) (execute_block functions limits again f depth b s)
    unfolding execute_block transfer_block block_successors
    execute_block_lem f k depth b s held acc good e frame =
        let n = length f.locals in
        let block_safe = Good-safe functions f acc k held b good e in
        let onward = λ (c : BlockId). Good-step functions f acc k c b held good e in
        let middle = transfer_statements b.statements held in
        Ensures-bind (Leaves n middle) (λ _. Unit {0}) _ _
          (execute_statements-Leaves limits n functions f held s b.statements refl frame
            block_safe.0)
          λ _ s₁ f₁.
            Ensures-bind (Leaves n middle) (λ _. Unit {0}) _ _ (tick-Leaves n middle s₁ f₁ limits)
              λ _ s₂ f₂. execute_end_lem f b.terminator depth s₂ middle acc block_safe.1 onward f₂

    execute_at_lem : SafeRunner (execute_at functions limits again)
    unfolding execute_at
    execute_at_lem f k depth s held acc good frame =
        let (b, e) = get_elem?_of_lt-length f.blocks k good.in_range in
        rw (e, execute_at) (execute_block_lem f k depth b s held acc good e frame)

  run_lem : (fuel : ℕ) → SafeRunner (run functions limits fuel)
  unfolding run
  run_lem zero f k depth s held acc good frame = tt
  run_lem (suc fuel) f k depth s held acc good frame =
      execute_at_lem (run functions limits fuel) (run_lem fuel) f k depth s held acc good frame

  -- A call of a function that exists, with as many arguments as it has parameters.
  pub call-run_lem :
      (fuel : ℕ) (n : ℕ) (held : LocalSet) (id : DefId) (g : MirFunction) (vs : Values) (depth : ℕ)
      (s : State)
      → find_function functions id ≡ some g
      → values_length vs ≡ g.parameter_count
      → Frame n held s
      → Ensures (Leaves n held) (call functions limits (run functions limits fuel) id vs depth s)
  call-run_lem fuel = call_lem (run functions limits fuel) (run_lem fuel)
