-- ===== src/Interpreter/Safety/Programs.antt =====
-- `execute` of crates/syllog-interpreter/src/lib.rs, which verifies a program before it runs it.
use syllog.Prelude.{
  ◌≡◌, ◌≢◌, refl, List, [], some, Option-cases, Bool-cases, inl, inr, ltb, ◌==◌, ==_iff, Result, ok,
  err, suc, ◌⊎◌, arith,
}
use syllog.Ir.Syntax.{DefId, MirFunction, MirProgram}
use syllog.Ir.Verify.Errors.{VerificationError}
use syllog.Ir.Verify.LocalSet.{contains}
use syllog.Ir.Verify.Typing.{find_function}
use syllog.Ir.Verify.Program.{verify}
use syllog.Ir.Verify.Safety.Accept.{verify-Accepted}
use syllog.Interpreter.Value.{Value, nil}
use syllog.Interpreter.Machine.{InterpreterLimits, Outcome, done, fail, panic, out_of_fuel, State}
use syllog.Interpreter.Run.{call, initial_state, execution_result, execute}
use syllog.Interpreter.Safety.{Ensures}
use syllog.Interpreter.Safety.Frame.{Frame, Leaves}
use syllog.Interpreter.Safety.Runs.{call-run_lem}

initial-Frame : Frame 0 [] initial_state
unfolding contains
initial-Frame = record { size = refl; covers = λ l h. absurd (cc h) }

execution_result_lem :
    (r : Outcome (Value × State))
    → Ensures (Leaves 0 []) r
    → Ensures (λ _. Unit {0}) (execution_result r)
execution_result_lem (done (v, s)) h = tt
execution_result_lem (fail e) h = h
execution_result_lem panic h = h
execution_result_lem out_of_fuel h = tt

pub verify-cases :
    (program : MirProgram)
    → (verify program ≡ ok tt) ⊎ ((es : List VerificationError) × (verify program ≡ err es))
verify-cases program = go (verify program) refl
  where
    go :
        (r : Result (Unit {0}) (List VerificationError))
        → verify program ≡ r
        → (verify program ≡ ok tt) ⊎ ((es : List VerificationError) × (verify program ≡ err es))
    go (ok u) e = inl e
    go (err es) e = inr (es, e)

module _ (program : MirProgram) (entry : DefId) (limits : InterpreterLimits) where
  -- Where the entry is a function of the program without parameters, an execution of the program
  -- neither panics nor fails by a missing function, by a wrong number of arguments, by an absent
  -- block, or by reading, moving, dropping or returning an empty local or one out of range.
  pub execute-Ensures :
      (g : MirFunction)
      → find_function program.functions entry ≡ some g
      → g.parameter_count ≡ 0
      → Ensures (λ _. Unit {0}) (execute program entry limits)
  unfolding execute
  execute-Ensures g found no_parameters = elim (verify-cases program) [
    | inr (es, rejected) ↦ rw (rejected, execute) tt
    | inl accepted ↦
        rw (accepted, execute)
          (execution_result_lem _ (
            call-run_lem program.functions limits
              (λ id f e. verify-Accepted program id f accepted e) (suc limits.max_instructions) 0 []
              entry g nil 1 initial_state found (ground arith) initial-Frame))
  ]

Ensures-ne-panic : {A : Type 0} (Q : A → Type 0) (r : Outcome A) → Ensures Q r → r ≢ panic
Ensures-ne-panic Q (done a) h e = cc e
Ensures-ne-panic Q (fail x) h e = cc e
Ensures-ne-panic Q panic h e = absurd h
Ensures-ne-panic Q out_of_fuel h e = cc e

module _ (program : MirProgram) (entry : DefId) (limits : InterpreterLimits) where
  -- No execution panics, whatever the program, the entry and the limits.
  pub execute-ne-panic : execute program entry limits ≢ panic
  unfolding execute call
  execute-ne-panic e = elim (verify-cases program) [
    | inr (es, rejected) ↦ ground arith
    | inl accepted ↦ elim (Bool-cases (ltb limits.max_call_depth 1)) [
      | inl deep ↦ ground arith
      | inr shallow ↦ elim (Option-cases (find_function program.functions entry)) [
        | inl missing ↦ ground arith
        | inr (g, found) ↦ elim (Bool-cases (0 == g.parameter_count)) [
          | inr other ↦ ground arith
          | inl same ↦
              Ensures-ne-panic (λ _. Unit {0}) (execute program entry limits)
                (execute-Ensures program entry limits g found
                  (ground (arith, ==_iff 0 g.parameter_count)))
                e
        ]
      ]
    ]
  ]
