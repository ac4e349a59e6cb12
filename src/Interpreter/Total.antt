-- ===== src/Interpreter/Total.antt =====
-- `execute` of crates/syllog-interpreter/src/lib.rs, from its call to its outcome.
use syllog.Prelude.{◌<◌, ◌≡◌, ◌≢◌, refl, some, u64_max}
use syllog.Ir.Syntax.{DefId, MirFunction, MirProgram}
use syllog.Ir.Verify.Typing.{find_function}
use syllog.Interpreter.Machine.{InterpreterLimits, Outcome, done, fail, panic, out_of_fuel}
use syllog.Interpreter.Run.{ExecutionResult, execute}
use syllog.Interpreter.Safety.{ErrorAllowed, Ensures}
use syllog.Interpreter.Safety.Programs.{execute-Ensures}
use syllog.Interpreter.Limits.Runs.{execute-ne-out_of_fuel}

-- A result, or an error that `ErrorAllowed` permits.
abbrev pub Completes : Outcome ExecutionResult → Type 0
Completes (done result) = Unit {0}
Completes (fail e) = ErrorAllowed e
Completes panic = ⊥
Completes out_of_fuel = ⊥

completes_lem :
    (r : Outcome ExecutionResult) → Ensures (λ _. Unit {0}) r → r ≢ out_of_fuel → Completes r
completes_lem (done result) h ends = tt
completes_lem (fail e) h ends = h
completes_lem panic h ends = h
completes_lem out_of_fuel h ends = ends refl

-- Where the entry is a function of the program without parameters and the instruction limit is below
-- the greatest `u64`, an execution ends with a result or with an error. It does not panic, and the
-- error is none of these: a missing function, a wrong number of arguments, the jump to an absent
-- block, the read of an empty local or of one out of range, the move, drop or return of an empty
-- local. An assignment to a field of an empty local (`field base is empty`) is not ruled out.
pub execute-Completes :
    (program : MirProgram) (entry : DefId) (limits : InterpreterLimits) (g : MirFunction)
    → find_function program.functions entry ≡ some g
    → g.parameter_count ≡ 0
    → limits.max_instructions < u64_max
    → Completes (execute program entry limits)
execute-Completes program entry limits g found no_parameters machine =
    completes_lem (execute program entry limits)
      (execute-Ensures program entry limits g found no_parameters)
      (execute-ne-out_of_fuel program entry limits machine)
