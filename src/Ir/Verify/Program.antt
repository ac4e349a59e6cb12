-- ===== src/Ir/Verify/Program.antt =====
-- crates/syllog-ir/src/verify.rs: `verify`.
use syllog.Prelude.{List, [], ◌∷◌, ◌++◌, Result, ok, err}
use syllog.Ir.Syntax.{MirFunction, MirProgram}
use syllog.Ir.Verify.Errors.{VerificationError}
use syllog.Ir.Verify.Ownership.{verify_affine_ownership}
use syllog.Ir.Verify.Typing.{verify_function}

-- Each of these functions against the signatures of all.
unfoldable pub verify_functions : List MirFunction → List MirFunction → List VerificationError
verify_functions all [] = []
verify_functions all (f ∷ fs) =
    verify_function all f ++ (verify_affine_ownership f ++ verify_functions all fs)

unfoldable pub verify : MirProgram → Result (Unit {0}) (List VerificationError)
verify program = elim (verify_functions program.functions program.functions) [
  | [] ↦ ok tt
  | e ∷ es ↦ err (e ∷ es)
]
