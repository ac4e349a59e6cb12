-- ===== src/Ir/Verify/Safety/Accept.antt =====
-- The list of errors of `verify` in crates/syllog-ir/src/verify.rs, taken apart by function.
use syllog.Prelude.{
  ◌≡◌, List, [], ◌∷◌, some, ok, append-eq-nil, List-cases, Option-cases, Bool-cases, inl, inr,
  subst, ◌∙◌,
}
use syllog.Ir.Syntax.{DefId, MirFunction, MirProgram, def_id_eq}
use syllog.Ir.Verify.Typing.{find_function}
use syllog.Ir.Verify.Program.{verify_functions, verify}
use syllog.Ir.Verify.Safety.Certificate.{Accepted, Accepted_of_verify}

verify_functions-Accepted :
    (all fs : List MirFunction) (id : DefId) (f : MirFunction)
    → verify_functions all fs ≡ []
    → find_function fs id ≡ some f
    → Accepted all f
unfolding verify_functions find_function
verify_functions-Accepted all [] id f h e = absurd (cc)
verify_functions-Accepted all (x ∷ fs) id f h e =
    let (here, rest) = append-eq-nil _ _ h in
    let (owned, later) = append-eq-nil _ _ rest in
    elim (Option-cases (find_function fs id)) [
      | inr (g, found) ↦
          verify_functions-Accepted all fs id f later (found ∙ rw (found, find_function) at e)
      | inl missing ↦ elim (Bool-cases (def_id_eq x.id id)) [
        | inl same ↦
            subst (Accepted all) (cc (rw (missing, find_function, same) at e))
              (Accepted_of_verify all x here owned)
        | inr other ↦ absurd (cc (rw (missing, find_function, other) at e))
      ]
    ]

-- Every function that a call finds in an accepted program is accepted.
pub verify-Accepted :
    (program : MirProgram) (id : DefId) (f : MirFunction)
    → verify program ≡ ok tt
    → find_function program.functions id ≡ some f
    → Accepted program.functions f
unfolding verify
verify-Accepted program id f h e =
    elim (List-cases (verify_functions program.functions program.functions)) [
      | inl none_pushed ↦
          verify_functions-Accepted program.functions program.functions id f none_pushed e
      | inr (x, xs, pushed) ↦ absurd (cc (rw (pushed, verify) at h))
    ]
