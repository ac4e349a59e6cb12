-- ===== src/Ir/Verify/Safety/Checks.antt =====
-- The checks of operands, places and statements in crates/syllog-ir/src/verify.rs, beside the
-- descriptions of safe ones.
use syllog.Prelude.{
  ℕ, ◌+◌, ◌<◌, ◌≡◌, refl, Bool, true, false, List, [], ◌∷◌, none, some, arith, length, get_elem?,
  append-eq-nil, ◌==◌, get_elem?_of_lt-length, if◌then◌else◌, inl, inr, lt-length_of_get_elem?,
  Option-cases,
}
use syllog.Ir.Syntax.{
  DefId, BlockId, LocalId, MirType, BinaryOp, Operand, constant, copy, move, Place, Rvalue, borrow,
  use_operand, binary, discriminant, Statement, assign, drop, Terminator, goto, switch_int,
  MirFunction,
}
use syllog.Ir.Verify.Errors.{VerificationError}
use syllog.Ir.Verify.LocalSet.{LocalSet, contains, insert}
use syllog.Ir.Verify.Control.{place_local}
use syllog.Ir.Verify.Dataflow.Fixpoint.{Subset}
use syllog.Ir.Verify.Transfer.{consume_operand, define_place, initialize_statement}
use syllog.Ir.Verify.Ownership.{
  check_read, check_operand_ownership, check_operands_ownership, check_rvalue_ownership,
  check_statement_ownership, check_terminator_ownership,
}
use syllog.Ir.Verify.Typing.{
  Typed, find_function, verify_local_use, operand_type, operands_errors, place_type, place_type_of,
  binary_checked, verify_rvalue, define_typed, verify_statement, arguments_errors, call_errors,
  callee_errors, verify_terminator,
}
use syllog.Ir.Verify.Safety.Agree.{check_operand-state}
use syllog.Ir.Verify.Safety.{Readable, AllReadable, RvalueReadable, StatementSafe, TerminatorSafe}

module _ (f : MirFunction) (block : BlockId) where
  verify_local_use_lem :
      (defined : LocalSet) (l : LocalId)
      → verify_local_use f block defined l ≡ []
      → (l < length f.locals) × (contains defined l ≡ true)
  unfolding verify_local_use
  verify_local_use_lem defined l h = ground arith

  place_type_lem :
      (p : Place)
      → (place_type f block p).1 ≡ []
      → (t : MirType) × (get_elem? f.locals (place_local p) ≡ some t)
  unfolding place_type
  place_type_lem p h = elim (Option-cases (get_elem? f.locals (place_local p))) [
    | inl e ↦ absurd (cc (rw (e, place_type) at h))
    | inr found ↦ found
  ]

  -- An operand that is typed without an error has a type.
  operand_type-some :
      (defined : LocalSet) (o : Operand)
      → (operand_type f block defined o).1 ≡ []
      → (t : MirType) × ((operand_type f block defined o).0 ≡ some t)
  unfolding operand_type
  operand_type-some defined (constant c) h = (_, refl)
  operand_type-some defined (copy l) h =
      get_elem?_of_lt-length f.locals l (verify_local_use_lem defined l h).0
  operand_type-some defined (move l) h =
      get_elem?_of_lt-length f.locals l (verify_local_use_lem defined l h).0

  binary_checked_lem :
      (op : BinaryOp) (l r : Typed)
      → (binary_checked f block op l r).1 ≡ []
      → (l.1 ≡ []) × ((t : MirType) → l.0 ≡ some t → r.1 ≡ [])
  unfolding binary_checked
  binary_checked_lem op (none, e) r h = (h, λ t same. absurd (cc))
  binary_checked_lem op (some left, e) (none, e') h =
      let (a, b) = append-eq-nil e e' h in (a, λ t same. b)
  binary_checked_lem op (some left, e) (some right, e') h =
      let (a, b) = append-eq-nil e _ h in (a, λ t same. (append-eq-nil e' _ b).0)

  count_lem : (n m : ℕ) (e : VerificationError) → (if n == m then [] else e ∷ []) ≡ [] → n ≡ m
  count_lem n m e h = ground arith

  module _ (init defined : LocalSet) (known : Subset defined init) where
    check_read_lem :
        (l : LocalId) (consume : Bool) (s : LocalSet)
        → (check_read f block init l consume s).1 ≡ []
        → verify_local_use f block defined l ≡ []
        → contains s l ≡ true
    unfolding check_read
    check_read_lem l consume s own typed =
        ground (arith, known l (verify_local_use_lem defined l typed).1)

    check_operand_lem :
        (o : Operand) (s : LocalSet)
        → (check_operand_ownership f block init o s).1 ≡ []
        → (operand_type f block defined o).1 ≡ []
        → Readable o s
    unfolding check_operand_ownership operand_type
    check_operand_lem (constant c) s own typed = tt
    check_operand_lem (copy l) s own typed =
        check_read_lem l false s (append-eq-nil _ _ own).0 typed
    check_operand_lem (move l) s own typed = check_read_lem l true s own typed

    check_operands_lem :
        (os : List Operand) (s : LocalSet)
        → (check_operands_ownership f block init os s).1 ≡ []
        → operands_errors f block defined os ≡ []
        → AllReadable os s
    unfolding check_operands_ownership operands_errors
    check_operands_lem [] s own typed = tt
    check_operands_lem (o ∷ os) s own typed =
        let (own_o, own_os) = append-eq-nil _ _ own in
        let (typed_o, typed_os) = append-eq-nil _ _ typed in
        (
          check_operand_lem o s own_o typed_o,
          check_operands_lem os (consume_operand o s) (rw check_operand-state at own_os) typed_os,
        )

    check_rvalue_lem :
        (v : Rvalue) (s : LocalSet)
        → (check_rvalue_ownership f block init v s).1 ≡ []
        → (verify_rvalue f block defined v).1 ≡ []
        → RvalueReadable v s
    unfolding check_rvalue_ownership verify_rvalue
    check_rvalue_lem (borrow mutable place) s own typed =
        check_read_lem (place_local place) false s own (append-eq-nil _ _ typed).0
    check_rvalue_lem (use_operand o) s own typed = check_operand_lem o s own typed
    check_rvalue_lem (discriminant o) s own typed = check_operand_lem o s own typed
    check_rvalue_lem (Rvalue.aggregate id tag fields) s own typed =
        check_operands_lem fields s own typed
    check_rvalue_lem (binary op left right) s own typed =
        let (own_l, own_r) = append-eq-nil _ _ own in
        let (typed_l, typed_r) =
          binary_checked_lem op (operand_type f block defined left)
            (operand_type f block defined right) typed in
        let (t, e) = operand_type-some defined left typed_l in
        (
          check_operand_lem left s own_l typed_l,
          check_operand_lem right (consume_operand left s) (rw check_operand-state at own_r)
              (typed_r t e),
        )

    pub check_statement_lem :
        (functions : List MirFunction) (x : Statement) (s : LocalSet)
        → (check_statement_ownership f block init x s).1 ≡ []
        → (verify_statement f block defined x).1 ≡ []
        → StatementSafe functions f x s
    unfolding check_statement_ownership verify_statement
    check_statement_lem functions (assign destination value) s own typed =
        let (typed_v, rest) = append-eq-nil _ _ typed in
        let (t, e) = place_type_lem destination (append-eq-nil _ _ rest).0 in
        (
          check_rvalue_lem value s (append-eq-nil _ _ own).0 typed_v,
          lt-length_of_get_elem? f.locals (place_local destination) e,
        )
    check_statement_lem functions (drop place) s own typed = ground (
      arith,
      known (place_local place) (verify_local_use_lem defined (place_local place) typed).1,
    )

    check_arguments_lem :
        (signature : MirFunction) (index : ℕ) (os : List Operand) (s : LocalSet)
        → (check_operands_ownership f block init os s).1 ≡ []
        → arguments_errors f block defined signature index os ≡ []
        → AllReadable os s
    unfolding check_operands_ownership arguments_errors
    check_arguments_lem signature index [] s own typed = tt
    check_arguments_lem signature index (o ∷ os) s own typed =
        let (own_o, own_os) = append-eq-nil _ _ own in
        let (typed_o, rest) = append-eq-nil _ _ typed in
        (
          check_operand_lem o s own_o typed_o,
          check_arguments_lem signature (index + 1) os (consume_operand o s)
              (rw check_operand-state at own_os) (append-eq-nil _ _ rest).1,
        )

    -- A call whose callee is found.
    check_call_lem :
        (functions : List MirFunction) (callee : DefId) (args : List Operand) (destination : Place)
        (next : BlockId) (s : LocalSet) (g : MirFunction)
        → find_function functions callee ≡ some g
        → (check_operands_ownership f block init args s).1 ≡ []
        → call_errors f block defined args destination (some g) ≡ []
        → TerminatorSafe functions f (Terminator.call callee args destination next) s
    unfolding call_errors
    check_call_lem functions callee args destination next s g found own typed =
        let (count, rest) = append-eq-nil _ _ typed in
        let (typed_args, rest') = append-eq-nil _ _ rest in
        let (t, e) = place_type_lem destination (append-eq-nil _ _ rest').0 in
        let same_count = count_lem (length args) g.parameter_count _ count in
        (
          check_arguments_lem g 0 args s own typed_args,
          lt-length_of_get_elem? f.locals (place_local destination) e,
          (g, found, same_count),
        )

    pub check_terminator_lem :
        (functions : List MirFunction) (t : Terminator) (s : LocalSet)
        → callee_errors functions f block t ≡ []
        → (check_terminator_ownership f block init t s).1 ≡ []
        → verify_terminator functions f block defined t ≡ []
        → TerminatorSafe functions f t s
    unfolding check_terminator_ownership verify_terminator callee_errors
    check_terminator_lem functions Terminator.return s known_callee own typed =
        check_read_lem 0 false s own typed
    check_terminator_lem functions (goto target) s known_callee own typed = tt
    check_terminator_lem functions (switch_int value targets otherwise) s known_callee own typed =
        check_operand_lem value s own (append-eq-nil _ _ typed).0
    check_terminator_lem functions (Terminator.call callee args destination next) s known_callee own
          typed =
        elim (Option-cases (find_function functions callee)) [
          | inl e ↦ absurd (cc (rw (e, callee_errors) at known_callee))
          | inr (g, e) ↦
              check_call_lem functions callee args destination next s g e (append-eq-nil _ _ own).0
                (rw e at typed)
        ]

  -- The set that typing passes on is that of the initialization analysis.
  pub verify_statement-state :
      (defined : LocalSet) (x : Statement)
      → (verify_statement f block defined x).1 ≡ []
      → (verify_statement f block defined x).0 ≡ initialize_statement x defined
  unfolding verify_statement initialize_statement define_typed define_place place_type_of
      place_local place_type insert
  verify_statement-state defined (drop place) typed = refl
  verify_statement-state defined (assign destination value) typed =
      let (typed_v, rest) = append-eq-nil _ _ typed in
      let (t, e) = place_type_lem destination (append-eq-nil _ _ rest).0 in
      defined_by destination t e
    where
      defined_by :
          (p : Place) (t : MirType)
          → get_elem? f.locals (place_local p) ≡ some t
          → define_typed f block p (place_type f block p).0 defined ≡ define_place p defined
      defined_by (Place.local l) t e = rw (e, place_type)
      defined_by (Place.field base index) t e = rw (e, place_type)
