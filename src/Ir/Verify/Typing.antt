-- ===== src/Ir/Verify/Typing.antt =====
-- crates/syllog-ir/src/verify.rs: `verify_function` and what it calls. A check returns the errors
-- that it pushes, in their order, beside its result.
use syllog.Prelude.{
  ℕ, suc, ◌+◌, Bool, true, false, not, List, [], ◌∷◌, ◌++◌, Option, none, some, ltb, ◌==◌,
  if◌then◌else◌, length, get_elem?, to_u32,
}
use syllog.Ir.Syntax.{
  DefId, BlockId, LocalId, MirType, reference, ty, Operand, constant, copy, move, Place, BinaryOp,
  equal, less, and, or, Rvalue, borrow, use_operand, binary, discriminant, Statement, assign, drop,
  Terminator, goto, switch_int, BasicBlock, MirFunction, def_id_eq, mir_type_eq,
}
use syllog.Ir.Verify.Errors.{
  VerificationError, empty_function, missing_terminator, invalid_block_target, invalid_local,
  use_before_definition, type_mismatch, unknown_function, argument_count, invalid_switch_type,
}
use syllog.Ir.Verify.LocalSet.{LocalSet, contains}
use syllog.Ir.Verify.Control.{place_local, successors}
use syllog.Ir.Verify.Dataflow.{Incoming, state_at}
use syllog.Ir.Verify.Transfer.{define_place, definite_initialization}

-- `signatures`: a map from a list of pairs keeps the last function with an identity.
unfoldable pub find_function : List MirFunction → DefId → Option MirFunction
find_function [] id = none
find_function (f ∷ fs) id = elim (find_function fs id) [
  | some g ↦ some g
  | none ↦ if def_id_eq f.id id then some f else none
]

abbrev pub Typed : Type 0
Typed = Option MirType × List VerificationError

-- `Some(expected), Some(actual)` that differ.
unfoldable pub type_error : MirFunction → BlockId → MirType → MirType → List VerificationError
type_error f block expected actual =
    if mir_type_eq actual expected then [] else type_mismatch f.id block expected actual ∷ []

module _ (f : MirFunction) (block : BlockId) where
  unfoldable pub verify_local_use : LocalSet → LocalId → List VerificationError
  verify_local_use defined l =
      if not (ltb l (length f.locals))
      then invalid_local f.id block l ∷ []
      else if not (contains defined l)
      then use_before_definition f.id block l ∷ []
      else []

  unfoldable pub operand_type : LocalSet → Operand → Typed
  operand_type defined (constant c) = (some (ty c), [])
  operand_type defined (copy l) = (get_elem? f.locals l, verify_local_use defined l)
  operand_type defined (move l) = (get_elem? f.locals l, verify_local_use defined l)

  unfoldable pub place_type_of : Place → MirType → Option MirType
  place_type_of (Place.local l) t = some t
  place_type_of (Place.field base index) t = none

  unfoldable pub place_type : Place → Typed
  place_type place = elim (get_elem? f.locals (place_local place)) [
    | none ↦ (none, invalid_local f.id block (place_local place) ∷ [])
    | some t ↦ (place_type_of place t, [])
  ]

  unfoldable pub operands_errors : LocalSet → List Operand → List VerificationError
  operands_errors defined [] = []
  operands_errors defined (o ∷ os) = (operand_type defined o).1 ++ operands_errors defined os

  is_bool : MirType → Bool
  is_bool MirType.bool = true
  is_bool _ = false

  -- The `match operator` of `verify_rvalue`, on the type of the left input.
  unfoldable pub binary_type : BinaryOp → MirType → Typed
  unfolding is_bool
  binary_type equal left = (some MirType.bool, [])
  binary_type less left = (some MirType.bool, [])
  binary_type and left = (
    some MirType.bool,
    if is_bool left then [] else type_mismatch f.id block MirType.bool left ∷ [],
  )
  binary_type or left = (
    some MirType.bool,
    if is_bool left then [] else type_mismatch f.id block MirType.bool left ∷ [],
  )
  binary_type _ left = (some left, [])

  -- The right input is not looked at where the left one has no type.
  unfoldable pub binary_checked : BinaryOp → Typed → Typed → Typed
  binary_checked op (none, e) r = (none, e)
  binary_checked op (some left, e) (none, e') = (none, e ++ e')
  binary_checked op (some left, e) (some right, e') =
      let t = binary_type op left in
      (
        t.0,
        e
            ++ (e'
                ++ ((if mir_type_eq left right
                      then []
                      else type_mismatch f.id block left right ∷ [])
                    ++ t.1)),
      )

  abbrev pub reference_to : Bool → Option MirType → Option MirType
  reference_to mutable none = none
  reference_to mutable (some inner) = some (reference mutable inner)

  unfoldable pub verify_rvalue : LocalSet → Rvalue → Typed
  verify_rvalue defined (borrow mutable place) =
      let t = place_type place in
      (reference_to mutable t.0, verify_local_use defined (place_local place) ++ t.1)
  verify_rvalue defined (use_operand o) = operand_type defined o
  verify_rvalue defined (discriminant o) = (some MirType.u64, (operand_type defined o).1)
  verify_rvalue defined (Rvalue.aggregate id tag fields) =
      (some (MirType.aggregate id), operands_errors defined fields)
  verify_rvalue defined (binary op left right) =
      binary_checked op (operand_type defined left) (operand_type defined right)

  -- An error where both types are known and differ.
  unfoldable pub expect_type : Option MirType → Option MirType → List VerificationError
  expect_type (some expected) (some actual) = type_error f block expected actual
  expect_type _ _ = []

  unfoldable pub define_typed : Place → Option MirType → LocalSet → LocalSet
  define_typed destination none defined = defined
  define_typed destination (some t) defined = define_place destination defined

  unfoldable pub verify_statement : LocalSet → Statement → LocalSet × List VerificationError
  verify_statement defined (assign destination value) =
      let v = verify_rvalue defined value in
      let d = place_type destination in
      (define_typed destination d.0 defined, v.1 ++ (d.1 ++ expect_type d.0 v.0))
  verify_statement defined (drop place) = (defined, verify_local_use defined (place_local place))

  unfoldable pub verify_statements : LocalSet → List Statement → LocalSet × List VerificationError
  verify_statements defined [] = (defined, [])
  verify_statements defined (s ∷ rest) =
      let r = verify_statement defined s in
      let r' = verify_statements r.0 rest in (r'.0, r.1 ++ r'.1)

  -- `Bool | I64 | U64`
  unfoldable pub is_switch_type : MirType → Bool
  is_switch_type MirType.bool = true
  is_switch_type MirType.i64 = true
  is_switch_type MirType.u64 = true
  is_switch_type _ = false

  unfoldable pub switch_errors : Option MirType → List VerificationError
  switch_errors none = []
  switch_errors (some actual) =
      if is_switch_type actual then [] else invalid_switch_type f.id block actual ∷ []

  -- The arguments from this index on, against the types of the callee's parameters.
  unfoldable pub arguments_errors :
      LocalSet → MirFunction → ℕ → List Operand → List VerificationError
  arguments_errors defined signature index [] = []
  arguments_errors defined signature index (o ∷ os) =
      let t = operand_type defined o in
      t.1
      ++ (expect_type (get_elem? signature.locals (index + 1)) t.0
          ++ arguments_errors defined signature (index + 1) os)

  unfoldable pub call_errors :
      LocalSet → List Operand → Place → Option MirFunction → List VerificationError
  call_errors defined args destination none = []
  call_errors defined args destination (some signature) =
      let d = place_type destination in
      (if length args == signature.parameter_count
        then []
        else argument_count f.id block signature.parameter_count (length args) ∷ [])
      ++ (arguments_errors defined signature 0 args
          ++ (d.1 ++ expect_type (some signature.return_type) d.0))

module _ (functions : List MirFunction) (f : MirFunction) where
  unfoldable pub verify_terminator : BlockId → LocalSet → Terminator → List VerificationError
  verify_terminator block defined Terminator.return = verify_local_use f block defined 0
  verify_terminator block defined (goto target) = []
  verify_terminator block defined (switch_int value targets otherwise) =
      let t = operand_type f block defined value in t.1 ++ switch_errors f block t.0
  verify_terminator block defined (Terminator.call callee args destination next) =
      call_errors f block defined args destination (find_function functions callee)

  unfoldable pub verify_end : BlockId → LocalSet → Option Terminator → List VerificationError
  verify_end block defined none = []
  verify_end block defined (some t) = verify_terminator block defined t

  unfoldable pub verify_block : BlockId → BasicBlock → Option LocalSet → List VerificationError
  verify_block block b none = []
  verify_block block b (some defined) =
      let r = verify_statements f block defined b.statements in
      r.1 ++ verify_end block r.0 b.terminator

  unfoldable pub verify_blocks : Incoming → ℕ → List BasicBlock → List VerificationError
  verify_blocks incoming index [] = []
  verify_blocks incoming index (b ∷ blocks) =
      verify_block (to_u32 index) b (state_at incoming index)
      ++ verify_blocks incoming (suc index) blocks

  unfoldable pub target_errors : BlockId → List BlockId → List VerificationError
  target_errors block [] = []
  target_errors block (target ∷ targets) =
      (if ltb target (length f.blocks) then [] else invalid_block_target f.id block target ∷ [])
      ++ target_errors block targets

  unfoldable pub callee_errors : BlockId → Terminator → List VerificationError
  callee_errors block (Terminator.call callee args destination next) =
      elim (find_function functions callee) [
        | none ↦ unknown_function f.id block callee ∷ []
        | some _ ↦ []
      ]
  callee_errors block _ = []

  unfoldable pub verify_target : BlockId → Option Terminator → List VerificationError
  verify_target block none = missing_terminator f.id block ∷ []
  verify_target block (some t) = target_errors block (successors t) ++ callee_errors block t

  unfoldable pub verify_targets : ℕ → List BasicBlock → List VerificationError
  verify_targets index [] = []
  verify_targets index (b ∷ blocks) =
      verify_target (to_u32 index) b.terminator ++ verify_targets (suc index) blocks

  -- The checks behind the two early returns.
  unfoldable pub verify_body : List VerificationError
  verify_body =
      if ltb (length f.locals) (f.parameter_count + 1)
      then invalid_local f.id 0 f.parameter_count ∷ []
      else verify_targets 0 f.blocks ++ verify_blocks (definite_initialization f) 0 f.blocks

  unfoldable pub verify_function : List VerificationError
  verify_function = elim f.locals [
    | [] ↦ empty_function f.id ∷ []
    | result ∷ _ ↦ elim f.blocks [
      | [] ↦ empty_function f.id ∷ []
      | _ ∷ _ ↦ type_error f 0 f.return_type result ++ verify_body
    ]
  ]
