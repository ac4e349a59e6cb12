-- ===== src/Ir/Verify/Ownership.antt =====
-- crates/syllog-ir/src/verify.rs: the second part of `verify_affine_ownership`, which walks each
-- reachable block from the set that the loop found for it. A check returns the set after it and
-- the errors that it pushes, in their order.
use syllog.Prelude.{
  ℕ, suc, Bool, true, false, not, ◌&&◌, List, [], ◌∷◌, ◌++◌, Option, none, some, if◌then◌else◌,
  get_elem?, to_u32,
}
use syllog.Ir.Syntax.{
  BlockId, LocalId, MirType, reference, Operand, constant, copy, move, Place, Rvalue, borrow,
  use_operand, binary, discriminant, Statement, assign, drop, Terminator, goto, switch_int,
  BasicBlock, MirFunction,
}
use syllog.Ir.Verify.Errors.{
  VerificationError, use_after_move, double_drop, invalid_copy, overwrite_without_drop,
}
use syllog.Ir.Verify.LocalSet.{LocalSet, contains, remove}
use syllog.Ir.Verify.Control.{place_local}
use syllog.Ir.Verify.Dataflow.{Incoming, state_at}
use syllog.Ir.Verify.Transfer.{define_place, ever_initialized, available_locals}

abbrev pub Checked : Type 0
Checked = LocalSet × List VerificationError

-- `check a; check b` on one set and one list of errors.
infixl 20 ◌then_check◌
abbrev pub ◌then_check◌ : Checked → (LocalSet → Checked) → Checked
c then_check next = let r = next c.0 in (r.0, c.1 ++ r.1)

unfoldable pub mir_type_is_copy : MirType → Bool
mir_type_is_copy MirType.unit = true
mir_type_is_copy MirType.bool = true
mir_type_is_copy MirType.i64 = true
mir_type_is_copy MirType.u64 = true
mir_type_is_copy (reference false inner) = true
mir_type_is_copy _ = false

module _ (f : MirFunction) where
  -- `function.locals.get(local).is_some_and(|ty| !mir_type_is_copy(ty))`
  unfoldable pub is_affine : LocalId → Bool
  is_affine l = elim (get_elem? f.locals l) [ none ↦ false | some t ↦ not (mir_type_is_copy t) ]

  module _ (block : BlockId) (initialized : LocalSet) where
    unfoldable pub check_read : LocalId → Bool → LocalSet → Checked
    check_read l consume state =
        if not (contains state l) && contains initialized l
        then (state, use_after_move f.id block l ∷ [])
        else (if consume then remove state l else state, [])

    unfoldable pub check_operand_ownership : Operand → LocalSet → Checked
    check_operand_ownership (constant c) state = (state, [])
    check_operand_ownership (copy l) state = check_read l false state then_check λ s.
        (s, if is_affine l then invalid_copy f.id block l ∷ [] else [])
    check_operand_ownership (move l) state = check_read l true state

    unfoldable pub check_operands_ownership : List Operand → LocalSet → Checked
    check_operands_ownership [] state = (state, [])
    check_operands_ownership (o ∷ os) state =
        check_operand_ownership o state then_check check_operands_ownership os

    unfoldable pub check_rvalue_ownership : Rvalue → LocalSet → Checked
    check_rvalue_ownership (borrow mutable place) state = check_read (place_local place) false state
    check_rvalue_ownership (use_operand o) state = check_operand_ownership o state
    check_rvalue_ownership (discriminant o) state = check_operand_ownership o state
    check_rvalue_ownership (Rvalue.aggregate ty tag fields) state =
        check_operands_ownership fields state
    check_rvalue_ownership (binary op left right) state =
        check_operand_ownership left state then_check check_operand_ownership right

    -- The destination of an assignment: a whole affine local must not hold a value.
    unfoldable pub check_overwrite : Place → LocalSet → List VerificationError
    check_overwrite (Place.local l) state =
        if contains state l && is_affine l then overwrite_without_drop f.id block l ∷ [] else []
    check_overwrite (Place.field base index) state = []

    unfoldable pub check_statement_ownership : Statement → LocalSet → Checked
    check_statement_ownership (assign destination value) state =
        check_rvalue_ownership value state then_check λ s.
        (define_place destination s, check_overwrite destination s)
    check_statement_ownership (drop place) state = (
      remove state (place_local place),
      if not (contains state (place_local place)) && contains initialized (place_local place)
          then double_drop f.id block (place_local place) ∷ []
          else [],
    )

    unfoldable pub check_statements_ownership : List Statement → LocalSet → Checked
    check_statements_ownership [] state = (state, [])
    check_statements_ownership (s ∷ rest) state =
        check_statement_ownership s state then_check check_statements_ownership rest

    unfoldable pub check_terminator_ownership : Terminator → LocalSet → Checked
    check_terminator_ownership Terminator.return state = check_read 0 false state
    check_terminator_ownership (switch_int value targets otherwise) state =
        check_operand_ownership value state
    check_terminator_ownership (Terminator.call function args destination next) state =
        check_operands_ownership args state then_check λ s. (define_place destination s, [])
    check_terminator_ownership (goto target) state = (state, [])

    unfoldable pub check_end_ownership : Option Terminator → LocalSet → Checked
    check_end_ownership none state = (state, [])
    check_end_ownership (some t) state = check_terminator_ownership t state

    unfoldable pub check_block_ownership : BasicBlock → LocalSet → Checked
    check_block_ownership b state =
        check_statements_ownership b.statements state then_check check_end_ownership b.terminator

  -- A block that no path reaches is passed over.
  unfoldable pub check_reached_ownership : ℕ → BasicBlock → Option LocalSet → List VerificationError
  check_reached_ownership index b none = []
  check_reached_ownership index b (some state) =
      (check_block_ownership (to_u32 index) (ever_initialized f) b state).1

  unfoldable pub check_blocks_ownership : Incoming → ℕ → List BasicBlock → List VerificationError
  check_blocks_ownership incoming index [] = []
  check_blocks_ownership incoming index (b ∷ blocks) =
      check_reached_ownership index b (state_at incoming index)
      ++ check_blocks_ownership incoming (suc index) blocks

-- A function without blocks is left to `verify_function`.
unfoldable pub verify_affine_ownership : MirFunction → List VerificationError
verify_affine_ownership f = elim f.blocks [
  | [] ↦ []
  | _ ∷ _ ↦ check_blocks_ownership f (available_locals f) 0 f.blocks
]
