-- ===== src/Ir/Verify/Safety/Agree.antt =====
-- The ownership checks and the transfer functions of crates/syllog-ir/src/verify.rs.
use syllog.Prelude.{
  ◌≡◌, refl, ap, ◌∙◌, Bool, true, false, List, [], ◌∷◌, Option, none, some, arith, if◌then◌else◌,
}
use syllog.Ir.Syntax.{
  BlockId, LocalId, Operand, constant, copy, move, Rvalue, borrow, use_operand, binary,
  discriminant, Statement, assign, drop, Terminator, goto, switch_int, BasicBlock, MirFunction,
}
use syllog.Ir.Verify.LocalSet.{LocalSet, remove, remove_absent}
use syllog.Ir.Verify.Control.{place_local}
use syllog.Ir.Verify.Transfer.{
  consume_operand, consume_operands, consume_rvalue, define_place, transfer_statement,
  transfer_statements, consume_terminator, consume_end, transfer_block,
}
use syllog.Ir.Verify.Ownership.{
  check_read, check_operand_ownership, check_operands_ownership, check_rvalue_ownership,
  check_statement_ownership, check_statements_ownership, check_terminator_ownership,
  check_end_ownership, check_block_ownership,
}

module _ (f : MirFunction) (block : BlockId) (init : LocalSet) where
  check_read-state :
      (l : LocalId) (consume : Bool) (s : LocalSet)
      → (check_read f block init l consume s).0 ≡ (if consume then remove s l else s)
  unfolding check_read
  check_read-state l consume s = ground (arith, remove_absent s l)

  pub check_operand-state :
      (o : Operand) (s : LocalSet)
      → (check_operand_ownership f block init o s).0 ≡ consume_operand o s
  unfolding check_operand_ownership consume_operand
  check_operand-state (constant c) s = refl
  check_operand-state (copy l) s = check_read-state l false s
  check_operand-state (move l) s = check_read-state l true s

  pub check_operands-state :
      (os : List Operand) (s : LocalSet)
      → (check_operands_ownership f block init os s).0 ≡ consume_operands os s
  unfolding check_operands_ownership consume_operands
  check_operands-state [] s = refl
  check_operands-state (o ∷ os) s =
      check_operands-state os (check_operand_ownership f block init o s).0
      ∙ ap (consume_operands os) (check_operand-state o s)

  pub check_rvalue-state :
      (v : Rvalue) (s : LocalSet) → (check_rvalue_ownership f block init v s).0 ≡ consume_rvalue v s
  unfolding check_rvalue_ownership consume_rvalue
  check_rvalue-state (borrow mutable place) s = check_read-state (place_local place) false s
  check_rvalue-state (use_operand o) s = check_operand-state o s
  check_rvalue-state (discriminant o) s = check_operand-state o s
  check_rvalue-state (Rvalue.aggregate id tag fields) s = check_operands-state fields s
  check_rvalue-state (binary op left right) s =
      check_operand-state right (check_operand_ownership f block init left s).0
      ∙ ap (consume_operand right) (check_operand-state left s)

  pub check_statement-state :
      (x : Statement) (s : LocalSet)
      → (check_statement_ownership f block init x s).0 ≡ transfer_statement x s
  unfolding check_statement_ownership transfer_statement
  check_statement-state (assign destination value) s =
      ap (define_place destination) (check_rvalue-state value s)
  check_statement-state (drop place) s = refl

  pub check_statements-state :
      (xs : List Statement) (s : LocalSet)
      → (check_statements_ownership f block init xs s).0 ≡ transfer_statements xs s
  unfolding check_statements_ownership transfer_statements
  check_statements-state [] s = refl
  check_statements-state (x ∷ xs) s =
      check_statements-state xs (check_statement_ownership f block init x s).0
      ∙ ap (transfer_statements xs) (check_statement-state x s)

  check_terminator-state :
      (t : Terminator) (s : LocalSet)
      → (check_terminator_ownership f block init t s).0 ≡ consume_terminator t s
  unfolding check_terminator_ownership consume_terminator
  check_terminator-state Terminator.return s = check_read-state 0 false s
  check_terminator-state (goto target) s = refl
  check_terminator-state (switch_int value targets otherwise) s = check_operand-state value s
  check_terminator-state (Terminator.call callee args destination next) s =
      ap (define_place destination) (check_operands-state args s)

  check_end-state :
      (t : Option Terminator) (s : LocalSet)
      → (check_end_ownership f block init t s).0 ≡ consume_end t s
  unfolding check_end_ownership consume_end
  check_end-state none s = refl
  check_end-state (some t) s = check_terminator-state t s

  -- The walk that checks a block leaves the set that the transfer function of the dataflow loop
  -- computes for it, whether or not the walk pushes errors.
  pub check_block-state :
      (b : BasicBlock) (s : LocalSet)
      → (check_block_ownership f block init b s).0 ≡ transfer_block b s
  unfolding check_block_ownership transfer_block
  check_block-state b s =
      check_end-state b.terminator (check_statements_ownership f block init b.statements s).0
      ∙ ap (consume_end b.terminator) (check_statements-state b.statements s)
