-- ===== src/Ir/Verify/Safety.antt =====
-- What a block of MIR needs so that a run of it never reads an empty local: a description of its
-- own, over the set of locals that hold a value, beside the checks of
-- crates/syllog-ir/src/verify.rs.
pub mod Initialized
pub mod Agree
pub mod Checks
pub mod Blocks
pub mod Certificate
pub mod Accept
pub mod Paths
use syllog.Prelude.{ℕ, ◌<◌, ◌≡◌, true, List, [], ◌∷◌, Option, none, some, length}
use syllog.Ir.Syntax.{
  Operand, constant, copy, move, Place, Rvalue, borrow, use_operand, binary, discriminant,
  Statement, assign, drop, Terminator, goto, switch_int, BasicBlock, MirFunction,
}
use syllog.Ir.Verify.LocalSet.{LocalSet, contains}
use syllog.Ir.Verify.Control.{place_local}
use syllog.Ir.Verify.Transfer.{consume_operand, transfer_statement, transfer_statements}
use syllog.Ir.Verify.Typing.{find_function}

abbrev pub Readable : Operand → LocalSet → Type 0
Readable (constant c) s = Unit
Readable (copy l) s = contains s l ≡ true
Readable (move l) s = contains s l ≡ true

-- One after the other.
abbrev pub AllReadable : List Operand → LocalSet → Type 0
AllReadable [] s = Unit
AllReadable (o ∷ os) s = Readable o s × AllReadable os (consume_operand o s)

abbrev pub RvalueReadable : Rvalue → LocalSet → Type 0
RvalueReadable (borrow mutable place) s = contains s (place_local place) ≡ true
RvalueReadable (use_operand o) s = Readable o s
RvalueReadable (discriminant o) s = Readable o s
RvalueReadable (Rvalue.aggregate id tag fields) s = AllReadable fields s
RvalueReadable (binary op left right) s = Readable left s × Readable right (consume_operand left s)

module _ (functions : List MirFunction) (f : MirFunction) where
  abbrev pub IsLocal : Place → Type 0
  IsLocal place = place_local place < length f.locals

  abbrev pub StatementSafe : Statement → LocalSet → Type 0
  StatementSafe (assign destination value) s = RvalueReadable value s × IsLocal destination
  StatementSafe (drop place) s = contains s (place_local place) ≡ true

  abbrev pub StatementsSafe : List Statement → LocalSet → Type 0
  StatementsSafe [] s = Unit
  StatementsSafe (x ∷ rest) s = StatementSafe x s × StatementsSafe rest (transfer_statement x s)

  abbrev pub TerminatorSafe : Terminator → LocalSet → Type 0
  TerminatorSafe Terminator.return s = contains s 0 ≡ true
  TerminatorSafe (goto target) s = Unit
  TerminatorSafe (switch_int value targets otherwise) s = Readable value s
  TerminatorSafe (Terminator.call callee args destination next) s =
      AllReadable args s
      × IsLocal destination
      × ((g : MirFunction) × (find_function functions callee ≡ some g)
          × (length args ≡ g.parameter_count))

  -- A missing terminator is not safe.
  abbrev pub EndSafe : Option Terminator → LocalSet → Type 0
  EndSafe none s = ⊥
  EndSafe (some t) s = TerminatorSafe t s

  abbrev pub BlockSafe : BasicBlock → LocalSet → Type 0
  BlockSafe b s =
      StatementsSafe b.statements s × EndSafe b.terminator (transfer_statements b.statements s)
