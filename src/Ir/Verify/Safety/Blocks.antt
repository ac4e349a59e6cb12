-- ===== src/Ir/Verify/Safety/Blocks.antt =====
-- The checks of one block in crates/syllog-ir/src/verify.rs, beside the description of a safe block.
use syllog.Prelude.{◌≡◌, refl, List, [], ◌∷◌, Option, none, some, append-eq-nil}
use syllog.Ir.Syntax.{BlockId, Statement, Terminator, BasicBlock, MirFunction}
use syllog.Ir.Verify.LocalSet.{LocalSet}
use syllog.Ir.Verify.Dataflow.Fixpoint.{Subset}
use syllog.Ir.Verify.Transfer.{
  transfer_statement, transfer_statements, initialize_statement, initialize_statements,
  initialize_end, initialize_block,
}
use syllog.Ir.Verify.Ownership.{
  check_statements_ownership, check_end_ownership, check_block_ownership,
}
use syllog.Ir.Verify.Typing.{verify_statements, verify_end, verify_block, verify_target}
use syllog.Ir.Verify.Safety.{StatementsSafe, EndSafe, BlockSafe}
use syllog.Ir.Verify.Safety.Initialized.{Adds-statement, Adds-statements, Adds-end, Subset_of_Adds}
use syllog.Ir.Verify.Safety.Agree.{check_statement-state, check_statements-state}
use syllog.Ir.Verify.Safety.Checks.{
  check_statement_lem, check_terminator_lem, verify_statement-state,
}

module _ (functions : List MirFunction) (f : MirFunction) (block : BlockId) (init : LocalSet) where
  check_statements_lem :
      (xs : List Statement) (s defined : LocalSet)
      → Subset (initialize_statements xs defined) init
      → (check_statements_ownership f block init xs s).1 ≡ []
      → (verify_statements f block defined xs).1 ≡ []
      → StatementsSafe functions f xs s
        × ((verify_statements f block defined xs).0 ≡ initialize_statements xs defined)
  unfolding check_statements_ownership verify_statements initialize_statements
  check_statements_lem [] s defined known own typed = (tt, refl)
  check_statements_lem (x ∷ xs) s defined known own typed =
      let (own_x, own_xs) = append-eq-nil _ _ own in
      let (typed_x, typed_xs) = append-eq-nil _ _ typed in
      let next = verify_statement-state f block defined x typed_x in
      let after = initialize_statement x defined in
      let now : Subset defined init = λ l h. known l (
        Subset_of_Adds (initialize_statements xs) (Adds-statements xs) after l
          (Subset_of_Adds (initialize_statement x) (Adds-statement x) defined l h)) in
      let (safe, state) =
        check_statements_lem xs (transfer_statement x s) after known
          (rw check_statement-state at own_xs) (rw next at typed_xs) in
      (
        (check_statement_lem f block init defined now functions x s own_x typed_x, safe),
        rw next state,
      )

  check_end_lem :
      (t : Option Terminator) (defined : LocalSet)
      → Subset defined init
      → (s : LocalSet) → verify_target functions f block t ≡ []
      → (check_end_ownership f block init t s).1 ≡ []
      → verify_end functions f block defined t ≡ []
      → EndSafe functions f t s
  unfolding verify_target check_end_ownership verify_end
  check_end_lem none defined inside s target own typed = cc
  check_end_lem (some t) defined inside s target own typed =
      check_terminator_lem f block init defined inside functions t s (append-eq-nil _ _ target).1
        own typed

  pub check_block_lem :
      (b : BasicBlock) (s defined : LocalSet)
      → Subset (initialize_block b defined) init
      → verify_target functions f block b.terminator ≡ []
      → (check_block_ownership f block init b s).1 ≡ []
      → verify_block functions f block b (some defined) ≡ []
      → BlockSafe functions f b s
  unfolding check_block_ownership verify_block initialize_block
  check_block_lem b s defined known target own typed =
      let (own_xs, own_end) = append-eq-nil _ _ own in
      let (typed_xs, typed_end) = append-eq-nil _ _ typed in
      let middle = initialize_statements b.statements defined in
      let inside : Subset middle init = λ l h.
        known l (Subset_of_Adds (initialize_end b.terminator) (Adds-end b.terminator) middle l h) in
      let (safe, state) = check_statements_lem b.statements s defined inside own_xs typed_xs in
      (
        safe,
        check_end_lem b.terminator middle inside (transfer_statements b.statements s) target
            (rw check_statements-state at own_end) (rw state at typed_end),
      )
