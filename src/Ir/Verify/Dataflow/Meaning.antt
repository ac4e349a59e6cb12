-- ===== src/Ir/Verify/Dataflow/Meaning.antt =====
-- What the two analyses of crates/syllog-ir/src/verify.rs say of the paths of a function.
use syllog.Prelude.{
  ◌<◌, ◌≡◌, ◌≢◌, ◌⊎◌, inl, inr, ap, true, List, [], ◌∷◌, Option, none, some, arith, length, ◌==◌,
  ==_iff, Bool-cases,
}
use syllog.Ir.Syntax.{
  Operand, constant, copy, move, Place, Rvalue, borrow, use_operand, binary, discriminant,
  Statement, assign, drop, Terminator, goto, switch_int, BlockId, LocalId, BasicBlock, MirFunction,
}
use syllog.Ir.Verify.LocalSet.{
  LocalSet, contains, remove, contains-insert, contains-remove, contains-range,
}
use syllog.Ir.Verify.Control.{place_local}
use syllog.Ir.Verify.Dataflow.{state_at, parameters}
use syllog.Ir.Verify.Dataflow.Paths.{
  Flows, here, step, available_locals-Flows, definite_initialization-Flows,
}
use syllog.Ir.Verify.Transfer.{
  consume_operand, consume_operands, consume_rvalue, define_place, consume_terminator,
  transfer_statement, transfer_statements, consume_end, transfer_block, initialize_statement,
  initialize_statements, initialize_end, initialize_block, definite_initialization,
  available_locals,
}
use syllog.Ir.Verify.Dataflow.Walks.{
  Walk, at_entry, along, IsParameter, operands_of, Unmoved, HoldsAfter, HoldsAfterAll,
  HoldsAfterEnd, Holds, AssignedBy, ReturnedInto, Given,
}

module _ (l : LocalId) where
  consume_operand-Unmoved :
      (o : Operand) (s : LocalSet)
      → contains (consume_operand o s) l ≡ true
      → (contains s l ≡ true) × (o ≢ move l)
  unfolding consume_operand
  consume_operand-Unmoved (constant c) s h = (h, λ e. absurd (cc))
  consume_operand-Unmoved (copy k) s h = (h, λ e. absurd (cc))
  consume_operand-Unmoved (move k) s h = ground (arith, contains-remove s k l)

  -- What is left after a removal was there and is another local.
  contains-remove-other :
      (k : LocalId) (s : LocalSet)
      → contains (remove s k) l ≡ true
      → (contains s l ≡ true) × (k ≢ l)
  contains-remove-other k s h = ground (arith, contains-remove s k l)

  consume_operands-Unmoved :
      (os : List Operand) (s : LocalSet)
      → contains (consume_operands os s) l ≡ true
      → (contains s l ≡ true) × Unmoved l os
  unfolding consume_operands
  consume_operands-Unmoved [] s h = (h, tt)
  consume_operands-Unmoved (o ∷ os) s h =
      let (there, rest) = consume_operands-Unmoved os (consume_operand o s) h in
      let (held, first) = consume_operand-Unmoved o s there in (held, (first, rest))

  consume_rvalue-Unmoved :
      (v : Rvalue) (s : LocalSet)
      → contains (consume_rvalue v s) l ≡ true
      → (contains s l ≡ true) × Unmoved l (operands_of v)
  unfolding consume_rvalue consume_operands
  consume_rvalue-Unmoved (borrow mutable place) s h = (h, tt)
  consume_rvalue-Unmoved (use_operand o) s h = consume_operands-Unmoved (o ∷ []) s h
  consume_rvalue-Unmoved (discriminant o) s h = consume_operands-Unmoved (o ∷ []) s h
  consume_rvalue-Unmoved (Rvalue.aggregate id tag fields) s h = consume_operands-Unmoved fields s h
  consume_rvalue-Unmoved (binary op left right) s h =
      consume_operands-Unmoved (left ∷ right ∷ []) s h

  define_place-cases :
      (p : Place) (s : LocalSet)
      → contains (define_place p s) l ≡ true
      → (p ≡ Place.local l) ⊎ (contains s l ≡ true)
  unfolding define_place
  define_place-cases (Place.field base index) s h = inr h
  define_place-cases (Place.local k) s h = elim (Bool-cases (k == l)) [
    | inl same ↦ inl (ap Place.local ((==_iff k l).0 same))
    | inr other ↦ inr (ground (arith, contains-insert s k l))
  ]

  transfer_statement-HoldsAfter :
      {P : Type 0} (x : Statement) (s : LocalSet)
      → (contains s l ≡ true → P)
      → contains (transfer_statement x s) l ≡ true
      → HoldsAfter l x P
  unfolding transfer_statement place_local
  transfer_statement-HoldsAfter (assign destination value) s known h =
      elim (define_place-cases destination (consume_rvalue value s) h) [
        | inl given ↦ inl given
        | inr kept ↦
            let (held, unmoved) = consume_rvalue-Unmoved value s kept in inr (known held, unmoved)
      ]
  transfer_statement-HoldsAfter (drop (Place.local k)) s known h =
      let (held, other) = contains-remove-other k s h in (known held, other)
  transfer_statement-HoldsAfter (drop (Place.field k index)) s known h =
      let (held, other) = contains-remove-other k s h in (known held, other)

  transfer_statements-HoldsAfterAll :
      (xs : List Statement) {P : Type 0} (s : LocalSet)
      → (contains s l ≡ true → P)
      → contains (transfer_statements xs s) l ≡ true
      → HoldsAfterAll l xs P
  unfolding transfer_statements
  transfer_statements-HoldsAfterAll [] s known h = known h
  transfer_statements-HoldsAfterAll (x ∷ xs) s known h =
      transfer_statements-HoldsAfterAll xs (transfer_statement x s)
        (transfer_statement-HoldsAfter x s known) h

  consume_end-HoldsAfterEnd :
      {P : Type 0} (t : Option Terminator) (s : LocalSet)
      → (contains s l ≡ true → P)
      → contains (consume_end t s) l ≡ true
      → HoldsAfterEnd l t P
  unfolding consume_end consume_terminator
  consume_end-HoldsAfterEnd none s known h = known h
  consume_end-HoldsAfterEnd (some Terminator.return) s known h = known h
  consume_end-HoldsAfterEnd (some (goto target)) s known h = known h
  consume_end-HoldsAfterEnd (some (switch_int value targets otherwise)) s known h =
      let (held, unmoved) = consume_operand-Unmoved value s h in (known held, unmoved)
  consume_end-HoldsAfterEnd (some (Terminator.call id args destination next)) s known h =
      elim (define_place-cases destination (consume_operands args s) h) [
        | inl given ↦ inl given
        | inr kept ↦
            let (held, unmoved) = consume_operands-Unmoved args s kept in inr (known held, unmoved)
      ]

  initialize_statements-AssignedBy :
      (xs : List Statement) (s : LocalSet)
      → contains (initialize_statements xs s) l ≡ true
      → AssignedBy l xs ⊎ (contains s l ≡ true)
  unfolding initialize_statements initialize_statement
  initialize_statements-AssignedBy [] s h = inr h
  initialize_statements-AssignedBy (drop place ∷ xs) s h = initialize_statements-AssignedBy xs s h
  initialize_statements-AssignedBy (assign destination value ∷ xs) s h =
      elim (initialize_statements-AssignedBy xs (define_place destination s) h) [
        | inl later ↦ inl (inr later)
        | inr there ↦ elim (define_place-cases destination s there) [
          | inl given ↦ inl (inl given)
          | inr before ↦ inr before
        ]
      ]

  initialize_end-ReturnedInto :
      (t : Option Terminator) (s : LocalSet)
      → contains (initialize_end t s) l ≡ true
      → ReturnedInto l t ⊎ (contains s l ≡ true)
  unfolding initialize_end
  initialize_end-ReturnedInto none s h = inr h
  initialize_end-ReturnedInto (some Terminator.return) s h = inr h
  initialize_end-ReturnedInto (some (goto target)) s h = inr h
  initialize_end-ReturnedInto (some (switch_int value targets otherwise)) s h = inr h
  initialize_end-ReturnedInto (some (Terminator.call id args destination next)) s h =
      define_place-cases destination s h

-- The set that a transfer function makes of the parameters along some blocks.
abbrev left_behind : (BasicBlock → LocalSet → LocalSet) → MirFunction → List BasicBlock → LocalSet
left_behind transfer f [] = parameters f
left_behind transfer f (block ∷ behind) = transfer block (left_behind transfer f behind)

module _ (f : MirFunction) where
  Walk-Flows :
      (transfer : BasicBlock → LocalSet → LocalSet) (c : BlockId) (behind : List BasicBlock)
      → Walk f c behind
      → Flows transfer f c (left_behind transfer f behind)
  Walk-Flows transfer c behind at_entry = here
  Walk-Flows transfer c behind (along {b = b} {behind = earlier} block walk e m lt) =
      step block (Walk-Flows transfer b earlier walk) e m lt

  parameters-IsParameter : (l : LocalId) → contains (parameters f) l ≡ true → IsParameter f l
  unfolding parameters
  parameters-IsParameter l h =
      let (low, high) = contains-range 1 f.parameter_count l h in (low, omega arith)

  left_behind-Holds :
      (l : LocalId) (behind : List BasicBlock)
      → contains (left_behind transfer_block f behind) l ≡ true
      → Holds l f behind
  unfolding transfer_block
  left_behind-Holds l [] h = parameters-IsParameter l h
  left_behind-Holds l (block ∷ behind) h =
      consume_end-HoldsAfterEnd l block.terminator
        (transfer_statements block.statements (left_behind transfer_block f behind))
        (transfer_statements-HoldsAfterAll l block.statements (left_behind transfer_block f behind)
          (left_behind-Holds l behind))
        h

  left_behind-Given :
      (l : LocalId) (behind : List BasicBlock)
      → contains (left_behind initialize_block f behind) l ≡ true
      → Given l f behind
  unfolding initialize_block
  left_behind-Given l [] h = parameters-IsParameter l h
  left_behind-Given l (block ∷ behind) h =
      let s = left_behind initialize_block f behind in
      elim (initialize_end-ReturnedInto l block.terminator
        (initialize_statements block.statements s) h) [
          | inl returned ↦ inr (inl returned)
          | inr there ↦ elim (initialize_statements-AssignedBy l block.statements s there) [
            | inl assigned ↦ inl assigned
            | inr before ↦ inr (inr (left_behind-Given l behind before))
          ]
        ]

  -- In a function with at least one block, where a path from the entry leads to a block, the
  -- ownership analysis has a set for that block, and each local in it holds a value at the end of
  -- the path: it is a parameter, or was assigned or the destination of a call on the path, and no
  -- operand has moved it and no statement has dropped it since.
  pub available_locals-Holds :
      (nonempty : 0 < length f.blocks) (c : BlockId) (behind : List BasicBlock)
      → Walk f c behind
      → (s : LocalSet) × (state_at (available_locals f) c ≡ some s)
        × ((l : LocalId) → contains s l ≡ true → Holds l f behind)
  available_locals-Holds nonempty c behind walk =
      let flow = Walk-Flows transfer_block c behind walk in
      let (s, e, sub) =
        available_locals-Flows f nonempty c (left_behind transfer_block f behind) flow in
      (s, e, λ l h. left_behind-Holds l behind (sub l h))

  -- In a function with at least one block, where a path from the entry leads to a block, the
  -- analysis of definite initialization has a set for that block, and each local in it is a
  -- parameter, or a block that the path leaves behind assigns it or calls a function into it.
  pub definite_initialization-Given :
      (nonempty : 0 < length f.blocks) (c : BlockId) (behind : List BasicBlock)
      → Walk f c behind
      → (s : LocalSet) × (state_at (definite_initialization f) c ≡ some s)
        × ((l : LocalId) → contains s l ≡ true → Given l f behind)
  definite_initialization-Given nonempty c behind walk =
      let flow = Walk-Flows initialize_block c behind walk in
      let (s, e, sub) =
        definite_initialization-Flows f nonempty c (left_behind initialize_block f behind) flow in
      (s, e, λ l h. left_behind-Given l behind (sub l h))
