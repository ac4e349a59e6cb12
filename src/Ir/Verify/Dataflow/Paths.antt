-- ===== src/Ir/Verify/Dataflow/Paths.antt =====
-- The two analyses of crates/syllog-ir/src/verify.rs and the paths of a function.
use syllog.Prelude.{
  ◌<◌, ◌≡◌, true, false, List, [], ◌∷◌, Option, none, some, arith, length, get_elem?, ◌==◌,
  Bool-cases, inl, inr, ==_iff, ap, ◌∙◌, sym, refl,
}
use syllog.Ir.Syntax.{
  Operand, constant, copy, move, Place, Rvalue, borrow, use_operand, binary, discriminant,
  Statement, assign, drop, Terminator, goto, switch_int, BlockId, LocalId, BasicBlock, MirFunction,
}
use syllog.Ir.Verify.LocalSet.{LocalSet, contains, remove, contains-insert, contains-remove}
use syllog.Ir.Verify.Control.{place_local, block_successors, edges, marked, reachable_blocks}
use syllog.Ir.Verify.Control.Reach.{reachable_blocks-entry, reachable_blocks-closed}
use syllog.Ir.Verify.Dataflow.{state_at, parameters}
use syllog.Ir.Verify.Dataflow.Fixpoint.{Subset}
use syllog.Ir.Verify.Dataflow.Result.{analyze-entry, analyze-edge}
use syllog.Ir.Verify.Transfer.{
  consume_operand, consume_operands, consume_rvalue, define_place, consume_terminator,
  transfer_statement, transfer_statements, consume_end, transfer_block, initialize_block,
  definite_initialization, available_locals,
}
use syllog.Ir.Verify.Safety.Initialized.{Adds-block}

-- A path from the entry to a block, with the set that the blocks on it leave, from the parameters on.
pub data Flows (transfer : BasicBlock → LocalSet → LocalSet) (f : MirFunction)
    : BlockId → LocalSet → Type 0 where
  here : Flows transfer f 0 (parameters f)
  step :
      {b c : BlockId} {s : LocalSet} (block : BasicBlock)
      → Flows transfer f b s
      → get_elem? f.blocks b ≡ some block
      → contains (block_successors block) c ≡ true
      → c < length f.blocks
      → Flows transfer f c (transfer block s)

abbrev pub Monotone : (LocalSet → LocalSet) → Type 0
Monotone g = (s t : LocalSet) → Subset s t → Subset (g s) (g t)

pub Monotone-remove : (l : LocalId) → Monotone (λ s. remove s l)
Monotone-remove l s t sub k h = ground (arith, contains-remove s l k, contains-remove t l k, sub k)

pub Monotone-operand : (o : Operand) → Monotone (consume_operand o)
unfolding consume_operand
Monotone-operand (move l) s t sub = Monotone-remove l s t sub
Monotone-operand (copy l) s t sub = sub
Monotone-operand (constant c) s t sub = sub

Monotone-operands : (os : List Operand) → Monotone (consume_operands os)
unfolding consume_operands
Monotone-operands [] s t sub = sub
Monotone-operands (o ∷ os) s t sub = Monotone-operands os _ _ (Monotone-operand o s t sub)

pub Monotone-rvalue : (v : Rvalue) → Monotone (consume_rvalue v)
unfolding consume_rvalue
Monotone-rvalue (borrow mutable place) s t sub = sub
Monotone-rvalue (use_operand o) s t sub = Monotone-operand o s t sub
Monotone-rvalue (discriminant o) s t sub = Monotone-operand o s t sub
Monotone-rvalue (Rvalue.aggregate id tag fields) s t sub = Monotone-operands fields s t sub
Monotone-rvalue (binary op left right) s t sub =
    Monotone-operand right _ _ (Monotone-operand left s t sub)

pub Monotone-define : (p : Place) → Monotone (define_place p)
unfolding define_place
Monotone-define (Place.field base index) s t sub k h = sub k h
Monotone-define (Place.local l) s t sub k h =
    ground (arith, contains-insert s l k, contains-insert t l k, sub k)

pub Monotone-statements : (xs : List Statement) → Monotone (transfer_statements xs)
unfolding transfer_statements transfer_statement
Monotone-statements [] s t sub = sub
Monotone-statements (assign destination value ∷ xs) s t sub =
    Monotone-statements xs _ _ (Monotone-define destination _ _ (Monotone-rvalue value s t sub))
Monotone-statements (drop place ∷ xs) s t sub =
    Monotone-statements xs _ _ (Monotone-remove (place_local place) s t sub)

Monotone-end : (t : Option Terminator) → Monotone (consume_end t)
unfolding consume_end consume_terminator
Monotone-end none s t sub = sub
Monotone-end (some Terminator.return) s t sub = sub
Monotone-end (some (goto target)) s t sub = sub
Monotone-end (some (switch_int value targets otherwise)) s t sub = Monotone-operand value s t sub
Monotone-end (some (Terminator.call id args destination next)) s t sub =
    Monotone-define destination _ _ (Monotone-operands args s t sub)

pub Monotone-block : (b : BasicBlock) → Monotone (transfer_block b)
unfolding transfer_block
Monotone-block b s t sub = Monotone-end b.terminator _ _ (Monotone-statements b.statements s t sub)

Monotone-initialize : (b : BasicBlock) → Monotone (initialize_block b)
Monotone-initialize b s t sub l h = elim (Adds-block b l) [
  | inr always ↦ always t
  | inl same ↦ same t ∙ sub l (sym (same s) ∙ h)
]

module _ (f : MirFunction) (nonempty : 0 < length f.blocks) where
  Flows-marked :
      (transfer : BasicBlock → LocalSet → LocalSet) (c : BlockId) (t : LocalSet)
      → Flows transfer f c t
      → marked (reachable_blocks f) c ≡ true
  unfolding edges
  Flows-marked transfer c t here = reachable_blocks-entry f nonempty
  Flows-marked transfer c t (step {b = b} {s = s} block path e m lt) =
      reachable_blocks-closed f nonempty b c (Flows-marked transfer b s path) (rw (e, edges) m) lt

  -- The set of the ownership analysis at the end of a path is within the set that the path leaves.
  pub available_locals-Flows :
      (c : BlockId) (t : LocalSet)
      → Flows transfer_block f c t
      → (s : LocalSet) × (state_at (available_locals f) c ≡ some s) × Subset s t
  unfolding available_locals
  available_locals-Flows c t here = analyze-entry false transfer_block f nonempty
  available_locals-Flows c t (step {b = b} {s = u} block path e m lt) =
      let (s, at_b, sub) = available_locals-Flows b u path in
      let r = Flows-marked transfer_block c t (step block path e m lt) in
      let (w, at_c, sub') =
        analyze-edge false transfer_block f nonempty b c block s e at_b m r lt refl in
      (w, at_c, λ l h. Monotone-block block s u sub l (sub' l h))

  Flows-parameters :
      (c : BlockId) (t : LocalSet) → Flows initialize_block f c t → Subset (parameters f) t
  Flows-parameters c t here l h = h
  Flows-parameters c t (step {b = b} {s = u} block path e m lt) l h = elim (Adds-block block l) [
    | inr always ↦ always u
    | inl same ↦ same u ∙ Flows-parameters b u path l h
  ]

  -- The same for the analysis of definite initialization.
  pub definite_initialization-Flows :
      (c : BlockId) (t : LocalSet)
      → Flows initialize_block f c t
      → (s : LocalSet) × (state_at (definite_initialization f) c ≡ some s) × Subset s t
  unfolding definite_initialization
  definite_initialization-Flows c t here = analyze-entry true initialize_block f nonempty
  definite_initialization-Flows c t (step {b = b} {s = u} block path e m lt) =
      elim (Bool-cases (c == 0)) [
        | inl entry ↦
            let (w, at_0, sub) = analyze-entry true initialize_block f nonempty in
            (
              w,
              ap (state_at (definite_initialization f)) ((==_iff c 0).0 entry) ∙ at_0,
              λ l h. Flows-parameters c t (step block path e m lt) l (sub l h),
            )
        | inr inner ↦
            let (s, at_b, sub) = definite_initialization-Flows b u path in
            let r = Flows-marked initialize_block c t (step block path e m lt) in
            let (w, at_c, sub') =
              analyze-edge true initialize_block f nonempty b c block s e at_b m r lt inner in
            (w, at_c, λ l h. Monotone-initialize block s u sub l (sub' l h))
      ]
