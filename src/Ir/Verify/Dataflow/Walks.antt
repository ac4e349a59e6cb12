-- ===== src/Ir/Verify/Dataflow/Walks.antt =====
-- The paths of a function in crates/syllog-ir/src/verify.rs, and the locals that hold a value or were
-- given one on them: told by moves, drops, assignments and calls, without any set of locals.
use syllog.Prelude.{
  ◌<◌, ◌≤◌, ◌≡◌, ◌≢◌, ◌⊎◌, true, List, [], ◌∷◌, All, Option, some, length, get_elem?,
}
use syllog.Ir.Syntax.{
  Operand, move, Place, Rvalue, borrow, use_operand, binary, discriminant, Statement, assign, drop,
  Terminator, switch_int, BlockId, LocalId, BasicBlock, MirFunction,
}
use syllog.Ir.Verify.LocalSet.{contains}
use syllog.Ir.Verify.Control.{block_successors}

-- A path from the entry to a block, with the blocks that it leaves behind, the last one first.
pub data Walk (f : MirFunction) : BlockId → List BasicBlock → Type 0 where
  at_entry : Walk f 0 []
  along :
      {b c : BlockId} {behind : List BasicBlock} (block : BasicBlock)
      → Walk f b behind
      → get_elem? f.blocks b ≡ some block
      → contains (block_successors block) c ≡ true
      → c < length f.blocks
      → Walk f c (block ∷ behind)

abbrev pub IsParameter : MirFunction → LocalId → Type 0
IsParameter f l = (1 ≤ l) × (l ≤ f.parameter_count)

-- The operands that a value is computed from.
abbrev pub operands_of : Rvalue → List Operand
operands_of (borrow mutable place) = []
operands_of (use_operand o) = o ∷ []
operands_of (discriminant o) = o ∷ []
operands_of (Rvalue.aggregate id tag fields) = fields
operands_of (binary op left right) = left ∷ right ∷ []

module _ (l : LocalId) where
  -- None of some operands moves the local.
  abbrev pub Unmoved : List Operand → Type 0
  Unmoved os = All (λ o. o ≢ move l) os

  -- The local holds a value after a statement, given whether it holds one before.
  abbrev pub HoldsAfter : Statement → Type 0 → Type 0
  HoldsAfter (assign destination value) before =
      (destination ≡ Place.local l) ⊎ (before × Unmoved (operands_of value))
  HoldsAfter (drop (Place.local k)) before = before × (k ≢ l)
  HoldsAfter (drop (Place.field base index)) before = before × (base ≢ l)

  abbrev pub HoldsAfterAll : List Statement → Type 0 → Type 0
  HoldsAfterAll [] before = before
  HoldsAfterAll (x ∷ xs) before = HoldsAfterAll xs (HoldsAfter x before)

  abbrev pub HoldsAfterEnd : Option Terminator → Type 0 → Type 0
  HoldsAfterEnd (some (switch_int value targets otherwise)) before = before × (value ≢ move l)
  HoldsAfterEnd (some (Terminator.call id args destination next)) before =
      (destination ≡ Place.local l) ⊎ (before × Unmoved args)
  HoldsAfterEnd _ before = before

  -- The local holds a value behind some blocks: it is a parameter or was assigned or returned into,
  -- and nothing has moved or dropped it since.
  abbrev pub Holds : MirFunction → List BasicBlock → Type 0
  Holds f [] = IsParameter f l
  Holds f (block ∷ behind) =
      HoldsAfterEnd block.terminator (HoldsAfterAll block.statements (Holds f behind))

  -- Some statement assigns the local.
  abbrev pub AssignedBy : List Statement → Type 0
  AssignedBy [] = ⊥
  AssignedBy (assign destination value ∷ xs) = (destination ≡ Place.local l) ⊎ AssignedBy xs
  AssignedBy (drop place ∷ xs) = AssignedBy xs

  abbrev pub ReturnedInto : Option Terminator → Type 0
  ReturnedInto (some (Terminator.call id args destination next)) = destination ≡ Place.local l
  ReturnedInto _ = ⊥

  -- The local is a parameter, or some of the blocks assign it or call a function into it.
  abbrev pub Given : MirFunction → List BasicBlock → Type 0
  Given f [] = IsParameter f l
  Given f (block ∷ behind) =
      AssignedBy block.statements ⊎ (ReturnedInto block.terminator ⊎ Given f behind)
