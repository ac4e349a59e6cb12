-- ===== src/Ir/Verify/Control.antt =====
-- crates/syllog-ir/src/verify.rs: `successors`, `place_local` and `reachable_blocks`. The queue of
-- the source is a list, and each round of its loop spends one fuel.
pub mod Reach
use syllog.Prelude.{
  ℕ, zero, suc, ◌+◌, Bool, true, false, List, [], ◌∷◌, ◌++◌, map, none, some, length, get_elem?,
  set, replicate,
}
use syllog.Ir.Syntax.{
  BlockId, LocalId, Place, Terminator, goto, switch_int, BasicBlock, MirFunction,
}

unfoldable pub place_local : Place → LocalId
place_local (Place.local l) = l
place_local (Place.field base _) = base

unfoldable pub successors : Terminator → List BlockId
successors Terminator.return = []
successors (goto target) = target ∷ []
successors (switch_int value targets otherwise) = map (λ t. t.1) targets ++ otherwise ∷ []
successors (Terminator.call function args destination next) = next ∷ []

-- The edges out of a block, none where the terminator is missing.
unfoldable pub block_successors : BasicBlock → List BlockId
unfolding successors
block_successors b = elim b.terminator [ none ↦ [] | some t ↦ successors t ]

-- `reachable[index]`.
unfoldable pub marked : List Bool → BlockId → Bool
marked reachable b = elim (get_elem? reachable b) [ none ↦ false | some m ↦ m ]

-- One round: the block at the head of the queue is skipped where it lies outside the function or is
-- marked, and otherwise marked and its successors queued.
record Search : Type 0 where
  reachable : List Bool
  queue : List BlockId

-- Edges out of the block with this index.
unfoldable pub edges : List BasicBlock → BlockId → List BlockId
edges blocks b = elim (get_elem? blocks b) [ none ↦ [] | some block ↦ block_successors block ]

visit : List BasicBlock → BlockId → Search → Search
visit blocks b s = elim (get_elem? s.reachable b) [
  | none ↦ s
  | some true ↦ s
  | some false ↦ record { reachable = set s.reachable b true; queue = s.queue ++ edges blocks b }
]

search_blocks : ℕ → List BasicBlock → Search → Search
search_blocks zero blocks s = s
search_blocks (suc fuel) blocks s = elim s.queue [
  | [] ↦ s
  | b ∷ rest ↦ search_blocks fuel blocks (visit blocks b (record s { queue = rest }))
]

-- All edges of the function: each is queued once at most.
edge_count : List BasicBlock → ℕ
edge_count [] = 0
edge_count (b ∷ blocks) = length (block_successors b) + edge_count blocks

start : List BasicBlock → Search
start blocks = record { reachable = replicate (length blocks) false; queue = 0 ∷ [] }

unfoldable pub reachable_blocks : MirFunction → List Bool
unfolding search_blocks visit edges block_successors start edge_count
reachable_blocks f = (search_blocks (suc (edge_count f.blocks)) f.blocks (start f.blocks)).reachable
