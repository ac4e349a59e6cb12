-- ===== src/Ir/Verify/Dataflow.antt =====
-- crates/syllog-ir/src/verify.rs: the loop that `definite_initialization` and
-- `verify_affine_ownership` share, over a function's blocks, the transfer function of a block, and
-- whether edges back to the entry are passed over. The source writes the loop out twice.
pub mod Fixpoint
pub mod Result
pub mod Paths
pub mod Walks
pub mod Meaning
pub mod Shrink
use syllog.Prelude.{
  ℕ, zero, suc, ◌+◌, Bool, true, false, not, ◌&&◌, List, [], ◌∷◌, map, Option, none, some, ltb,
  ◌==◌, if◌then◌else◌, length, get_elem?, set, min, ◌^◌,
}
use syllog.Ir.Syntax.{BlockId, BasicBlock, MirFunction}
use syllog.Ir.Verify.LocalSet.{LocalSet, intersection, set_eq, range}
use syllog.Ir.Verify.Control.{block_successors, marked, reachable_blocks}

-- `incoming` of the source: no set for a block that is not reachable.
abbrev pub Incoming : Type 0
Incoming = List (Option LocalSet)

pub record Round : Type 0 where
  pub incoming : Incoming
  pub changed : Bool

-- `incoming[index].clone()`, with none where the index is out of range.
unfoldable pub state_at : Incoming → BlockId → Option LocalSet
state_at incoming b = elim (get_elem? incoming b) [ none ↦ none | some state ↦ state ]

unfoldable pub universe : MirFunction → LocalSet
universe f = range 0 (min (length f.locals) (2 ^ 32))

unfoldable pub parameters : MirFunction → LocalSet
parameters f = range 1 f.parameter_count

unfoldable pub initial : MirFunction → Incoming
initial f =
    set (map (λ r. if r then some (universe f) else none) (reachable_blocks f)) 0
      (some (parameters f))

-- The number of elements of all sets.
unfoldable pub total_size : Incoming → ℕ
total_size [] = 0
total_size (none ∷ incoming) = total_size incoming
total_size (some s ∷ incoming) = length s + total_size incoming

module _ (reachable : List Bool) (skip_entry : Bool) where
  -- The edges that the loop follows.
  unfoldable pub follows : Incoming → BlockId → Bool
  follows incoming successor =
      ltb successor (length incoming)
      && marked reachable successor
      && not (skip_entry && successor == 0)

  unfoldable pub merge : LocalSet → Round → BlockId → LocalSet → Round
  merge outgoing r successor current =
      let merged = intersection current outgoing in
      if set_eq merged current
      then r
      else record { incoming = set r.incoming successor (some merged); changed = true }

  unfoldable pub relax : LocalSet → Round → BlockId → Round
  relax outgoing r successor =
      if follows r.incoming successor
      then elim (state_at r.incoming successor) [
        | none ↦ r
        | some current ↦ merge outgoing r successor current
      ]
      else r

  unfoldable pub relax_all : LocalSet → Round → List BlockId → Round
  relax_all outgoing r [] = r
  relax_all outgoing r (successor ∷ rest) = relax_all outgoing (relax outgoing r successor) rest

  module _ (transfer : BasicBlock → LocalSet → LocalSet) where
    unfoldable pub flow_block : ℕ → BasicBlock → Round → Round
    flow_block index block r = elim (state_at r.incoming index) [
      | none ↦ r
      | some state ↦ relax_all (transfer block state) r (block_successors block)
    ]

    -- The `for` loop over the blocks, from the block with this index on.
    unfoldable pub flow_blocks : ℕ → List BasicBlock → Round → Round
    flow_blocks index [] r = r
    flow_blocks index (block ∷ blocks) r = flow_blocks (suc index) blocks (flow_block index block r)

    -- The `while` loop: a round that changes a set is followed by another.
    unfoldable pub propagate : ℕ → List BasicBlock → Incoming → Incoming
    propagate zero blocks incoming = incoming
    propagate (suc fuel) blocks incoming =
        let r = flow_blocks 0 blocks (record { incoming = incoming; changed = false }) in
        elim r.changed [ true ↦ propagate fuel blocks r.incoming | false ↦ r.incoming ]

-- The result of an analysis. Each round but the last takes an element from some set.
unfoldable pub analyze : Bool → (BasicBlock → LocalSet → LocalSet) → MirFunction → Incoming
analyze skip_entry transfer f =
    propagate (reachable_blocks f) skip_entry transfer (suc (total_size (initial f))) f.blocks
      (initial f)
