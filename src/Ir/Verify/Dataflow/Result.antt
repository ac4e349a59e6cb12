-- ===== src/Ir/Verify/Dataflow/Result.antt =====
-- The results of the two analyses of crates/syllog-ir/src/verify.rs, at the entry and across an
-- edge.
use syllog.Prelude.{suc, ◌<◌, ◌≡◌, Bool, true, false, ◌&&◌, some, arith, length, get_elem?, ◌==◌}
use syllog.Ir.Syntax.{BlockId, BasicBlock, MirFunction}
use syllog.Ir.Verify.LocalSet.{LocalSet, contains}
use syllog.Ir.Verify.Control.{block_successors, marked, reachable_blocks}
use syllog.Ir.Verify.Dataflow.{state_at, initial, parameters, total_size, follows, analyze}
use syllog.Ir.Verify.Dataflow.Fixpoint.{Subset, IsStable, propagate-IsStable}
use syllog.Ir.Verify.Dataflow.Shrink.{
  Shrinks, Shrinks-propagate, length-initial, initial-entry, initial-reachable,
}

module _ (skip_entry : Bool) (transfer : BasicBlock → LocalSet → LocalSet) (f : MirFunction)
    (nonempty : 0 < length f.blocks) where
  Shrinks-analyze : Shrinks (initial f) (analyze skip_entry transfer f)
  unfolding analyze
  Shrinks-analyze =
      Shrinks-propagate (reachable_blocks f) skip_entry transfer (suc (total_size (initial f)))
        f.blocks (initial f)

  analyze-IsStable :
      IsStable (reachable_blocks f) skip_entry transfer f.blocks (analyze skip_entry transfer f)
  unfolding analyze
  analyze-IsStable =
      propagate-IsStable (reachable_blocks f) skip_entry transfer (suc (total_size (initial f)))
        f.blocks (initial f) (omega arith)

  -- At the entry the result holds parameters only.
  pub analyze-entry :
      (s : LocalSet) × (state_at (analyze skip_entry transfer f) 0 ≡ some s)
      × Subset s (parameters f)
  analyze-entry = Shrinks-analyze.sets 0 (parameters f) (initial-entry f nonempty)

  pub analyze-reachable :
      (b : BlockId)
      → marked (reachable_blocks f) b ≡ true
      → (s : LocalSet) × (state_at (analyze skip_entry transfer f) b ≡ some s)
  analyze-reachable b m =
      let (s, e) = initial-reachable f nonempty b m in
      let (s', e', _) = Shrinks-analyze.sets b s e in (s', e')

  -- Across an edge that the analysis follows, the target's set lies in what leaves the source.
  pub analyze-edge :
      (b c : BlockId) (block : BasicBlock) (s : LocalSet)
      → get_elem? f.blocks b ≡ some block
      → state_at (analyze skip_entry transfer f) b ≡ some s
      → contains (block_successors block) c ≡ true
      → marked (reachable_blocks f) c ≡ true
      → c < length f.blocks
      → (skip_entry && c == 0) ≡ false
      → (t : LocalSet) × (state_at (analyze skip_entry transfer f) c ≡ some t)
        × Subset t (transfer block s)
  unfolding follows
  analyze-edge b c block s at_b e m r lt skip =
      let (t, e') = analyze-reachable c r in
      let len = Shrinks-analyze.size in
      let len' = length-initial f nonempty in
      let follow : follows (reachable_blocks f) skip_entry (analyze skip_entry transfer f) c
          ≡ true =
        ground (arith, len, len') in
      (t, e', analyze-IsStable b block s at_b e c m follow t e')
