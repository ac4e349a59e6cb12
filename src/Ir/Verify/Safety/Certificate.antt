-- ===== src/Ir/Verify/Safety/Certificate.antt =====
-- `verify_function` and `verify_affine_ownership` of crates/syllog-ir/src/verify.rs, taken apart by
-- block, at the blocks and with the sets of locals that a run can have.
use syllog.Prelude.{
  ℕ, zero, suc, ◌+◌, ◌<◌, ◌≡◌, refl, true, false, List, [], ◌∷◌, Option, none, some, arith, length,
  get_elem?, append-eq-nil, subst, ltb, if◌then◌else◌, Bool-cases, ◌==◌, ==_iff, inl, inr, to_u32,
  List-cases,
}
use syllog.Ir.Syntax.{BlockId, Terminator, BasicBlock, MirFunction}
use syllog.Ir.Verify.Errors.{VerificationError, invalid_block_target}
use syllog.Ir.Verify.LocalSet.{LocalSet, contains}
use syllog.Ir.Verify.Control.{successors, block_successors, edges, marked, reachable_blocks}
use syllog.Ir.Verify.Control.Reach.{reachable_blocks-entry, reachable_blocks-closed}
use syllog.Ir.Verify.Dataflow.{Incoming, state_at, parameters}
use syllog.Ir.Verify.Dataflow.Fixpoint.{Subset}
use syllog.Ir.Verify.Dataflow.Result.{analyze-entry, analyze-edge}
use syllog.Ir.Verify.Transfer.{
  transfer_block, initialize_block, ever_initialized, definite_initialization, available_locals,
}
use syllog.Ir.Verify.Ownership.{
  check_reached_ownership, check_blocks_ownership, verify_affine_ownership,
}
use syllog.Ir.Verify.Typing.{
  verify_block, verify_blocks, target_errors, verify_target, verify_targets, verify_body,
  verify_function,
}
use syllog.Ir.Verify.Safety.{BlockSafe}
use syllog.Ir.Verify.Safety.Initialized.{ever_initialized-block, parameters-Subset}
use syllog.Ir.Verify.Safety.Blocks.{check_block_lem}

module _ (functions : List MirFunction) (f : MirFunction) where
  verify_targets-at :
      (i : ℕ) (blocks : List BasicBlock) (j k : ℕ) (b : BasicBlock)
      → i + j ≡ k
      → verify_targets functions f i blocks ≡ []
      → get_elem? blocks j ≡ some b
      → verify_target functions f (to_u32 k) b.terminator ≡ []
  unfolding verify_targets
  verify_targets-at i [] j k b at_k h e = absurd (cc)
  verify_targets-at i (x ∷ blocks) zero k b at_k h e =
      let same : x ≡ b = cc e in
      let at_i : k ≡ i = omega arith in rw (at_i, ← same) (append-eq-nil _ _ h).0
  verify_targets-at i (x ∷ blocks) (suc j) k b at_k h e =
      verify_targets-at (suc i) blocks j k b (omega arith) (append-eq-nil _ _ h).1 e

  verify_blocks-at :
      (inc : Incoming) (i : ℕ) (blocks : List BasicBlock) (j k : ℕ) (b : BasicBlock)
      → i + j ≡ k
      → verify_blocks functions f inc i blocks ≡ []
      → get_elem? blocks j ≡ some b
      → verify_block functions f (to_u32 k) b (state_at inc k) ≡ []
  unfolding verify_blocks
  verify_blocks-at inc i [] j k b at_k h e = absurd (cc)
  verify_blocks-at inc i (x ∷ blocks) zero k b at_k h e =
      let same : x ≡ b = cc e in
      let at_i : k ≡ i = omega arith in rw (at_i, ← same) (append-eq-nil _ _ h).0
  verify_blocks-at inc i (x ∷ blocks) (suc j) k b at_k h e =
      verify_blocks-at inc (suc i) blocks j k b (omega arith) (append-eq-nil _ _ h).1 e

  check_blocks-at :
      (inc : Incoming) (i : ℕ) (blocks : List BasicBlock) (j k : ℕ) (b : BasicBlock)
      → i + j ≡ k
      → check_blocks_ownership f inc i blocks ≡ []
      → get_elem? blocks j ≡ some b
      → check_reached_ownership f k b (state_at inc k) ≡ []
  unfolding check_blocks_ownership
  check_blocks-at inc i [] j k b at_k h e = absurd (cc)
  check_blocks-at inc i (x ∷ blocks) zero k b at_k h e =
      let same : x ≡ b = cc e in
      let at_i : k ≡ i = omega arith in rw (at_i, ← same) (append-eq-nil _ _ h).0
  check_blocks-at inc i (x ∷ blocks) (suc j) k b at_k h e =
      check_blocks-at inc (suc i) blocks j k b (omega arith) (append-eq-nil _ _ h).1 e

  in_range_lem :
      (x : BlockId) (e : VerificationError)
      → (if ltb x (length f.blocks) then [] else e ∷ []) ≡ []
      → x < length f.blocks
  in_range_lem x e h = ground arith

  -- Accepted targets lie inside the function.
  target_errors_lem :
      (block : BlockId) (targets : List BlockId)
      → target_errors functions f block targets ≡ []
      → (c : BlockId) → contains targets c ≡ true
      → c < length f.blocks
  unfolding target_errors contains
  target_errors_lem block [] h c m = absurd (cc)
  target_errors_lem block (x ∷ targets) h c m =
      let e = invalid_block_target f.id block x in
      let (in_range, rest) =
        append-eq-nil (if ltb x (length f.blocks) then [] else e ∷ [])
          (target_errors functions f block targets) h in
      elim (Bool-cases (x == c)) [
        | inl same ↦
            subst (λ y. y < length f.blocks) ((==_iff x c).0 same) (in_range_lem x e in_range)
        | inr other ↦ target_errors_lem block targets rest c (rw other at m)
      ]

  -- The successors of a terminator that may be missing.
  abbrev pub targets_of : Option Terminator → List BlockId
  targets_of t = elim t [ none ↦ [] | some t ↦ successors t ]

  verify_target_lem :
      (block : BlockId) (t : Option Terminator)
      → verify_target functions f block t ≡ []
      → (c : BlockId) → contains (targets_of t) c ≡ true
      → c < length f.blocks
  unfolding verify_target contains
  verify_target_lem block none h c m = absurd (cc)
  verify_target_lem block (some t) h c m =
      target_errors_lem block (successors t) (append-eq-nil _ _ h).0 c m

  -- The function pushes no error, taken apart.
  pub record Accepted : Type 0 where
    pub nonempty : 0 < length f.blocks
    pub fits : f.parameter_count < length f.locals
    pub targets : verify_targets functions f 0 f.blocks ≡ []
    pub typed : verify_blocks functions f (definite_initialization f) 0 f.blocks ≡ []
    pub owned : check_blocks_ownership f (available_locals f) 0 f.blocks ≡ []

  verify_body_lem :
      0 < length f.blocks
      → verify_body functions f ≡ []
      → check_blocks_ownership f (available_locals f) 0 f.blocks ≡ []
      → Accepted
  unfolding verify_body
  verify_body_lem nonempty body owned =
      elim (Bool-cases (ltb (length f.locals) (f.parameter_count + 1))) [
        | inl short ↦ absurd (cc (rw (short, verify_body) at body))
        | inr fits ↦
            let (targets, typed) = append-eq-nil _ _ (rw (fits, verify_body) at body) in
            record {
              nonempty = nonempty;
              fits = ground arith;
              targets = targets;
              typed = typed;
              owned = owned;
            }
      ]

  pub Accepted_of_verify :
      verify_function functions f ≡ [] → verify_affine_ownership f ≡ [] → Accepted
  unfolding verify_function verify_affine_ownership
  Accepted_of_verify v o = elim (List-cases f.locals) [
    | inl e ↦ absurd (cc (rw (e, verify_function) at v))
    | inr (t, ts, e) ↦ elim (List-cases f.blocks) [
      | inl e' ↦ absurd (cc (rw (e, e', verify_function) at v))
      | inr (b, bs, e') ↦
          let v' = rw (e, e', verify_function) at v in
          let o' = rw (e', verify_affine_ownership) at o in
          verify_body_lem (rw e' (omega arith)) (append-eq-nil _ _ v').1 o'
    ]
  ]

  -- A block that a run can be at, with locals that hold a value there: no others were initialized.
  pub record Good (k : BlockId) (s : LocalSet) : Type 0 where
    pub mark : marked (reachable_blocks f) k ≡ true
    pub in_range : k < length f.blocks
    pub available : state_at (available_locals f) k ≡ some s
    pub defined :
        (d : LocalSet) × (state_at (definite_initialization f) k ≡ some d)
        × Subset d (ever_initialized f)

module _ (functions : List MirFunction) (f : MirFunction) (acc : Accepted functions f) where
  pub Good-entry : (s : LocalSet) × Good functions f 0 s × Subset s (parameters f)
  unfolding available_locals definite_initialization
  Good-entry =
      let (s, e, sub) = analyze-entry false transfer_block f acc.nonempty in
      let (d, e', sub') = analyze-entry true initialize_block f acc.nonempty in
      (
        s,
        record {
          mark = reachable_blocks-entry f acc.nonempty;
          in_range = acc.nonempty;
          available = e;
          defined = (d, e', λ l h. parameters-Subset f l (sub' l h));
        },
        sub,
      )

  pub Good-safe :
      (k : BlockId) (s : LocalSet) (b : BasicBlock)
      → Good functions f k s
      → get_elem? f.blocks k ≡ some b
      → BlockSafe functions f b s
  unfolding check_reached_ownership
  Good-safe k s b good e =
      let (d, at_d, sub) = good.defined in
      check_block_lem functions f (to_u32 k) (ever_initialized f) b s d
        (ever_initialized-block f k b d e sub)
        (verify_targets-at functions f 0 f.blocks k k b (omega arith) acc.targets e)
        (rw (good.available, check_reached_ownership) at
          (check_blocks-at functions f (available_locals f) 0 f.blocks k k b (omega arith) acc.owned
            e))
        (rw at_d at (
          verify_blocks-at functions f (definite_initialization f) 0 f.blocks k k b (omega arith)
            acc.typed e))

  defined_after :
      (k c : BlockId) (b : BasicBlock) (s : LocalSet)
      → Good functions f k s
      → get_elem? f.blocks k ≡ some b
      → contains (block_successors b) c ≡ true
      → marked (reachable_blocks f) c ≡ true
      → c < length f.blocks
      → (d : LocalSet) × (state_at (definite_initialization f) c ≡ some d)
        × Subset d (ever_initialized f)
  unfolding definite_initialization
  defined_after k zero b s good e m r lt =
      let (d, at_d, sub) = analyze-entry true initialize_block f acc.nonempty in
      (d, at_d, λ l h. parameters-Subset f l (sub l h))
  defined_after k (suc c) b s good e m r lt =
      let (d, at_d, sub) = good.defined in
      let (t, at_t, sub') =
        analyze-edge true initialize_block f acc.nonempty k (suc c) b d e at_d m r lt
          (ground arith) in
      (t, at_t, λ l h. ever_initialized-block f k b d e sub l (sub' l h))

  -- The run goes on at a block that it can be at, with what the block leaves.
  pub Good-step :
      (k c : BlockId) (b : BasicBlock) (s : LocalSet)
      → Good functions f k s
      → get_elem? f.blocks k ≡ some b
      → contains (block_successors b) c ≡ true
      → (t : LocalSet) × Good functions f c t × Subset t (transfer_block b s)
  unfolding edges available_locals block_successors
  Good-step k c b s good e m =
      let lt =
        verify_target_lem functions f (to_u32 k) b.terminator
          (verify_targets-at functions f 0 f.blocks k k b (omega arith) acc.targets e) c m in
      let r = reachable_blocks-closed f acc.nonempty k c good.mark (rw (e, edges) m) lt in
      let (t, at_t, sub) =
        analyze-edge false transfer_block f acc.nonempty k c b s e good.available m r lt refl in
      (
        t,
        record {
          mark = r;
          in_range = lt;
          available = at_t;
          defined = defined_after k c b s good e m r lt;
        },
        sub,
      )
