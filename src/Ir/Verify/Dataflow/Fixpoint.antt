-- ===== src/Ir/Verify/Dataflow/Fixpoint.antt =====
-- The `while changed` loop of crates/syllog-ir/src/verify.rs and the sets at which it stops.
use syllog.Prelude.{
  ℕ, zero, suc, ◌+◌, ◌<◌, ◌≡◌, refl, ap, ◌∙◌, ◌⊎◌, inl, inr, Bool, true, false, List, [], ◌∷◌, none,
  some, arith, length, get_elem?, set, Bool-cases, Option-cases, ==_iff, subst, sym, ◌==◌,
}
use syllog.Ir.Syntax.{BlockId, BasicBlock}
use syllog.Ir.Verify.LocalSet.{
  LocalSet, contains, intersection, set_eq, contains-intersection, set_eq→eq,
  length-intersection-lt,
}
use syllog.Ir.Verify.Control.{block_successors}
use syllog.Ir.Verify.Dataflow.{
  Incoming, Round, state_at, total_size, follows, merge, relax, relax_all, flow_block, flow_blocks,
  propagate,
}

abbrev pub Subset : LocalSet → LocalSet → Type 0
Subset s t = (l : ℕ) → contains s l ≡ true → contains t l ≡ true

total_size-set :
    (inc : Incoming) (b : BlockId) (s t : LocalSet)
    → state_at inc b ≡ some s
    → total_size (set inc b (some t)) + length s ≡ total_size inc + length t
unfolding state_at total_size
total_size-set [] b s t h = absurd (cc)
total_size-set (none ∷ inc) zero s t h = absurd (cc)
total_size-set (some x ∷ inc) zero s t h =
    let e : x ≡ s = cc in omega (arith, ap (length {A = ℕ}) e)
total_size-set (none ∷ inc) (suc b) s t h = total_size-set inc b s t h
total_size-set (some x ∷ inc) (suc b) s t h = omega (arith, total_size-set inc b s t h)

-- A part of a round either changes nothing, or notes a change and takes away elements.
abbrev Progress : Round → Round → Type 0
Progress r r' = (r' ≡ r) ⊎ ((r'.changed ≡ true) × (total_size r'.incoming < total_size r.incoming))

Progress-trans : {r r' r'' : Round} → Progress r r' → Progress r' r'' → Progress r r''
Progress-trans (inl e) (inl e') = inl (e' ∙ e)
Progress-trans {r} {r'} {r''} (inl e) (inr less) =
    inr (less.0, omega (arith, less.1, ap (λ (x : Round). total_size x.incoming) e))
Progress-trans {r} {r'} {r''} (inr less) (inl e) = inr (
  cc (ap (λ (x : Round). x.changed) e, less.0),
  omega (arith, less.1, ap (λ (x : Round). total_size x.incoming) e),
)
Progress-trans (inr less) (inr less') = inr (less'.0, omega (arith, less.1, less'.1))

-- Where the whole changes nothing, neither does the first part.
Progress-fixed : {r r' r'' : Round} → Progress r r' → Progress r' r'' → r'' ≡ r → r' ≡ r
Progress-fixed (inl e) p same = e
Progress-fixed {r} {r'} {r''} (inr less) (inl e) same = absurd (
    omega (
      arith,
      less.1,
      ap (λ (x : Round). total_size x.incoming) (e),
      ap (λ (x : Round). total_size x.incoming) same,
    ))
Progress-fixed {r} {r'} {r''} (inr less) (inr less') same =
    absurd (omega (arith, less.1, less'.1, ap (λ (x : Round). total_size x.incoming) same))

module _ (reachable : List Bool) (skip_entry : Bool) where
  merge-Progress :
      (out : LocalSet) (r : Round) (b : BlockId) (current : LocalSet)
      → state_at r.incoming b ≡ some current
      → Progress r (merge reachable skip_entry out r b current)
  unfolding merge
  merge-Progress out r b current h = elim (Bool-cases (set_eq (intersection current out) current)) [
    | inl same ↦ rw same (inl refl)
    | inr differs ↦ rw differs (
        inr (
          refl,
          omega (
            arith,
            length-intersection-lt current out differs,
            total_size-set r.incoming b current (intersection current out) h,
          ),
        ))
  ]

  relax-Progress :
      (out : LocalSet) (r : Round) (b : BlockId) → Progress r (relax reachable skip_entry out r b)
  unfolding relax
  relax-Progress out r b = elim (Bool-cases (follows reachable skip_entry r.incoming b)) [
    | inr ignored ↦ rw ignored (inl refl)
    | inl followed ↦ elim (Option-cases (state_at r.incoming b)) [
      | inl e ↦ rw (followed, e, relax) (inl refl)
      | inr (current, e) ↦ rw (followed, e, relax) (merge-Progress out r b current e)
    ]
  ]

  relax_all-Progress :
      (out : LocalSet) (r : Round) (bs : List BlockId)
      → Progress r (relax_all reachable skip_entry out r bs)
  unfolding relax_all
  relax_all-Progress out r [] = inl refl
  relax_all-Progress out r (b ∷ bs) =
      Progress-trans (relax-Progress out r b)
        (relax_all-Progress out (relax reachable skip_entry out r b) bs)

  -- The set of an edge's target lies in what leaves its source.
  abbrev pub Respects : Incoming → LocalSet → BlockId → Type 0
  Respects inc out b =
      follows reachable skip_entry inc b ≡ true
      → (t : LocalSet) → state_at inc b ≡ some t
      → Subset t out

  relax-Respects :
      (out : LocalSet) (r : Round) (b : BlockId)
      → relax reachable skip_entry out r b ≡ r
      → Respects r.incoming out b
  unfolding relax merge
  relax-Respects out r b fixed followed t e l h =
      elim (Bool-cases (set_eq (intersection t out) t)) [
        | inl same ↦ ground (
          arith,
          contains-intersection t out l,
          ap (λ s. contains s l) (set_eq→eq (intersection t out) t same),
        )
        | inr differs ↦
            let fixed' = rw (followed, e, relax, differs) at fixed in
            absurd (
              omega (
                arith,
                ap (λ (x : Round). total_size x.incoming) fixed',
                length-intersection-lt t out differs,
                total_size-set r.incoming b t (intersection t out) e,
              ))
      ]

  relax_all-Respects :
      (out : LocalSet) (r : Round) (bs : List BlockId)
      → relax_all reachable skip_entry out r bs ≡ r
      → (b : BlockId) → contains bs b ≡ true
      → Respects r.incoming out b
  unfolding relax_all contains
  relax_all-Respects out r [] fixed b h = absurd (cc)
  relax_all-Respects out r (c ∷ bs) fixed b h =
      let first =
        Progress-fixed (relax-Progress out r c)
          (relax_all-Progress out (relax reachable skip_entry out r c) bs) fixed in
      elim (Bool-cases (c == b)) [
        | inl same ↦
            subst (Respects r.incoming out) ((==_iff c b).0 same) (relax-Respects out r c first)
        | inr other ↦ relax_all-Respects out r bs (rw first at fixed) b (ground arith)
      ]

  module _ (transfer : BasicBlock → LocalSet → LocalSet) where
    flow_block-Progress :
        (i : ℕ) (block : BasicBlock) (r : Round)
        → Progress r (flow_block reachable skip_entry transfer i block r)
    unfolding flow_block
    flow_block-Progress i block r = elim (Option-cases (state_at r.incoming i)) [
      | inl e ↦ rw (e, flow_block) (inl refl)
      | inr (s, e) ↦
          rw (e, flow_block) (relax_all-Progress (transfer block s) r (block_successors block))
    ]

    flow_blocks-Progress :
        (i : ℕ) (blocks : List BasicBlock) (r : Round)
        → Progress r (flow_blocks reachable skip_entry transfer i blocks r)
    unfolding flow_blocks
    flow_blocks-Progress i [] r = inl refl
    flow_blocks-Progress i (block ∷ blocks) r =
        Progress-trans (flow_block-Progress i block r)
          (flow_blocks-Progress (suc i) blocks (flow_block reachable skip_entry transfer i block r))

    first :
        (i : ℕ) (block : BasicBlock) (blocks : List BasicBlock) (r : Round)
        → flow_blocks reachable skip_entry transfer i (block ∷ blocks) r ≡ r
        → flow_block reachable skip_entry transfer i block r ≡ r
    unfolding flow_blocks
    first i block blocks r =
        Progress-fixed (flow_block-Progress i block r)
          (flow_blocks-Progress (suc i) blocks (flow_block reachable skip_entry transfer i block r))

    flow_blocks-Respects :
        (i : ℕ) (blocks : List BasicBlock) (r : Round)
        → flow_blocks reachable skip_entry transfer i blocks r ≡ r
        → (j k : ℕ) (block : BasicBlock) (s : LocalSet) → i + j ≡ k
        → get_elem? blocks j ≡ some block
        → state_at r.incoming k ≡ some s
        → (b : BlockId) → contains (block_successors block) b ≡ true
        → Respects r.incoming (transfer block s) b
    unfolding flow_blocks flow_block
    flow_blocks-Respects i [] r fixed j k block s at_k h e b m = absurd (cc)
    flow_blocks-Respects i (x ∷ blocks) r fixed zero k block s at_k h e b m =
        let i_at_k : k ≡ i = omega arith in
        let same : x ≡ block = cc h in
        relax_all-Respects (transfer block s) r (block_successors block)
          (rw (rw i_at_k at e, flow_block, same) at (first i x blocks r fixed)) b m
    flow_blocks-Respects i (x ∷ blocks) r fixed (suc j) k block s at_k h e b m =
        flow_blocks-Respects (suc i) blocks r (rw (first i x blocks r fixed) at fixed) j k block s
          (omega arith) h e b m

    -- Every edge out of a block that has a set.
    abbrev pub IsStable : List BasicBlock → Incoming → Type 0
    IsStable blocks inc =
        (k : BlockId) (block : BasicBlock) (s : LocalSet)
        → get_elem? blocks k ≡ some block
        → state_at inc k ≡ some s
        → (b : BlockId) → contains (block_successors block) b ≡ true
        → Respects inc (transfer block s) b

    pub propagate-IsStable :
        (fuel : ℕ) (blocks : List BasicBlock) (inc : Incoming)
        → total_size inc < fuel
        → IsStable blocks (propagate reachable skip_entry transfer fuel blocks inc)
    unfolding propagate
    propagate-IsStable zero blocks inc enough = absurd (omega arith)
    propagate-IsStable (suc fuel) blocks inc enough =
        let r : Round = record { incoming = inc; changed = false } in
        let r' = flow_blocks reachable skip_entry transfer 0 blocks r in
        elim (flow_blocks-Progress 0 blocks r) [
          | inl same ↦
              rw (ap (λ (x : Round). x.changed) same, propagate)
                (subst (IsStable blocks) (sym (ap (λ (x : Round). x.incoming) same))
                  λ k block s h e.
                    flow_blocks-Respects 0 blocks r same k k block s (omega arith) h e)
          | inr (changed, less) ↦
              rw (changed, propagate) (propagate-IsStable fuel blocks r'.incoming (omega arith))
        ]
