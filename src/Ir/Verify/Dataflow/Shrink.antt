-- ===== src/Ir/Verify/Dataflow/Shrink.antt =====
-- How the sets of the dataflow loop of crates/syllog-ir/src/verify.rs change, and where it starts.
use syllog.Prelude.{
  ℕ, zero, suc, ◌<◌, ◌≡◌, ◌≢◌, refl, ap, ◌∙◌, subst, inl, inr, Bool, true, false, List, [], ◌∷◌,
  map, Option, none, some, arith, length, set, length-set, get_elem?-set_self, get_elem?-set_ne,
  Bool-cases, Option-cases, ◌==◌, ==_iff, if◌then◌else◌,
}
use syllog.Ir.Syntax.{BlockId, BasicBlock, MirFunction}
use syllog.Ir.Verify.LocalSet.{LocalSet, intersection, set_eq, contains-intersection}
use syllog.Ir.Verify.Control.{block_successors, marked, reachable_blocks}
use syllog.Ir.Verify.Control.Reach.{length-reachable_blocks}
use syllog.Ir.Verify.Dataflow.{
  Incoming, Round, state_at, initial, parameters, universe, follows, merge, relax, relax_all,
  flow_block, flow_blocks, propagate,
}
use syllog.Ir.Verify.Dataflow.Fixpoint.{Subset}

-- Every block that had a set has one still, with no new elements.
pub record Shrinks (inc inc' : Incoming) : Type 0 where
  pub size : length inc' ≡ length inc
  pub sets :
      (b : BlockId) (s : LocalSet)
      → state_at inc b ≡ some s
      → (s' : LocalSet) × (state_at inc' b ≡ some s') × Subset s' s

Shrinks-refl : (inc : Incoming) → Shrinks inc inc
Shrinks-refl inc = record { size = refl; sets = λ b s e. (s, e, λ l h. h) }

Shrinks-trans : {a b c : Incoming} → Shrinks a b → Shrinks b c → Shrinks a c
Shrinks-trans p q = record {
  size = q.size ∙ p.size;
  sets = λ b s e.
      let (s', e', sub) = p.sets b s e in
      let (s'', e'', sub') = q.sets b s' e' in (s'', e'', λ l h. sub l (sub' l h));
}

lt-length_of_state_at :
    (inc : Incoming) (b : BlockId) (s : LocalSet) → state_at inc b ≡ some s → b < length inc
unfolding state_at
lt-length_of_state_at [] b s h = absurd (cc)
lt-length_of_state_at (x ∷ inc) zero s h = omega arith
lt-length_of_state_at (x ∷ inc) (suc b) s h = omega (arith, lt-length_of_state_at inc b s h)

state_at-set_self :
    (inc : Incoming) (b : BlockId) (s : LocalSet)
    → b < length inc
    → state_at (set inc b (some s)) b ≡ some s
unfolding state_at
state_at-set_self inc b s h = rw (get_elem?-set_self inc b (some s) h, state_at)

state_at-set_ne :
    (inc : Incoming) (b c : BlockId) (s : LocalSet)
    → b ≢ c
    → state_at (set inc b (some s)) c ≡ state_at inc c
unfolding state_at
state_at-set_ne inc b c s h = rw (get_elem?-set_ne inc (some s) h, state_at)

Shrinks-set :
    (inc : Incoming) (b : BlockId) (s t : LocalSet)
    → state_at inc b ≡ some s
    → Subset t s
    → Shrinks inc (set inc b (some t))
Shrinks-set inc b s t e sub = record {
  size = length-set inc b (some t);
  sets = λ c u at_c. elim (Bool-cases (b == c)) [
    | inl same ↦
        let b_c = (==_iff b c).0 same in
        let s_u : s ≡ u = cc (ap (state_at inc) b_c) in
        (
          t,
          subst (λ x. state_at (set inc b (some t)) x ≡ some t) b_c
              (state_at-set_self inc b t (lt-length_of_state_at inc b s e)),
          subst (Subset t) s_u sub,
        )
    | inr other ↦ (u, state_at-set_ne inc b c t (λ same. cc ((==_iff b c).1 same)) ∙ at_c, λ l h. h)
  ];
}

module _ (reachable : List Bool) (skip_entry : Bool) where
  Shrinks-merge :
      (out : LocalSet) (r : Round) (b : BlockId) (current : LocalSet)
      → state_at r.incoming b ≡ some current
      → Shrinks r.incoming (merge reachable skip_entry out r b current).incoming
  unfolding merge
  Shrinks-merge out r b current e = elim (Bool-cases (set_eq (intersection current out) current)) [
    | inl same ↦ rw same (Shrinks-refl r.incoming)
    | inr differs ↦ rw differs (
        Shrinks-set r.incoming b current (intersection current out) e
          λ l h. ground (arith, contains-intersection current out l))
  ]

  Shrinks-relax :
      (out : LocalSet) (r : Round) (b : BlockId)
      → Shrinks r.incoming (relax reachable skip_entry out r b).incoming
  unfolding relax
  Shrinks-relax out r b = elim (Bool-cases (follows reachable skip_entry r.incoming b)) [
    | inr ignored ↦ rw ignored (Shrinks-refl r.incoming)
    | inl followed ↦ elim (Option-cases (state_at r.incoming b)) [
      | inl e ↦ rw (followed, e, relax) (Shrinks-refl r.incoming)
      | inr (current, e) ↦ rw (followed, e, relax) (Shrinks-merge out r b current e)
    ]
  ]

  Shrinks-relax_all :
      (out : LocalSet) (r : Round) (bs : List BlockId)
      → Shrinks r.incoming (relax_all reachable skip_entry out r bs).incoming
  unfolding relax_all
  Shrinks-relax_all out r [] = Shrinks-refl r.incoming
  Shrinks-relax_all out r (b ∷ bs) =
      Shrinks-trans (Shrinks-relax out r b)
        (Shrinks-relax_all out (relax reachable skip_entry out r b) bs)

  module _ (transfer : BasicBlock → LocalSet → LocalSet) where
    Shrinks-flow_block :
        (i : ℕ) (block : BasicBlock) (r : Round)
        → Shrinks r.incoming (flow_block reachable skip_entry transfer i block r).incoming
    unfolding flow_block
    Shrinks-flow_block i block r = elim (Option-cases (state_at r.incoming i)) [
      | inl e ↦ rw (e, flow_block) (Shrinks-refl r.incoming)
      | inr (s, e) ↦
          rw (e, flow_block) (Shrinks-relax_all (transfer block s) r (block_successors block))
    ]

    Shrinks-flow_blocks :
        (i : ℕ) (blocks : List BasicBlock) (r : Round)
        → Shrinks r.incoming (flow_blocks reachable skip_entry transfer i blocks r).incoming
    unfolding flow_blocks
    Shrinks-flow_blocks i [] r = Shrinks-refl r.incoming
    Shrinks-flow_blocks i (block ∷ blocks) r =
        Shrinks-trans (Shrinks-flow_block i block r)
          (Shrinks-flow_blocks (suc i) blocks (flow_block reachable skip_entry transfer i block r))

    pub Shrinks-propagate :
        (fuel : ℕ) (blocks : List BasicBlock) (inc : Incoming)
        → Shrinks inc (propagate reachable skip_entry transfer fuel blocks inc)
    unfolding propagate
    Shrinks-propagate zero blocks inc = Shrinks-refl inc
    Shrinks-propagate (suc fuel) blocks inc =
        let r : Round = record { incoming = inc; changed = false } in
        let r' = flow_blocks reachable skip_entry transfer 0 blocks r in
        let once = Shrinks-flow_blocks 0 blocks r in
        elim (Bool-cases r'.changed) [
          | inl again ↦
              rw (again, propagate) (Shrinks-trans once (Shrinks-propagate fuel blocks r'.incoming))
          | inr settled ↦ rw (settled, propagate) once
        ]

-- The set that a reachable block starts with.
start_set : MirFunction → Bool → Option LocalSet
start_set f r = if r then some (universe f) else none

state_at-map :
    (f : MirFunction) (rs : List Bool) (b : BlockId)
    → marked rs b ≡ true
    → state_at (map (start_set f) rs) b ≡ some (universe f)
unfolding state_at marked start_set
state_at-map f [] b h = absurd (cc)
state_at-map f (r ∷ rs) zero h = rw (h, start_set)
state_at-map f (r ∷ rs) (suc b) h = state_at-map f rs b h

length-map : (f : MirFunction) (rs : List Bool) → length (map (start_set f) rs) ≡ length rs
length-map f [] = refl
length-map f (r ∷ rs) = ap suc (length-map f rs)

module _ (f : MirFunction) (nonempty : 0 < length f.blocks) where
  pub length-initial : length (initial f) ≡ length f.blocks
  unfolding initial start_set
  length-initial =
      length-set (map (start_set f) (reachable_blocks f)) 0 (some (parameters f))
      ∙ length-map f (reachable_blocks f)
      ∙ length-reachable_blocks f nonempty

  pub initial-entry : state_at (initial f) 0 ≡ some (parameters f)
  unfolding initial start_set
  initial-entry =
      state_at-set_self (map (start_set f) (reachable_blocks f)) 0 (parameters f)
        (omega (arith, length-map f (reachable_blocks f), length-reachable_blocks f nonempty))

  pub initial-reachable :
      (b : BlockId)
      → marked (reachable_blocks f) b ≡ true
      → (s : LocalSet) × (state_at (initial f) b ≡ some s)
  unfolding initial start_set
  initial-reachable zero h = (parameters f, initial-entry)
  initial-reachable (suc b) h = (
    universe f,
    state_at-set_ne (map (start_set f) (reachable_blocks f)) 0 (suc b) (parameters f)
          (λ e. absurd (omega arith))
        ∙ state_at-map f (reachable_blocks f) (suc b) h,
  )
