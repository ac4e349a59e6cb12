-- ===== src/Ir/Verify/Control/Reach.antt =====
-- `reachable_blocks` of crates/syllog-ir/src/verify.rs and the paths from the entry.
use syllog.Prelude.{
  ℕ, zero, suc, ◌+◌, ◌≤◌, ◌<◌, ◌≡◌, refl, ap, ◌⊎◌, inl, inr, ◌↔◌, Bool, true, false, ◌||◌, List, [],
  ◌∷◌, ◌++◌, some, arith, length, get_elem?, set, replicate, length-set, length-replicate,
  lt-length_of_get_elem?, ltb, ◌==◌, Bool-cases, Option-cases, length-append,
  get_elem?_of_lt-length, ◌∙◌, subst, ==_iff,
}
use syllog.Ir.Syntax.{BlockId, BasicBlock, MirFunction}
use syllog.Ir.Verify.LocalSet.{contains, contains-append}
use syllog.Ir.Verify.Control.{
  block_successors, marked, Search, edges, visit, search_blocks, edge_count, start,
  reachable_blocks,
}

-- The paths from the entry along edges that stay inside the function.
pub data Reach (blocks : List BasicBlock) : BlockId → Type 0 where
  here : Reach blocks 0
  step :
      {b c : BlockId}
      → Reach blocks b
      → contains (edges blocks b) c ≡ true
      → c < length blocks
      → Reach blocks c

-- The edges out of blocks that are not marked.
unseen : List Bool → List BasicBlock → ℕ
unseen (false ∷ rs) (b ∷ blocks) = length (block_successors b) + unseen rs blocks
unseen (true ∷ rs) (b ∷ blocks) = unseen rs blocks
unseen _ _ = 0

unseen-replicate :
    (blocks : List BasicBlock) → unseen (replicate (length blocks) false) blocks ≡ edge_count blocks
unfolding unseen edge_count
unseen-replicate [] = refl
unseen-replicate (b ∷ blocks) = omega (arith, unseen-replicate blocks)

unseen-set :
    (rs : List Bool) (blocks : List BasicBlock) (b : BlockId)
    → get_elem? rs b ≡ some false
    → length rs ≡ length blocks
    → unseen (set rs b true) blocks + length (edges blocks b) ≡ unseen rs blocks
unfolding unseen edges
unseen-set [] blocks b h e = absurd (cc)
unseen-set (r ∷ rs) [] b h e = absurd (omega arith)
unseen-set (false ∷ rs) (x ∷ blocks) zero h e = omega arith
unseen-set (true ∷ rs) (x ∷ blocks) zero h e = absurd (cc)
unseen-set (false ∷ rs) (x ∷ blocks) (suc b) h e =
    omega (arith, unseen-set rs blocks b h (omega arith))
unseen-set (true ∷ rs) (x ∷ blocks) (suc b) h e = unseen-set rs blocks b h (omega arith)

marked-set :
    (rs : List Bool) (b c : BlockId)
    → b < length rs
    → marked (set rs b true) c ≡ (b == c || marked rs c)
unfolding marked
marked-set [] b c h = elim h [ ]
marked-set (r ∷ rs) zero zero h = refl
marked-set (r ∷ rs) zero (suc c) h = ground arith
marked-set (r ∷ rs) (suc b) zero h = ground arith
marked-set (r ∷ rs) (suc b) (suc c) h = ground (arith, marked-set rs b c)

lt-length_of_marked : (rs : List Bool) (b : BlockId) → marked rs b ≡ true → b < length rs
unfolding marked
lt-length_of_marked [] b h = absurd (cc)
lt-length_of_marked (r ∷ rs) zero h = omega arith
lt-length_of_marked (r ∷ rs) (suc b) h = omega (arith, lt-length_of_marked rs b h)

marked-replicate : (n : ℕ) (b : BlockId) → marked (replicate n false) b ≡ false
unfolding marked
marked-replicate zero b = refl
marked-replicate (suc n) zero = refl
marked-replicate (suc n) (suc b) = marked-replicate n b

-- What is marked, or waits in the queue.
abbrev known : List Bool → List BlockId → BlockId → Bool
known rs queue b = marked rs b || contains queue b

module _ (blocks : List BasicBlock) (nonempty : 0 < length blocks) where
  record Inv (rs : List Bool) (queue : List BlockId) : Type 0 where
    size : length rs ≡ length blocks
    source : known rs queue 0 ≡ true
    sound : (b : BlockId) → b < length blocks → known rs queue b ≡ true → Reach blocks b
    closed :
        (b c : BlockId)
        → marked rs b ≡ true
        → contains (edges blocks b) c ≡ true
        → c < length blocks
        → known rs queue c ≡ true

  Inv-start : Inv (start blocks).reachable (start blocks).queue
  unfolding start contains
  Inv-start = record {
    size = length-replicate (length blocks) false;
    source = ground (arith, marked-replicate (length blocks) 0);
    sound = λ b lt h.
        let e : 0 ≡ b = ground (arith, marked-replicate (length blocks) b) in
        subst (Reach blocks) e here;
    closed = λ b c h. ground (arith, marked-replicate (length blocks) b);
  }

  -- The head of the queue lies outside the function, or is marked already.
  Inv-skip :
      (rs : List Bool) (b : BlockId) (rest : List BlockId)
      → (length blocks ≤ b) ⊎ (marked rs b ≡ true)
      → Inv rs (b ∷ rest)
      → Inv rs rest
  unfolding contains
  Inv-skip rs b rest skip h = record {
    size = h.size;
    source = keep 0 nonempty h.source;
    sound = λ c lt k. h.sound c lt (ground arith);
    closed = λ c d m e lt. keep d lt (h.closed c d m e lt);
  }
    where
      keep :
          (c : BlockId) → c < length blocks → known rs (b ∷ rest) c ≡ true → known rs rest c ≡ true
      keep c lt k = elim (Bool-cases (b == c)) [
        | inl same ↦ ground (arith, ap (marked rs) ((==_iff b c).0 same))
        | inr other ↦ ground arith
      ]

  Inv-mark :
      (rs : List Bool) (b : BlockId) (rest : List BlockId)
      → b < length blocks
      → Inv rs (b ∷ rest)
      → Inv (set rs b true) (rest ++ edges blocks b)
  unfolding contains
  Inv-mark rs b rest lt h = record {
    size = length-set rs b true ∙ h.size;
    source = keep 0 h.source;
    sound = λ c in_range k. elim (Bool-cases (known rs (b ∷ rest) c)) [
      | inl old ↦ h.sound c in_range old
      | inr new ↦ step (h.sound b lt (ground arith)) (ground (arith, now c)) in_range
    ];
    closed = λ c d m e in_range. elim (Bool-cases (b == c)) [
      | inl same ↦
          ground (arith, now d, ap (λ x. contains (edges blocks x) d) ((==_iff b c).0 same))
      | inr other ↦ keep d (h.closed c d (ground (arith, marked-set rs b c)) e in_range)
    ];
  }
    where
      now :
          (c : BlockId)
          → known (set rs b true) (rest ++ edges blocks b) c
            ≡ (known rs (b ∷ rest) c || contains (edges blocks b) c)
      now c = ground (arith, h.size, marked-set rs b c, contains-append rest (edges blocks b) c)

      keep :
          (c : BlockId)
          → known rs (b ∷ rest) c ≡ true
          → known (set rs b true) (rest ++ edges blocks b) c ≡ true
      keep c k = ground (arith, now c)

  -- What is left to do: the queue, and the edges of the blocks that are not marked.
  abbrev work : Search → ℕ
  work s = length s.queue + unseen s.reachable blocks

  abbrev Holds : Search → Type 0
  Holds s = Inv s.reachable s.queue

  visit_lem :
      (b : BlockId) (rs : List Bool) (rest : List BlockId)
      → Inv rs (b ∷ rest)
      → let s = visit blocks b (record { reachable = rs; queue = rest }) in
        Holds s × (work s < suc (length rest) + unseen rs blocks)
  unfolding visit marked
  visit_lem b rs rest h = elim (Option-cases (get_elem? rs b)) [
    | inl out ↦
        rw (out, visit)
          (
            Inv-skip rs b rest
                (inl (elim (Bool-cases (ltb b (length rs))) [
                  | inl lt ↦ let (r, e) = get_elem?_of_lt-length rs b (ground arith) in absurd (cc)
                  | inr ge ↦ ground (arith, h.size)
                ]))
                h,
            omega arith,
          )
    | inr (true, seen) ↦
        rw (seen, visit) (Inv-skip rs b rest (inr (rw (seen, marked))) h, omega arith)
    | inr (false, fresh) ↦
        rw (fresh, visit)
          (
            Inv-mark rs b rest (omega (arith, h.size, lt-length_of_get_elem? rs b fresh)) h,
            omega (arith, unseen-set rs blocks b fresh h.size, length-append rest (edges blocks b)),
          )
  ]

  -- With fuel for the work that is left, the queue runs empty.
  search_lem :
      (fuel : ℕ) (rs : List Bool) (queue : List BlockId)
      → length queue + unseen rs blocks ≤ fuel
      → Inv rs queue
      → let t = search_blocks fuel blocks (record { reachable = rs; queue = queue }) in
        Holds t × (t.queue ≡ [])
  unfolding search_blocks
  search_lem zero rs [] enough h = (h, refl)
  search_lem zero rs (b ∷ rest) enough h = absurd (omega arith)
  search_lem (suc fuel) rs [] enough h = (h, refl)
  search_lem (suc fuel) rs (b ∷ rest) enough h =
      let s = visit blocks b (record { reachable = rs; queue = rest }) in
      let (kept, less) = visit_lem b rs rest h in
      search_lem fuel s.reachable s.queue (omega arith) kept

  finished :
      let t = search_blocks (suc (edge_count blocks)) blocks (start blocks) in Inv t.reachable []
  unfolding start
  finished =
      let (inv, empty) =
        search_lem (suc (edge_count blocks)) (replicate (length blocks) false) (0 ∷ [])
          (omega (arith, unseen-replicate blocks)) Inv-start in
      subst (Inv _) empty inv

module _ (f : MirFunction) (nonempty : 0 < length f.blocks) where
  reached : Inv f.blocks nonempty (reachable_blocks f) []
  unfolding reachable_blocks
  reached = finished f.blocks nonempty

  pub length-reachable_blocks : length (reachable_blocks f) ≡ length f.blocks
  length-reachable_blocks = reached.size

  pub reachable_blocks-entry : marked (reachable_blocks f) 0 ≡ true
  unfolding contains
  reachable_blocks-entry = ground (arith, reached.source)

  -- The marked blocks are closed under the edges inside the function.
  pub reachable_blocks-closed :
      (b c : BlockId)
      → marked (reachable_blocks f) b ≡ true
      → contains (edges f.blocks b) c ≡ true
      → c < length f.blocks
      → marked (reachable_blocks f) c ≡ true
  unfolding contains
  reachable_blocks-closed b c m e lt = ground (arith, reached.closed b c m e lt)

  reachable_blocks_sound : (b : BlockId) → marked (reachable_blocks f) b ≡ true → Reach f.blocks b
  reachable_blocks_sound b m =
      reached.sound b (omega (arith, lt-length_of_marked (reachable_blocks f) b m, reached.size))
        (ground arith)

  reachable_blocks_complete :
      {b : BlockId} → Reach f.blocks b → marked (reachable_blocks f) b ≡ true
  reachable_blocks_complete here = reachable_blocks-entry
  reachable_blocks_complete (step {b} {c} r e lt) =
      reachable_blocks-closed b c (reachable_blocks_complete r) e lt

-- In a function with at least one block, the verifier marks a block as reachable exactly when some
-- path from the entry, along edges that stay inside the function, leads to it.
pub reachable_blocks_iff :
    (f : MirFunction) (b : BlockId)
    → 0 < length f.blocks
    → (marked (reachable_blocks f) b ≡ true) ↔ Reach f.blocks b
reachable_blocks_iff f b h = (reachable_blocks_sound f h b, reachable_blocks_complete f h)
