-- ===== src/Async/Lower/Table.antt =====
-- The state table that `build_machine` of crates/syllog-compiler/src/async_lower.rs makes, index by
-- index.
use syllog.Prelude.{
  ℕ, zero, suc, ◌+◌, ◌*◌, ◌^◌, ◌<◌, ◌≡◌, refl, arith, List, [], ◌∷◌, ◌++◌, some, ◌==◌,
  if◌then◌else◌, get_elem?, ap, sym, ◌∙◌,
}
use syllog.Ir.Syntax.{DefId}
use syllog.Async.Machine.{AsyncTransition, suspend, resume, complete, cancel, AsyncState}
use syllog.Async.Lower.{
  add_u32, mul_u32, complete_id, cancel_id, state_of, await_states, build_states,
}

module _ (awaits : ℕ) where
  unfoldable pub suspend_state : ℕ → AsyncState
  suspend_state i = state_of (i * 2 + 1) (suspend i (i * 2 + 2) (awaits * 2 + 2))

  -- The completion stands behind the last await, so the next state is two further on.
  unfoldable pub resume_state : ℕ → AsyncState
  resume_state i = state_of (i * 2 + 2) (resume (i * 2 + 3) (awaits * 2 + 2))

  -- The states of the awaits, without wrapping.
  unfoldable pub plain_awaits : ℕ → ℕ → List AsyncState
  plain_awaits i zero = []
  plain_awaits i (suc count) = suspend_state i ∷ resume_state i ∷ plain_awaits (i + 1) count

  unfoldable pub plain_end : List DefId → List AsyncState
  plain_end locals =
      state_of (awaits * 2 + 1) complete ∷ state_of (awaits * 2 + 2) (cancel locals) ∷ []

  unfoldable pub plain_states : List DefId → List AsyncState
  plain_states locals =
      state_of 0 (AsyncTransition.start 1) ∷ plain_awaits 0 awaits ++ plain_end locals

module _ (awaits : ℕ) (small : awaits * 2 + 2 < 2 ^ 32) where
  complete_id_lem : complete_id awaits ≡ awaits * 2 + 1
  unfolding complete_id
  complete_id_lem = omega (arith, small)

  cancel_id_lem : cancel_id awaits ≡ awaits * 2 + 2
  unfolding cancel_id complete_id
  cancel_id_lem = omega (arith, small)

  next_lem :
      (i : ℕ)
      → i < awaits
      → (if add_u32 i 1 == awaits then complete_id awaits else add_u32 (i * 2 + 1) 2) ≡ i * 2 + 3
  next_lem i lt = rw complete_id_lem ground (arith, small)

  await_states_lem :
      (i count : ℕ) → i + count ≡ awaits → await_states awaits i count ≡ plain_awaits awaits i count
  unfolding await_states plain_awaits suspend_state resume_state
  await_states_lem i zero all = refl
  await_states_lem i (suc count) all =
      let s : add_u32 1 (mul_u32 i 2) ≡ i * 2 + 1 = omega (arith, small, all) in
      let r : add_u32 (i * 2 + 1) 1 ≡ i * 2 + 2 = omega (arith, small, all) in
      let n = next_lem i (omega (arith, all)) in
      let c = cancel_id_lem in
      let rest = await_states_lem (i + 1) count (omega (arith, all)) in rw (s, n, r, c, rest) refl

  -- The table that is built has no wrapped index.
  pub build_states_lem :
      (locals : List DefId) → build_states awaits locals ≡ plain_states awaits locals
  unfolding build_states plain_states plain_end
  build_states_lem locals =
      let first : (if awaits == 0 then complete_id awaits else 1) ≡ 1 =
        rw complete_id_lem ground arith in
      rw (first, complete_id_lem, cancel_id_lem, await_states_lem 0 awaits (omega arith)) refl

module _ (awaits : ℕ) (tail : List AsyncState) where
  suspend_at :
      (i count n k : ℕ)
      → k * 2 ≡ i * 2 + n
      → k < i + count
      → get_elem? (plain_awaits awaits i count ++ tail) n ≡ some (suspend_state awaits k)
  unfolding plain_awaits
  suspend_at i zero n k at lt = absurd (omega (arith, at, lt))
  suspend_at i (suc count) zero k at lt =
      let same : k ≡ i = omega (arith, at) in ap (λ x. some (suspend_state awaits x)) (sym same)
  suspend_at i (suc count) (suc zero) k at lt = absurd (omega (arith, at))
  suspend_at i (suc count) (suc (suc n)) k at lt =
      suspend_at (i + 1) count n k (omega (arith, at)) (omega (arith, lt))

  resume_at :
      (i count n k : ℕ)
      → k * 2 + 1 ≡ i * 2 + n
      → k < i + count
      → get_elem? (plain_awaits awaits i count ++ tail) n ≡ some (resume_state awaits k)
  unfolding plain_awaits
  resume_at i zero n k at lt = absurd (omega (arith, at, lt))
  resume_at i (suc count) zero k at lt = absurd (omega (arith, at))
  resume_at i (suc count) (suc zero) k at lt =
      let same : k ≡ i = omega (arith, at) in ap (λ x. some (resume_state awaits x)) (sym same)
  resume_at i (suc count) (suc (suc n)) k at lt =
      resume_at (i + 1) count n k (omega (arith, at)) (omega (arith, lt))

  tail_at :
      (i count n m : ℕ)
      → n ≡ count * 2 + m
      → get_elem? (plain_awaits awaits i count ++ tail) n ≡ get_elem? tail m
  unfolding plain_awaits
  tail_at i zero n m at = ap (get_elem? tail) (omega (arith, at))
  tail_at i (suc count) zero m at = absurd (omega (arith, at))
  tail_at i (suc count) (suc zero) m at = absurd (omega (arith, at))
  tail_at i (suc count) (suc (suc n)) m at = tail_at (i + 1) count n m (omega (arith, at))

-- What stands at each index of the table.
module _ (awaits : ℕ) (locals : List DefId) where
  pub state_at_suspend :
      (k : ℕ)
      → k < awaits
      → get_elem? (plain_states awaits locals) (k * 2 + 1) ≡ some (suspend_state awaits k)
  unfolding plain_states
  state_at_suspend k lt =
      let i : k * 2 + 1 ≡ suc (k * 2) = omega arith in
      rw i (
        suspend_at awaits (plain_end awaits locals) 0 awaits (k * 2) k (omega arith)
          (omega (arith, lt)))

  pub state_at_resume :
      (k : ℕ)
      → k < awaits
      → get_elem? (plain_states awaits locals) (k * 2 + 2) ≡ some (resume_state awaits k)
  unfolding plain_states
  state_at_resume k lt =
      let i : k * 2 + 2 ≡ suc (k * 2 + 1) = omega arith in
      rw i (
        resume_at awaits (plain_end awaits locals) 0 awaits (k * 2 + 1) k (omega arith)
          (omega (arith, lt)))

  pub state_at_complete :
      get_elem? (plain_states awaits locals) (awaits * 2 + 1)
      ≡ some (state_of (awaits * 2 + 1) complete)
  unfolding plain_states plain_end
  state_at_complete =
      let i : awaits * 2 + 1 ≡ suc (awaits * 2) = omega arith in
      ap (get_elem? (plain_states awaits locals)) i
      ∙ tail_at awaits (plain_end awaits locals) 0 awaits (awaits * 2) 0 (omega arith)

  pub state_at_cancel :
      get_elem? (plain_states awaits locals) (awaits * 2 + 2)
      ≡ some (state_of (awaits * 2 + 2) (cancel locals))
  unfolding plain_states plain_end
  state_at_cancel =
      let i : awaits * 2 + 2 ≡ suc (awaits * 2 + 1) = omega arith in
      ap (get_elem? (plain_states awaits locals)) i
      ∙ tail_at awaits (plain_end awaits locals) 0 awaits (awaits * 2 + 1) 1 (omega arith)
