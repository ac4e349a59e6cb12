-- ===== src/Async/Lower/Valid.antt =====
-- The machines that `build_machine` of crates/syllog-compiler/src/async_lower.rs makes, under
-- `verify_async_machine` of crates/syllog-ir/src/lib.rs.
use syllog.Prelude.{
  ℕ, zero, suc, ◌+◌, ◌*◌, ◌^◌, ◌<◌, ◌≡◌, refl, arith, true, List, [], ◌++◌, length, ap, ◌∙◌, ok,
  lt→ltb,
}
use syllog.Ir.Syntax.{DefId}
use syllog.Async.Machine.{
  AsyncState, contiguous, transition_targets, target_errors, graph_errors, completions,
  cancellations, table_errors, parent_errors, terminal_errors, machine_errors, verify_async_machine,
}
use syllog.Async.Lower.{build_machine}
use syllog.Async.Lower.Table.{
  suspend_state, resume_state, plain_awaits, plain_end, plain_states, build_states_lem,
}

module _ (awaits : ℕ) (tail : List AsyncState) where
  contiguous_lem :
      (i count : ℕ)
      → (i + count) * 2 + 2 < 2 ^ 32
      → contiguous ((i + count) * 2 + 1) tail ≡ true
      → contiguous (i * 2 + 1) (plain_awaits awaits i count ++ tail) ≡ true
  unfolding plain_awaits contiguous suspend_state resume_state
  contiguous_lem i zero small h =
      let e : i * 2 + 1 ≡ (i + 0) * 2 + 1 = omega arith in ap (λ x. contiguous x tail) e ∙ h
  contiguous_lem i (suc count) small h =
      let e : (i + 1 + count) * 2 + 1 ≡ (i + suc count) * 2 + 1 = omega arith in
      let rest =
        contiguous_lem (i + 1) count (omega (arith, small)) (ap (λ x. contiguous x tail) e ∙ h) in
      let e' : i * 2 + 1 + 1 + 1 ≡ (i + 1) * 2 + 1 = omega arith in rw (e', rest) (ground arith)

  completions_lem :
      (i count : ℕ) → completions (plain_awaits awaits i count ++ tail) ≡ completions tail
  unfolding plain_awaits completions suspend_state resume_state
  completions_lem i zero = refl
  completions_lem i (suc count) = completions_lem (i + 1) count

  cancellations_lem :
      (i count : ℕ) → cancellations (plain_awaits awaits i count ++ tail) ≡ cancellations tail
  unfolding plain_awaits cancellations suspend_state resume_state
  cancellations_lem i zero = refl
  cancellations_lem i (suc count) = cancellations_lem (i + 1) count

  length_lem :
      (i count : ℕ) → length (plain_awaits awaits i count ++ tail) ≡ count * 2 + length tail
  unfolding plain_awaits
  length_lem i zero = omega arith
  length_lem i (suc count) = omega (arith, length_lem (i + 1) count)

  graph_lem :
      (n i count : ℕ)
      → i + count ≡ awaits
      → n ≡ awaits * 2 + 3
      → graph_errors n tail ≡ []
      → graph_errors n (plain_awaits awaits i count ++ tail) ≡ []
  unfolding plain_awaits graph_errors target_errors transition_targets suspend_state resume_state
  graph_lem n i zero all size h = h
  graph_lem n i (suc count) all size h =
      let rest = graph_lem n (i + 1) count (omega (arith, all)) size h in
      let a = lt→ltb (i * 2 + 2) n (omega (arith, all, size)) in
      let b = lt→ltb (awaits * 2 + 2) n (omega (arith, size)) in
      let c = lt→ltb (i * 2 + 3) n (omega (arith, all, size)) in rw (a, b, c, rest) refl

module _ (awaits : ℕ) (locals : List DefId) (small : awaits * 2 + 2 < 2 ^ 32) where
  table_lem : table_errors (plain_states awaits locals) ≡ []
  unfolding table_errors plain_states contiguous plain_end
  table_lem =
      let c =
        contiguous_lem awaits (plain_end awaits locals) 0 awaits (omega (arith, small))
          (ground (arith, small)) in
      ground (arith, c)

  size_lem : length (plain_states awaits locals) ≡ awaits * 2 + 3
  unfolding plain_states plain_end
  size_lem = omega (arith, length_lem awaits (plain_end awaits locals) 0 awaits)

  edges_lem : graph_errors (awaits * 2 + 3) (plain_states awaits locals) ≡ []
  unfolding plain_states plain_end graph_errors target_errors transition_targets
  edges_lem =
      rw (lt→ltb 1 (awaits * 2 + 3) (omega arith)) (
        graph_lem awaits (plain_end awaits locals) (awaits * 2 + 3) 0 awaits (omega arith) refl
          refl)

  terminal_lem : terminal_errors (plain_states awaits locals) ≡ []
  unfolding plain_states plain_end terminal_errors completions cancellations
  terminal_lem =
      rw
        (
          completions_lem awaits (plain_end awaits locals) 0 awaits,
          cancellations_lem awaits (plain_end awaits locals) 0 awaits,
        )
        refl

  errors_lem : (function : DefId) → machine_errors (build_machine function awaits locals) ≡ []
  unfolding machine_errors build_machine parent_errors
  errors_lem function =
      rw (build_states_lem awaits small locals, size_lem, table_lem, edges_lem, terminal_lem) refl

  -- Where the number of awaits leaves room for all state ids in a `u32`, the machine that is built
  -- passes the verifier.
  pub verify_async_machine-build_machine :
      (function : DefId) → verify_async_machine (build_machine function awaits locals) ≡ ok tt
  unfolding verify_async_machine
  verify_async_machine-build_machine function = rw (errors_lem function, verify_async_machine) refl
