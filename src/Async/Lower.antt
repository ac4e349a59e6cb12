-- ===== src/Async/Lower.antt =====
-- crates/syllog-compiler/src/async_lower.rs: `build_machine`. Its `u32` sums wrap, as in a build
-- without overflow checks.
pub mod Table
pub mod Valid
use Prim.Native.Nat.{◌%◌}
use syllog.Prelude.{
  ℕ, zero, suc, ◌+◌, ◌*◌, ◌^◌, Bool, true, List, [], ◌∷◌, ◌++◌, ◌==◌, if◌then◌else◌, min, u32_max,
}
use syllog.Ir.Syntax.{DefId}
use syllog.Async.Machine.{
  AsyncStateId, AsyncTransition, start, suspend, resume, complete, cancel, AsyncState,
  AsyncStateMachine,
}

abbrev pub add_u32 : ℕ → ℕ → ℕ
add_u32 a b = (a + b) % 2 ^ 32

abbrev pub mul_u32 : ℕ → ℕ → ℕ
mul_u32 a b = a * b % 2 ^ 32

unfoldable pub complete_id : ℕ → AsyncStateId
complete_id awaits = add_u32 1 (min (awaits * 2) u32_max)

unfoldable pub cancel_id : ℕ → AsyncStateId
cancel_id awaits = add_u32 (complete_id awaits) 1

abbrev pub state_of : AsyncStateId → AsyncTransition → AsyncState
state_of id transition = record { id = id; transition = transition }

-- The states of the awaits from an index on, as many as the count.
unfoldable pub await_states : ℕ → ℕ → ℕ → List AsyncState
await_states awaits await_index zero = []
await_states awaits await_index (suc count) =
    let suspend_id = add_u32 1 (mul_u32 await_index 2) in
    let resume_id = add_u32 suspend_id 1 in
    let next =
      if add_u32 await_index 1 == awaits then complete_id awaits else add_u32 suspend_id 2 in
    state_of suspend_id (suspend await_index resume_id (cancel_id awaits))
    ∷ state_of resume_id (resume next (cancel_id awaits))
    ∷ await_states awaits (await_index + 1) count

unfoldable pub build_states : ℕ → List DefId → List AsyncState
build_states awaits live_locals =
    state_of 0 (AsyncTransition.start (if awaits == 0 then complete_id awaits else 1))
      ∷ await_states awaits 0 awaits
    ++ state_of (complete_id awaits) complete
      ∷ state_of (cancel_id awaits) (cancel live_locals)
      ∷ []

unfoldable pub build_machine : DefId → ℕ → List DefId → AsyncStateMachine
build_machine function awaits live_locals = record {
  function = function;
  parent_scope_required = true;
  live_locals = live_locals;
  states = build_states awaits live_locals;
}
