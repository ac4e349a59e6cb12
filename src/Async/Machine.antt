-- ===== src/Async/Machine.antt =====
-- crates/syllog-ir/src/lib.rs: async state machines and `verify_async_machine`.
use syllog.Prelude.{
  ℕ, suc, ◌+◌, Bool, true, not, ◌&&◌, ◌||◌, List, [], ◌∷◌, ◌++◌, ltb, ◌==◌, if◌then◌else◌, length,
  Result, ok, err, to_u32,
}
use syllog.Ir.Syntax.{DefId}

abbrev pub AsyncStateId : Type 0
AsyncStateId = ℕ

-- `suspend await_index resume cancel` and `resume next panic`.
pub data AsyncTransition : Type 0 where
  start : AsyncStateId → AsyncTransition
  suspend : ℕ → AsyncStateId → AsyncStateId → AsyncTransition
  resume : AsyncStateId → AsyncStateId → AsyncTransition
  complete : AsyncTransition
  cancel : List DefId → AsyncTransition

pub record AsyncState : Type 0 where
  pub id : AsyncStateId
  pub transition : AsyncTransition

pub record AsyncStateMachine : Type 0 where
  pub function : DefId
  pub parent_scope_required : Bool
  pub live_locals : List DefId
  pub states : List AsyncState

-- `invalid_target state target`.
pub data AsyncVerificationError : Type 0 where
  invalid_state_table invalid_terminal_count missing_parent_scope : AsyncVerificationError
  invalid_target : AsyncStateId → AsyncStateId → AsyncVerificationError

-- Every state has its index, from this one on, as its id.
unfoldable pub contiguous : ℕ → List AsyncState → Bool
contiguous index [] = true
contiguous index (state ∷ states) = state.id == to_u32 index && contiguous (index + 1) states

unfoldable pub transition_targets : AsyncTransition → List AsyncStateId
transition_targets (AsyncTransition.start next) = next ∷ []
transition_targets (suspend await_index wake_at stop_at) = wake_at ∷ stop_at ∷ []
transition_targets (resume next stop_at) = next ∷ stop_at ∷ []
transition_targets complete = []
transition_targets (cancel drop_locals) = []

unfoldable pub target_errors : ℕ → AsyncStateId → List AsyncStateId → List AsyncVerificationError
target_errors count id [] = []
target_errors count id (target ∷ targets) =
    let rest = target_errors count id targets in
    if ltb target count then rest else invalid_target id target ∷ rest

unfoldable pub graph_errors : ℕ → List AsyncState → List AsyncVerificationError
graph_errors count [] = []
graph_errors count (state ∷ states) =
    target_errors count state.id (transition_targets state.transition) ++ graph_errors count states

unfoldable pub completions : List AsyncState → ℕ
completions [] = 0
completions (state ∷ states) = elim state.transition [
  | complete ↦ suc (completions states)
  | _ ↦ completions states
]

unfoldable pub cancellations : List AsyncState → ℕ
cancellations [] = 0
cancellations (state ∷ states) = elim state.transition [
  | cancel _ ↦ suc (cancellations states)
  | _ ↦ cancellations states
]

unfoldable pub table_errors : List AsyncState → List AsyncVerificationError
table_errors states =
    if length states == 0 || not (contiguous 0 states) then invalid_state_table ∷ [] else []

unfoldable pub parent_errors : Bool → List AsyncVerificationError
parent_errors required = if required then [] else missing_parent_scope ∷ []

unfoldable pub terminal_errors : List AsyncState → List AsyncVerificationError
terminal_errors states =
    if not (completions states == 1) || not (cancellations states == 1)
    then invalid_terminal_count ∷ []
    else []

-- All errors, in the order in which the source pushes them.
unfoldable pub machine_errors : AsyncStateMachine → List AsyncVerificationError
machine_errors machine =
    table_errors machine.states
    ++ parent_errors machine.parent_scope_required
    ++ graph_errors (length machine.states) machine.states
    ++ terminal_errors machine.states

unfoldable pub verify_async_machine :
    AsyncStateMachine → Result (Unit {0}) (List AsyncVerificationError)
verify_async_machine machine = elim (machine_errors machine) [ [] ↦ ok tt | e ∷ es ↦ err (e ∷ es) ]
