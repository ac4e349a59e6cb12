-- ===== src/Async/Task.antt =====
-- crates/syllog-runtime/src/task.rs: the runner of an async state machine and
-- `run_deterministic_task`. The loop of `advance` and the loop over its steps each run on a fuel.
pub mod Trace
use syllog.Prelude.{
  ℕ, zero, suc, Bool, true, false, List, [], ◌∷◌, ◌++◌, Option, none, some, ◌==◌, if◌then◌else◌,
  get_elem?, Result, ok, err,
}
use syllog.Ir.Syntax.{DefId}
use syllog.Async.Machine.{
  AsyncStateId, AsyncTransition, suspend, resume, cancel, AsyncState, AsyncStateMachine,
  AsyncVerificationError, verify_async_machine,
}

pub data TaskControl : Type 0 where
  complete : TaskControl
  cancel_at panic_at : ℕ → TaskControl

pub data TaskEvent : Type 0 where
  started : ℕ → TaskEvent
  suspended woken resumed : ℕ → TaskEvent
  cancelled panicked completed : TaskEvent
  dropped : List DefId → TaskEvent

pub data TaskFailure : Type 0 where
  invalid_machine : List AsyncVerificationError → TaskFailure
  invalid_runtime_state : AsyncStateId → TaskFailure
  panicked : List TaskEvent → TaskFailure

-- `pending await_index resume`.
pub data Step : Type 0 where
  pending : ℕ → AsyncStateId → Step
  complete : Step

pub record Runner : Type 0 where
  pub machine : AsyncStateMachine
  pub state : AsyncStateId
  pub control : TaskControl
  pub last_await : Option ℕ
  pub events : List TaskEvent
  pub panicked : Bool

-- `self.control == TaskControl::CancelAt { await_index }`, and the same for a panic.
unfoldable pub cancels : TaskControl → ℕ → Bool
cancels (cancel_at k) await_index = k == await_index
cancels _ await_index = false

unfoldable pub panics : TaskControl → ℕ → Bool
panics (panic_at k) await_index = k == await_index
panics _ await_index = false

abbrev pub push : Runner → TaskEvent → Runner
push r event = record r { events = r.events ++ event ∷ [] }

abbrev pub move_to : Runner → AsyncStateId → Runner
move_to r state = record r { state = state }

-- What one turn of the loop of `advance` does: the loop goes on, or `advance` returns.
pub data Turn : Type 0 where
  continue : Runner → Turn
  return : Step → Runner → Turn
  fail : TaskFailure → Turn

unfoldable pub turn_suspend : ℕ → AsyncStateId → AsyncStateId → Runner → Turn
turn_suspend await_index wake_at stop_at r =
    let r' = push r (suspended await_index) in
    if cancels r.control await_index
    then continue (move_to (push r' cancelled) stop_at)
    else return (pending await_index wake_at) r'

unfoldable pub turn_resume : AsyncStateId → AsyncStateId → Runner → Turn
turn_resume next stop_at r = elim r.last_await [
  | none ↦ fail (invalid_runtime_state r.state)
  | some await_index ↦
      let r' = push r (resumed await_index) in
      if panics r.control await_index
      then continue (move_to (record (push r' TaskEvent.panicked) { panicked = true }) stop_at)
      else continue (move_to r' next)
]

unfoldable pub turn_cancel : List DefId → Runner → Turn
turn_cancel drop_locals r =
    let r' = push r (dropped drop_locals) in
    if r.panicked then fail (TaskFailure.panicked r'.events) else return Step.complete r'

unfoldable pub turn_on : AsyncTransition → Runner → Turn
turn_on (AsyncTransition.start next) r = continue (move_to r next)
turn_on (suspend await_index wake_at stop_at) r = turn_suspend await_index wake_at stop_at r
turn_on (resume next stop_at) r = turn_resume next stop_at r
turn_on AsyncTransition.complete r = return Step.complete (push r completed)
turn_on (cancel drop_locals) r = turn_cancel drop_locals r

unfoldable pub turn : Runner → Turn
turn r = elim (get_elem? r.machine.states r.state) [
  | none ↦ fail (invalid_runtime_state r.state)
  | some state ↦ turn_on state.transition r
]

-- A result of the source, or a fuel that was not enough.
pub data Outcome (A : Type 0) : Type 0 where
  done : A → Outcome A
  failed : TaskFailure → Outcome A
  out_of_fuel : Outcome A

unfoldable pub advance : ℕ → Runner → Outcome (Step × Runner)
advance zero r = out_of_fuel
advance (suc fuel) r = elim (turn r) [
  | continue r' ↦ advance fuel r'
  | return step r' ↦ done (step, r')
  | fail e ↦ failed e
]

unfoldable pub wake : ℕ → AsyncStateId → Runner → Runner
wake await_index wake_at r = record (push r (woken await_index)) {
  last_await = some await_index;
  state = wake_at;
}

-- The loop over the steps; `turns` is the fuel of each `advance`.
unfoldable pub run_steps : ℕ → ℕ → Runner → Outcome (List TaskEvent)
run_steps turns zero r = out_of_fuel
run_steps turns (suc fuel) r = elim (advance turns r) [
  | done (pending await_index wake_at, r') ↦ run_steps turns fuel (wake await_index wake_at r')
  | done (Step.complete, r') ↦ done r'.events
  | failed e ↦ failed e
  | out_of_fuel ↦ out_of_fuel
]

-- `Runner::new` on a verified machine.
abbrev pub new : AsyncStateMachine → ℕ → TaskControl → Runner
new machine parent control = record {
  machine = machine;
  state = 0;
  control = control;
  last_await = none;
  events = started parent ∷ [];
  panicked = false;
}

unfoldable pub run_deterministic_task :
    ℕ → ℕ → AsyncStateMachine → ℕ → TaskControl → Outcome (List TaskEvent)
run_deterministic_task turns steps machine parent control = elim (verify_async_machine machine) [
  | err errors ↦ failed (invalid_machine errors)
  | ok _ ↦ run_steps turns steps (new machine parent control)
]
