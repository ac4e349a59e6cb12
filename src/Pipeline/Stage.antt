-- ===== src/Pipeline/Stage.antt =====
-- crates/syllog-runtime/src/pipeline.rs: a stage with its retries, its deadline and its circuit.
-- Time passes in operations and in the sleep between attempts. A deadline elapses when one of these
-- would end after it; where both end at once, the operation's end is seen first.
use syllog.Prelude.{
  ℕ, zero, suc, ◌+◌, String, Bool, true, false, Option, none, some, Result, ok, err, ltb, leb,
  if◌then◌else◌,
}
use syllog.Pipeline.Types.{
  Stage, StageError, kind_of, PipelineEvent, stage_attempt, stage_succeeded, stage_failed, Shared,
}
use syllog.Pipeline.Log
use syllog.Pipeline.Circuit.{
  Circuits, check_circuit, record_circuit_success, record_circuit_failure,
}

-- The outcome of an awaited operation under a timeout.
pub data Timed (A : Type 0) : Type 0 where
  on_time : A → Timed A
  timed_out : Timed A

-- `PipelineCancellation::is_cancelled` at a time.
unfoldable pub is_cancelled : Option ℕ → ℕ → Bool
is_cancelled none clock = false
is_cancelled (some at) clock = leb at clock

-- `PipelineCancellation::cancel`: a swap of the flag, which a second request finds set.
unfoldable pub cancel : Shared → Shared
cancel shared = record {
  clock = shared.clock;
  cancelled_at =
      if is_cancelled shared.cancelled_at shared.clock
      then shared.cancelled_at
      else some shared.clock;
  circuits = shared.circuits;
  events = shared.events;
}

abbrev pub at_time : ℕ → Shared → Shared
at_time clock shared = record {
  clock = clock;
  cancelled_at = shared.cancelled_at;
  circuits = shared.circuits;
  events = shared.events;
}

abbrev pub with_circuits : Circuits → Shared → Shared
with_circuits circuits shared = record {
  clock = shared.clock;
  cancelled_at = shared.cancelled_at;
  circuits = circuits;
  events = shared.events;
}

abbrev pub log_event : ℕ → PipelineEvent → Shared → Shared
log_event capacity event shared = record {
  clock = shared.clock;
  cancelled_at = shared.cancelled_at;
  circuits = shared.circuits;
  events = Log.push capacity shared.events event;
}

-- Whether something that ends at a time ends after the deadline.
unfoldable pub is_late : Option ℕ → ℕ → Bool
is_late none clock = false
is_late (some limit) clock = ltb limit clock

-- The time at which the timeout fires.
unfoldable pub deadline_time : Option ℕ → ℕ → ℕ
deadline_time none clock = clock
deadline_time (some limit) clock = limit

-- The biased `select!` between the cancellation and the sleep: whether it is cancelled, and when.
unfoldable pub back_off : Option ℕ → ℕ → ℕ → Bool × ℕ
back_off cancelled_at clock backoff =
    if is_cancelled cancelled_at clock then (true, clock) else elim cancelled_at [
      | none ↦ (false, clock + backoff)
      | some at ↦ if leb at (clock + backoff) then (true, at) else (false, clock + backoff)
    ]

module _ (capacity : ℕ) (stage : Stage) (input : String) (limit : Option ℕ) where
  abbrev pub Attempted : Type 0
  Attempted = Timed (Result String StageError) × Shared

  -- After a retryable failure that is not the last attempt.
  unfoldable pub after_back_off : Bool × ℕ → Shared → (Shared → Attempted) → Attempted
  after_back_off (was_cancelled, clock) shared next =
      if is_late limit clock
      then (timed_out, at_time (deadline_time limit clock) shared)
      else if was_cancelled
      then (on_time (err StageError.cancelled), at_time clock shared)
      else next (at_time clock shared)

  -- What follows an attempt's reply.
  unfoldable pub after_reply :
      ℕ → Result String StageError → Shared → (Shared → Attempted) → Attempted
  after_reply attempt (err (StageError.retryable message)) shared next =
      if ltb attempt stage.retry.max_attempts
      then after_back_off (back_off shared.cancelled_at shared.clock stage.retry.backoff) shared
          next
      else (on_time (err (StageError.retryable message)), shared)
  after_reply attempt result shared next = (on_time result, shared)

  -- The attempts from one on, of which some are left.
  unfoldable pub attempts : ℕ → ℕ → Shared → Attempted
  attempts zero attempt shared =
      (on_time (err (StageError.fatal "retry policy exhausted without terminal result")), shared)
  attempts (suc left) attempt shared =
      let rest = attempts left (suc attempt) in
      if is_cancelled shared.cancelled_at shared.clock
      then (on_time (err StageError.cancelled), shared)
      else let logged = log_event capacity (stage_attempt stage.name attempt) shared in
        let reply = stage.operation shared.clock shared.cancelled_at input in
        let end = shared.clock + reply.duration in
        if is_late limit end
        then (timed_out, at_time (deadline_time limit end) logged)
        else after_reply attempt reply.result (at_time end logged) rest

  unfoldable pub run_stage_attempts : Shared → Attempted
  run_stage_attempts shared = attempts stage.retry.max_attempts 1 shared

module _ (capacity : ℕ) (stage : Stage) (input : String) where
  unfoldable pub deadline_of : Shared → Option ℕ
  deadline_of shared = elim stage.deadline [
    | none ↦ none
    | some limit ↦ some (shared.clock + limit)
  ]

  -- The record of a result. An elapsed deadline returns before it, by `?`.
  unfoldable pub finish_stage :
      Timed (Result String StageError) × Shared → Result String StageError × Shared
  finish_stage (timed_out, shared) = (err (StageError.deadline stage.name), shared)
  finish_stage (on_time (ok output), shared) = (
    ok output,
    log_event capacity (stage_succeeded stage.name)
        (with_circuits (record_circuit_success stage shared.circuits) shared),
  )
  finish_stage (on_time (err e), shared) = (
    err e,
    log_event capacity (stage_failed stage.name (kind_of e))
        (with_circuits (record_circuit_failure stage shared.clock shared.circuits) shared),
  )

  unfoldable pub run_checked :
      Option StageError × Circuits → Shared → Result String StageError × Shared
  run_checked (some e, circuits) shared = (err e, with_circuits circuits shared)
  run_checked (none, circuits) shared =
      finish_stage (
        run_stage_attempts capacity stage input (deadline_of shared)
          (with_circuits circuits shared))

  unfoldable pub run_stage : Shared → Result String StageError × Shared
  run_stage shared = run_checked (check_circuit stage shared.clock shared.circuits) shared
