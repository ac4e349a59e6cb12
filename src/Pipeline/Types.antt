-- ===== src/Pipeline/Types.antt =====
-- crates/syllog-runtime/src/pipeline.rs: stages, policies, plans, errors and events. A duration and
-- an instant are numbers of one unit of time.

use Prim.Native.Nat.{max}
use syllog.Prelude.{ℕ, String, List, [], Option, none, some, Result, ok, err, ◌==◌, if◌then◌else◌}
use syllog.Prelude.TreeMap.{TreeMap}

pub record RetryPolicy : Type 0 where
  pub max_attempts : ℕ
  pub backoff : ℕ

pub record CircuitPolicy : Type 0 where
  pub failure_threshold : ℕ
  pub reset_after : ℕ

pub data JoinPolicy : Type 0 where
  preserve_input_order completion_order : JoinPolicy

pub data StageErrorKind : Type 0 where
  retryable fatal cancelled deadline circuit_open join : StageErrorKind

pub data StageError : Type 0 where
  retryable : String → StageError
  fatal : String → StageError
  cancelled : StageError
  deadline : String → StageError
  circuit_open : String → StageError
  join : StageError

unfoldable pub kind_of : StageError → StageErrorKind
kind_of (StageError.retryable message) = StageErrorKind.retryable
kind_of (StageError.fatal message) = StageErrorKind.fatal
kind_of StageError.cancelled = StageErrorKind.cancelled
kind_of (StageError.deadline stage) = StageErrorKind.deadline
kind_of (StageError.circuit_open stage) = StageErrorKind.circuit_open
kind_of StageError.join = StageErrorKind.join

-- What a call of an operation comes to, and the time that it takes.
pub record Reply : Type 0 where
  pub result : Result String StageError
  pub duration : ℕ

-- The operation is code of the host: it sees the time of its call, the time of the cancellation, which its
-- context tells, and its input.
pub record Stage : Type 0 where
  pub name : String
  pub operation : ℕ → Option ℕ → String → Reply
  pub retry : RetryPolicy
  pub deadline : Option ℕ
  pub circuit : Option CircuitPolicy

unfoldable pub new_stage : String → (ℕ → Option ℕ → String → Reply) → Stage
new_stage name operation = record {
  name = name;
  operation = operation;
  retry = record { max_attempts = 1; backoff = 0 };
  deadline = none;
  circuit = none;
}

unfoldable pub with_retry : Stage → RetryPolicy → Stage
with_retry stage policy = record {
  name = stage.name;
  operation = stage.operation;
  retry = record { max_attempts = max policy.max_attempts 1; backoff = policy.backoff };
  deadline = stage.deadline;
  circuit = stage.circuit;
}

unfoldable pub with_deadline : Stage → ℕ → Stage
with_deadline stage limit = record {
  name = stage.name;
  operation = stage.operation;
  retry = stage.retry;
  deadline = some limit;
  circuit = stage.circuit;
}

unfoldable pub with_circuit : Stage → CircuitPolicy → Stage
with_circuit stage policy = record {
  name = stage.name;
  operation = stage.operation;
  retry = stage.retry;
  deadline = stage.deadline;
  circuit = some record {
    failure_threshold = max policy.failure_threshold 1;
    reset_after = policy.reset_after;
  };
}

pub data PipelineGroup : Type 0 where
  serial : List Stage → PipelineGroup
  fan_out : List Stage → JoinPolicy → PipelineGroup

pub data PipelineEvent : Type 0 where
  started : PipelineEvent
  stage_attempt : String → ℕ → PipelineEvent
  stage_succeeded : String → PipelineEvent
  stage_failed : String → StageErrorKind → PipelineEvent
  fan_out_started : ℕ → PipelineEvent
  joined : ℕ → PipelineEvent
  cancelled : PipelineEvent
  cancellation_grace_elapsed : ℕ → PipelineEvent
  task_detached : PipelineEvent
  completed : PipelineEvent

pub record CircuitState : Type 0 where
  pub failures : ℕ
  pub opened_at : Option ℕ

pub data ProductionPipelineConfigError : Type 0 where
  zero_event_capacity zero_fan_out : ProductionPipelineConfigError

pub record ProductionPipelineExecutor : Type 0 where
  pub event_capacity : ℕ
  pub max_fan_out : ℕ
  pub circuits : TreeMap String CircuitState
  pub cancellation_grace : ℕ

-- `ProductionPipelineExecutor::new`; a grace of 5 seconds in milliseconds.
unfoldable pub new_executor :
    ℕ → ℕ → Result ProductionPipelineExecutor ProductionPipelineConfigError
new_executor event_capacity max_fan_out =
    if event_capacity == 0
    then err ProductionPipelineConfigError.zero_event_capacity
    else if max_fan_out == 0
    then err ProductionPipelineConfigError.zero_fan_out
    else ok record {
      event_capacity = event_capacity;
      max_fan_out = max_fan_out;
      circuits = [];
      cancellation_grace = 5000;
    }

-- What a run shares: the time, the time of the cancellation, the circuits and the events of the
-- log. The cancellation is requested from outside, or by a failure of a branch.
pub record Shared : Type 0 where
  pub clock : ℕ
  pub cancelled_at : Option ℕ
  pub circuits : TreeMap String CircuitState
  pub events : List PipelineEvent
