-- ===== src/Examples/Pipelines.antt =====
-- Small pipelines: runs of crates/syllog-runtime/src/pipeline.rs, and the theorems there.
use mathlib.Core.List.{Permᴰ}
use syllog.Prelude.{
  true, List, [], ◌∷◌, none, some, ok, err, ◌≡◌, refl, arith, if◌then◌else◌, replicate, ltb,
}
use syllog.Pipeline.Types.{
  CircuitPolicy, JoinPolicy, StageError, Stage, serial, started, completed, stage_attempt,
  stage_succeeded, Shared,
}
use syllog.Pipeline.Log
use syllog.Pipeline.Stage.{
  is_cancelled, is_late, deadline_time, back_off, after_back_off, after_reply, attempts,
  run_stage_attempts, deadline_of, finish_stage, run_checked, run_stage,
}
use syllog.Prelude.TreeMap.{lookup, insert, String-Key}
use syllog.Pipeline.Circuit.{denies, circuit_of, check_circuit, record_circuit_success}
use syllog.Pipeline.Groups.{
  Schedule, and_then, pop, run_serial, run_fan_out, run_group, run_groups, finish, run,
}
use syllog.Pipeline.CircuitRefine.{
  CircuitOp, check, success, failure, run_circuit, closed, run_breaker, run_circuit-run_breaker,
}
use syllog.Pipeline.Retries.{Tried}
use syllog.Pipeline.Retries.Course.{Course, run_stage_attempts-Course}
use syllog.Pipeline.Deadlines.{run_times, run_times-deadline}
use syllog.Pipeline.Joins.{arrives, none_left, run_fan_out-in_order, run_fan_out-first_failure}

-- Fails before time 5, then answers; each call takes 3.
abbrev flaky : Stage
flaky = record {
  name = "draft";
  operation = λ clock cancelled_at input. record {
    result = if ltb clock 5 then err (StageError.retryable "busy") else ok input;
    duration = 3;
  };
  retry = record { max_attempts = 4; backoff = 2 };
  deadline = none;
  circuit = some record { failure_threshold = 2; reset_after = 10 };
}

abbrev slow : Stage
slow = record {
  name = "slow";
  operation = λ clock cancelled_at input. record { result = ok input; duration = 9 };
  retry = record { max_attempts = 2; backoff = 0 };
  deadline = some 5;
  circuit = some record { failure_threshold = 1; reset_after = 10 };
}

abbrev idle : Shared
idle = record { clock = 0; cancelled_at = none; circuits = []; events = [] }

abbrev breaker : CircuitPolicy
breaker = record { failure_threshold = 2; reset_after = 10 }

abbrev circuit_ops : List CircuitOp
circuit_ops =
    failure 1 ∷ check 2 ∷ failure 3 ∷ check 4 ∷ check 13 ∷ failure 14 ∷ success ∷ check 15 ∷ []

run_circuit-run_breaker_example :
    run_circuit flaky circuit_ops [] ≡ run_breaker breaker circuit_ops (closed 0)
unfolding lookup
run_circuit-run_breaker_example =
    run_circuit-run_breaker breaker flaky circuit_ops [] (omega arith) (omega arith) refl refl

run_stage_attempts-Course_example :
    Course 8 flaky "x" none 1 idle (run_stage_attempts 8 flaky "x" none idle)
    × Tried 8 flaky "x" none 1 idle (run_stage_attempts 8 flaky "x" none idle)
run_stage_attempts-Course_example = run_stage_attempts-Course 8 flaky "x" none idle (omega arith)

run_times-deadline_example :
    run_times 8 slow "x" 3 idle ≡ replicate 3 (err (StageError.deadline "slow"))
unfolding lookup
run_times-deadline_example =
    run_times-deadline 8 slow "x" 5 refl (omega arith) (λ clock cancelled_at. omega arith) 3 idle
      refl refl

-- The second branch arrives first.
abbrev swapped : Schedule
swapped stages input shared = (some (1, ok "b", started ∷ []) ∷ some (0, ok "a", []) ∷ [], shared)

run_fan_out-in_order_example :
    (run_fan_out 8 swapped (flaky ∷ slow ∷ []) JoinPolicy.preserve_input_order "x" idle).0
    ≡ ok ("a" ∷ "b" ∷ [])
run_fan_out-in_order_example =
    run_fan_out-in_order 8 swapped (flaky ∷ slow ∷ []) "x" idle ("a" ∷ "b" ∷ [])
      ((1, "b") ∷ (0, "a") ∷ []) (arrives 1 "b" (started ∷ []) (arrives 0 "a" [] none_left))
      (Permᴰ.swap refl refl)

abbrev broken : Schedule
broken stages input shared =
    (some (1, ok "b", []) ∷ none ∷ some (0, err StageError.cancelled, []) ∷ [], shared)

run_fan_out-first_failure_example :
    let ran = run_fan_out 8 broken (flaky ∷ slow ∷ []) JoinPolicy.completion_order "x" idle in
    (ran.0 ≡ err StageError.join) × (is_cancelled ran.1.cancelled_at ran.1.clock ≡ true)
run_fan_out-first_failure_example =
    run_fan_out-first_failure 8 broken (flaky ∷ slow ∷ []) "x" idle JoinPolicy.completion_order
      StageError.join refl

extend-last_events_example :
    Log.extend 2 (Log.last_events 2 []) (started ∷ stage_attempt "draft" 1 ∷ completed ∷ [])
    ≡ Log.last_events 2 (started ∷ stage_attempt "draft" 1 ∷ completed ∷ [])
extend-last_events_example =
    Log.extend-last_events 2 [] (started ∷ stage_attempt "draft" 1 ∷ completed ∷ []) (omega arith)

-- A run that retries twice and completes.
run-flaky : run 8 swapped (serial (flaky ∷ []) ∷ []) "x" idle ≡ (
  ok ("x" ∷ []),
  record {
    clock = 8;
    cancelled_at = none;
    circuits = ("draft", record { failures = 0; opened_at = none }) ∷ [];
    events =
        started
        ∷ stage_attempt "draft" 1
        ∷ stage_attempt "draft" 2
        ∷ stage_succeeded "draft"
        ∷ completed
        ∷ [];
  },
)
unfolding is_cancelled is_late deadline_time back_off after_back_off after_reply attempts
    run_stage_attempts deadline_of finish_stage run_checked run_stage and_then pop run_serial
    run_group run_groups finish run Log.push Log.remove_first check_circuit denies circuit_of
    record_circuit_success lookup insert String-Key
run-flaky = refl
