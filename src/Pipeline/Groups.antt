-- ===== src/Pipeline/Groups.antt =====
-- crates/syllog-runtime/src/pipeline.rs: fan-out, groups and the root scope. The order in which
-- Tokio runs the branches of a fan-out, with what each returns, is a parameter: the arrivals that
-- `join_next` yields, and the time, cancellation and circuits after the last of them.
use syllog.Prelude.{
  ℕ, String, List, [], ◌∷◌, ◌++◌, map, Option, none, some, Result, ok, err, ltb, length,
  if◌then◌else◌,
}
use syllog.Pipeline.Types.{
  Stage, StageError, JoinPolicy, PipelineGroup, serial, fan_out, PipelineEvent, Shared,
}
use syllog.Pipeline.Log
use syllog.Pipeline.Stage.{is_cancelled, cancel, log_event, run_stage}

-- A joined branch: its index, its result and the events of its log; none for a branch that did not
-- join.
abbrev pub Arrival : Type 0
Arrival = Option (ℕ × Result String StageError × List PipelineEvent)

-- What the host does with the branches of a fan-out, given the input and what is shared.
abbrev pub Schedule : Type 0
Schedule = List Stage → String → Shared → List Arrival × Shared

-- The results so far, the first failure and what is shared.
abbrev pub Collected : Type 0
Collected = List (ℕ × String) × Option StageError × Shared

-- `failure.get_or_insert(error)`
unfoldable pub get_or_insert : Option StageError → StageError → Option StageError
get_or_insert none e = some e
get_or_insert (some first) e = some first

abbrev pub log_events : ℕ → List PipelineEvent → Shared → Shared
log_events capacity incoming shared = record {
  clock = shared.clock;
  cancelled_at = shared.cancelled_at;
  circuits = shared.circuits;
  events = Log.extend capacity shared.events incoming;
}

unfoldable pub collect_output : ℕ → String → Collected → Collected
collect_output index output (results, none, shared) =
    (results ++ (index, output) ∷ [], none, shared)
collect_output index output (results, some e, shared) = (results, some e, shared)

unfoldable pub collect_failure : StageError → Collected → Collected
collect_failure e (results, failure, shared) = (results, get_or_insert failure e, cancel shared)

unfoldable pub collect : ℕ → Arrival → Collected → Collected
collect capacity none collected = collect_failure StageError.join collected
collect capacity (some (index, ok output, incoming)) (results, failure, shared) =
    collect_output index output (results, failure, log_events capacity incoming shared)
collect capacity (some (index, err e, incoming)) (results, failure, shared) =
    collect_failure e (results, failure, log_events capacity incoming shared)

unfoldable pub collect_all : ℕ → List Arrival → Collected → Collected
collect_all capacity [] collected = collected
collect_all capacity (a ∷ arrivals) collected =
    collect_all capacity arrivals (collect capacity a collected)

-- `sort_by_key`, which is stable.
unfoldable pub insert_indexed : ℕ × String → List (ℕ × String) → List (ℕ × String)
insert_indexed x [] = x ∷ []
insert_indexed x (y ∷ rest) =
    let later = insert_indexed x rest in if ltb y.0 x.0 then y ∷ later else x ∷ y ∷ rest

unfoldable pub sort_indexed : List (ℕ × String) → List (ℕ × String)
sort_indexed [] = []
sort_indexed (x ∷ rest) = insert_indexed x (sort_indexed rest)

unfoldable pub in_order : JoinPolicy → List (ℕ × String) → List (ℕ × String)
in_order JoinPolicy.preserve_input_order results = sort_indexed results
in_order JoinPolicy.completion_order results = results

unfoldable pub join_outputs : JoinPolicy → Collected → Result (List String) StageError × Shared
join_outputs policy (results, some e, shared) = (err e, shared)
join_outputs policy (results, none, shared) =
    (ok (map (λ r. r.1) (in_order policy results)), shared)

-- The operator `?`: an error returns.
unfoldable pub and_then :
    {A B : Type 0}
    → Result A StageError × Shared
    → (A → Shared → Result B StageError × Shared)
    → Result B StageError × Shared
and_then (ok a, shared) next = next a shared
and_then (err e, shared) next = (err e, shared)

-- `outputs.pop()`
unfoldable pub pop : List String → Option String
pop [] = none
pop (x ∷ []) = some x
pop (x ∷ y ∷ rest) = pop (y ∷ rest)

module _ (capacity : ℕ) (schedule : Schedule) where
  unfoldable pub run_fan_out :
      List Stage → JoinPolicy → String → Shared → Result (List String) StageError × Shared
  run_fan_out stages policy input shared =
      let joined = schedule stages input shared in
      join_outputs policy (collect_all capacity joined.0 ([], none, joined.1))

  -- `output = run_stage(..).await?` for each stage.
  unfoldable pub run_serial : List Stage → String → Shared → Result String StageError × Shared
  run_serial [] output shared = (ok output, shared)
  run_serial (stage ∷ stages) output shared =
      and_then (run_stage capacity stage output shared) (run_serial stages)

  unfoldable pub log_joined : List String → Shared → Result (List String) StageError × Shared
  log_joined outputs shared =
      (ok outputs, log_event capacity (PipelineEvent.joined (length outputs)) shared)

  unfoldable pub run_group :
      PipelineGroup → List String → Shared → Result (List String) StageError × Shared
  run_group (serial stages) outputs shared = elim (pop outputs) [
    | none ↦ (err (StageError.fatal "serial stage has no input"), shared)
    | some input ↦
        and_then (run_serial stages input shared) (λ output shared'. (ok (output ∷ []), shared'))
  ]
  run_group (fan_out stages policy) outputs shared = elim (pop outputs) [
    | none ↦ (err (StageError.fatal "fan-out has no input"), shared)
    | some input ↦
        and_then
          (run_fan_out stages policy input
            (log_event capacity (PipelineEvent.fan_out_started (length stages)) shared))
          log_joined
  ]

  unfoldable pub run_groups :
      List PipelineGroup → List String → Shared → Result (List String) StageError × Shared
  run_groups [] outputs shared = (ok outputs, shared)
  run_groups (group ∷ groups) outputs shared =
      if is_cancelled shared.cancelled_at shared.clock
      then (err StageError.cancelled, shared)
      else and_then (run_group group outputs shared) (run_groups groups)

  -- The end of the root scope: the events of an outcome or of a failure are those of the log.
  unfoldable pub finish :
      Result (List String) StageError × Shared → Result (List String) StageError × Shared
  finish (ok outputs, shared) = (ok outputs, log_event capacity PipelineEvent.completed shared)
  finish (err StageError.cancelled, shared) = (
    err StageError.cancelled,
    record {
      clock = shared.clock;
      cancelled_at = shared.cancelled_at;
      circuits = shared.circuits;
      events = Log.cancelled capacity shared.events;
    },
  )
  finish (err e, shared) = (err e, shared)

  unfoldable pub run :
      List PipelineGroup → String → Shared → Result (List String) StageError × Shared
  run groups input shared =
      finish (run_groups groups (input ∷ []) (log_event capacity PipelineEvent.started shared))
