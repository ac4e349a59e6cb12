-- ===== src/Pipeline/Deadlines.antt =====
-- A stage of crates/syllog-runtime/src/pipeline.rs that exceeds its deadline again and again.
use syllog.Prelude.{
  ℕ, zero, suc, ◌+◌, ◌-◌, ◌<◌, String, List, [], ◌∷◌, Option, none, some, Result, err, ◌≡◌, refl,
  sym, subst, arith, inl, inr, Option-cases, replicate,
}
use syllog.Prelude.TreeMap.{lookup, insert, lookup-insert, String-Key}
use syllog.Pipeline.Types.{Stage, StageError, stage_attempt, Shared}
use syllog.Pipeline.Circuit.{Circuits, circuit_of, denies, admit, check_circuit}
use syllog.Pipeline.Stage.{
  timed_out, is_cancelled, at_time, with_circuits, log_event, is_late, deadline_time, attempts,
  run_stage_attempts, deadline_of, finish_stage, run_checked, run_stage,
}

-- The results of running a stage some times in a row.
unfoldable pub run_times : ℕ → Stage → String → ℕ → Shared → List (Result String StageError)
run_times capacity stage input zero shared = []
run_times capacity stage input (suc n) shared =
    let ran = run_stage capacity stage input shared in
    ran.0 ∷ run_times capacity stage input n ran.1

module _ (capacity : ℕ) (stage : Stage) (input : String) (limit : ℕ)
    (has_deadline : stage.deadline ≡ some limit) (attempts_left : 0 < stage.retry.max_attempts)
    (slow : (clock : ℕ) (cancelled_at : Option ℕ)
      → limit < (stage.operation clock cancelled_at input).duration) where
  -- Nothing cancels, and the circuit is closed.
  record Calm (shared : Shared) : Type 0 where
    not_cancelled : shared.cancelled_at ≡ none
    is_closed : (circuit_of stage.name shared.circuits).opened_at ≡ none

  check-Calm :
      (shared : Shared)
      → Calm shared
      → (circuits : Circuits) × (check_circuit stage shared.clock shared.circuits
          ≡ (none, circuits))
        × ((circuit_of stage.name circuits).opened_at ≡ none)
  unfolding check_circuit denies admit circuit_of
  check-Calm shared c = elim (Option-cases stage.circuit) [
    | inl e ↦ (shared.circuits, ground (arith, c.is_closed), c.is_closed)
    | inr (policy, e) ↦
        let state = circuit_of stage.name shared.circuits in
        (
          insert stage.name state shared.circuits,
          ground (arith, c.is_closed),
          ground (
            arith,
            c.is_closed,
            lookup-insert stage.name stage.name state shared.circuits,
            String-Key.eq_iff stage.name stage.name,
          ),
        )
  ]

  attempts-timed_out :
      (left first : ℕ) (shared : Shared)
      → shared.cancelled_at ≡ none
      → attempts capacity stage input (some (shared.clock + limit)) (suc left) first shared ≡ (
        timed_out,
        at_time (shared.clock + limit) (log_event capacity (stage_attempt stage.name first) shared),
      )
  unfolding attempts is_cancelled is_late deadline_time
  attempts-timed_out left first shared h = ground (arith, h, slow shared.clock shared.cancelled_at)

  deadline_of_lem :
      (shared : Shared) → deadline_of capacity stage input shared ≡ some (shared.clock + limit)
  unfolding deadline_of
  deadline_of_lem shared = ground (arith, has_deadline)

  run_stage_attempts-timed_out :
      (shared : Shared)
      → shared.cancelled_at ≡ none
      → run_stage_attempts capacity stage input (deadline_of capacity stage input shared) shared ≡ (
        timed_out,
        at_time (shared.clock + limit) (log_event capacity (stage_attempt stage.name 1) shared),
      )
  unfolding run_stage_attempts
  run_stage_attempts-timed_out shared h =
      let e : stage.retry.max_attempts ≡ suc (stage.retry.max_attempts - 1) = omega arith in
      subst
        (λ n. attempts capacity stage input (deadline_of capacity stage input shared) n 1 shared ≡ (
          timed_out,
          at_time (shared.clock + limit) (log_event capacity (stage_attempt stage.name 1) shared),
        ))
        (sym e)
        (rw (deadline_of_lem shared) (attempts-timed_out (stage.retry.max_attempts - 1) 1 shared h))

  run_checked-Calm :
      (circuits : Circuits) (shared : Shared)
      → shared.cancelled_at ≡ none
      → (circuit_of stage.name circuits).opened_at ≡ none
      → ((run_checked capacity stage input (none, circuits) shared).0
          ≡ err (StageError.deadline stage.name))
        × Calm (run_checked capacity stage input (none, circuits) shared).1
  unfolding run_checked finish_stage deadline_of
  run_checked-Calm circuits shared h o =
      subst
        (λ ran.
          ((finish_stage capacity stage input ran).0 ≡ err (StageError.deadline stage.name))
          × Calm (finish_stage capacity stage input ran).1)
        (sym (run_stage_attempts-timed_out (with_circuits circuits shared) h))
        (refl, record { not_cancelled = h; is_closed = o })

  run_stage-Calm :
      (shared : Shared)
      → Calm shared
      → ((run_stage capacity stage input shared).0 ≡ err (StageError.deadline stage.name))
        × Calm (run_stage capacity stage input shared).1
  unfolding run_stage
  run_stage-Calm shared c =
      let (circuits, e, o) = check-Calm shared c in
      rw e (run_checked-Calm circuits shared c.not_cancelled o)

  repeated :
      (n : ℕ) (shared : Shared)
      → Calm shared
      → run_times capacity stage input n shared ≡ replicate n (err (StageError.deadline stage.name))
  unfolding run_times
  repeated zero shared c = refl
  repeated (suc n) shared c =
      let (failed, calm) = run_stage-Calm shared c in
      simp (failed, repeated n (run_stage capacity stage input shared).1 calm) refl

  new-closed :
      (shared : Shared)
      → lookup stage.name shared.circuits ≡ none
      → (circuit_of stage.name shared.circuits).opened_at ≡ none
  unfolding circuit_of
  new-closed shared h = ground arith

  -- A stage whose operation always takes longer than its deadline, run any number of times without
  -- a cancellation on a circuit that is new, exceeds its deadline every time: its circuit never
  -- denies a run, whatever the threshold.
  pub run_times-deadline :
      (n : ℕ) (shared : Shared)
      → shared.cancelled_at ≡ none
      → lookup stage.name shared.circuits ≡ none
      → run_times capacity stage input n shared ≡ replicate n (err (StageError.deadline stage.name))
  run_times-deadline n shared h new =
      repeated n shared record { not_cancelled = h; is_closed = new-closed shared new }
