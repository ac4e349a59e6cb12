-- ===== src/Pipeline/Retries.antt =====
-- The log and the circuits after the attempts of a stage in crates/syllog-runtime/src/pipeline.rs.
pub mod Course
use syllog.Prelude.{
  ℕ, zero, suc, ◌+◌, ◌-◌, ◌<◌, ◌≤◌, String, Bool, List, [], ◌∷◌, Option, Result, ok, err, ◌≡◌, ◌⊎◌,
  inl, inr, refl, sym, ap, subst, ◌∙◌, arith, ltb, ltb→lt, if-cases,
}
use syllog.Pipeline.Types.{Stage, StageError, PipelineEvent, stage_attempt, Shared}
use syllog.Pipeline.Log
use syllog.Pipeline.Stage.{
  Timed, on_time, timed_out, is_cancelled, at_time, log_event, is_late, deadline_time, back_off,
  Attempted, after_back_off, after_reply, attempts, run_stage_attempts,
}

-- The events of some attempts with ascending numbers.
abbrev pub attempt_events : String → ℕ → ℕ → List PipelineEvent
attempt_events name zero first = []
attempt_events name (suc n) first = stage_attempt name first ∷ attempt_events name n (suc first)

module _ (capacity : ℕ) (stage : Stage) (input : String) (limit : Option ℕ) where
  -- What some attempts from a number on leave.
  pub record Tried (first : ℕ) (before : Shared) (after : Timed (Result String StageError) × Shared)
      : Type 0 where
    pub count : ℕ
    pub bounded : first + count ≤ suc stage.retry.max_attempts
    pub logged :
        after.1.events ≡ Log.extend capacity before.events (attempt_events stage.name count first)
    pub circuits_kept : after.1.circuits ≡ before.circuits

  module _ (first : ℕ) (before : Shared) (within : first ≤ stage.retry.max_attempts) where
    -- One more attempt stands before those that follow.
    Tried-suc :
        (s : Shared) (after : Timed (Result String StageError) × Shared)
        → s.events ≡ Log.push capacity before.events (stage_attempt stage.name first)
        → s.circuits ≡ before.circuits
        → Tried (suc first) s after
        → Tried first before after
    unfolding Log.extend
    Tried-suc s after e c t = record {
      count = suc t.count;
      bounded = omega (arith, t.bounded);
      logged =
          t.logged
          ∙ ap
              (λ events. Log.extend capacity events (attempt_events stage.name t.count (suc first)))
              e;
      circuits_kept = t.circuits_kept ∙ c;
    }

    -- The last attempt.
    Tried-one :
        (s : Shared) (outcome : Timed (Result String StageError))
        → s.events ≡ Log.push capacity before.events (stage_attempt stage.name first)
        → s.circuits ≡ before.circuits
        → Tried first before (outcome, s)
    unfolding Log.extend
    Tried-one s outcome e c = record {
      count = 1;
      bounded = omega arith;
      logged = e;
      circuits_kept = c;
    }

    module _ (next : Shared → Attempted capacity stage input limit)
        (next_tried : first < stage.retry.max_attempts
          → (s : Shared) → Tried (suc first) s (next s))
        (s : Shared)
        (e : s.events ≡ Log.push capacity before.events (stage_attempt stage.name first))
        (c : s.circuits ≡ before.circuits) where
      after_back_off-Tried :
          (wake : Bool × ℕ)
          → first < stage.retry.max_attempts
          → Tried first before (after_back_off capacity stage input limit wake s next)
      unfolding after_back_off
      after_back_off-Tried (was_cancelled, clock) more =
          if-cases (Tried first before) (is_late limit clock)
            (λ _. Tried-one (at_time (deadline_time limit clock) s) timed_out e c)
            (λ _.
              if-cases (Tried first before) was_cancelled
                (λ _. Tried-one (at_time clock s) (on_time (err StageError.cancelled)) e c)
                (λ _.
                  Tried-suc (at_time clock s) (next (at_time clock s)) e c
                    (next_tried more (at_time clock s))))

      after_reply-Tried :
          (result : Result String StageError)
          → Tried first before (after_reply capacity stage input limit first result s next)
      unfolding after_reply
      after_reply-Tried (err (StageError.retryable message)) =
          if-cases (Tried first before) (ltb first stage.retry.max_attempts)
            (λ more.
              after_back_off-Tried (back_off s.cancelled_at s.clock stage.retry.backoff)
                (ltb→lt first stage.retry.max_attempts more))
            (λ _. Tried-one s (on_time (err (StageError.retryable message))) e c)
      after_reply-Tried (ok output) = Tried-one s (on_time (ok output)) e c
      after_reply-Tried (err (StageError.fatal message)) =
          Tried-one s (on_time (err (StageError.fatal message))) e c
      after_reply-Tried (err StageError.cancelled) =
          Tried-one s (on_time (err StageError.cancelled)) e c
      after_reply-Tried (err (StageError.deadline name)) =
          Tried-one s (on_time (err (StageError.deadline name))) e c
      after_reply-Tried (err (StageError.circuit_open name)) =
          Tried-one s (on_time (err (StageError.circuit_open name))) e c
      after_reply-Tried (err StageError.join) = Tried-one s (on_time (err StageError.join)) e c

  step-Tried :
      (left first : ℕ) (shared : Shared)
      → first ≤ stage.retry.max_attempts
      → (first < stage.retry.max_attempts
          → (s : Shared)
          → Tried (suc first) s (attempts capacity stage input limit left (suc first) s))
      → Tried first shared (attempts capacity stage input limit (suc left) first shared)
  unfolding attempts Log.extend
  step-Tried left first shared h next =
      let reply = stage.operation shared.clock shared.cancelled_at input in
      let logged = log_event capacity (stage_attempt stage.name first) shared in
      let end = shared.clock + reply.duration in
      if-cases (Tried first shared) (is_cancelled shared.cancelled_at shared.clock)
        (λ _. record { count = 0; bounded = omega arith; logged = refl; circuits_kept = refl })
        (λ _.
          if-cases (Tried first shared) (is_late limit end)
            (λ _.
              Tried-one first shared h (at_time (deadline_time limit end) logged) timed_out refl
                refl)
            (λ _.
              after_reply-Tried first shared h
                (attempts capacity stage input limit left (suc first)) next (at_time end logged)
                refl refl reply.result))

  attempts-Tried :
      (left first : ℕ) (shared : Shared)
      → first + left ≡ stage.retry.max_attempts
      → Tried first shared (attempts capacity stage input limit (suc left) first shared)
  attempts-Tried zero first shared h =
      step-Tried zero first shared (omega arith) (λ more s. absurd (omega arith))
  attempts-Tried (suc left) first shared h =
      step-Tried (suc left) first shared (omega arith)
        (λ more s. attempts-Tried left (suc first) s (omega arith))

  -- The log and the circuits after the attempts of a stage.
  pub run_stage_attempts-Tried :
      (shared : Shared)
      → 0 < stage.retry.max_attempts
      → Tried 1 shared (run_stage_attempts capacity stage input limit shared)
  unfolding run_stage_attempts
  run_stage_attempts-Tried shared h =
      let e : stage.retry.max_attempts ≡ suc (stage.retry.max_attempts - 1) = omega arith in
      subst (λ n. Tried 1 shared (attempts capacity stage input limit n 1 shared)) (sym e)
        (attempts-Tried (stage.retry.max_attempts - 1) 1 shared (omega arith))
