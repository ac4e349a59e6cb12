-- ===== src/Pipeline/Retries/Course.antt =====
-- The course that the attempts of a stage take in crates/syllog-runtime/src/pipeline.rs, told by the
-- times at which calls start and end, a cancellation is requested and the deadline passes.
use syllog.Prelude.{
  ℕ, zero, suc, ◌+◌, ◌-◌, ◌<◌, ◌≤◌, String, Bool, true, false, Option, none, some, Result, ok, err,
  ◌≡◌, refl, sym, subst, arith, if◌then◌else◌, ltb, leb, ltb→lt, leb→le, if-cases,
}
use syllog.Pipeline.Types.{Stage, StageError, stage_attempt, Shared}
use syllog.Pipeline.Stage.{
  on_time, timed_out, is_cancelled, at_time, log_event, is_late, deadline_time, back_off, Attempted,
  after_back_off, after_reply, attempts, run_stage_attempts,
}
use syllog.Pipeline.Retries.{Tried, run_stage_attempts-Tried}

-- A cancellation is requested at a time or before, or it is not.
abbrev pub CancelledBy : Option ℕ → ℕ → Type 0
CancelledBy none time = ⊥
CancelledBy (some at) time = at ≤ time

abbrev pub NotCancelledBy : Option ℕ → ℕ → Type 0
NotCancelledBy none time = Unit
NotCancelledBy (some at) time = time < at

-- A time is not after the deadline, where there is one.
abbrev pub Within : Option ℕ → ℕ → Type 0
Within none time = Unit
Within (some limit) time = time ≤ limit

-- The wait between two attempts, from a time on: whether it was cut short, and the time of its end.
pub data Waits (cancelled_at : Option ℕ) (backoff start : ℕ) : Bool → ℕ → Type 0 where
  slept :
      NotCancelledBy cancelled_at (start + backoff)
      → Waits cancelled_at backoff start false (start + backoff)
  already : CancelledBy cancelled_at start → Waits cancelled_at backoff start true start
  interrupted :
      (at : ℕ)
      → cancelled_at ≡ some at
      → start < at
      → at ≤ start + backoff
      → Waits cancelled_at backoff start true at

is_cancelled-CancelledBy : (c : Option ℕ) (t : ℕ) → is_cancelled c t ≡ true → CancelledBy c t
unfolding is_cancelled
is_cancelled-CancelledBy none t h = absurd (cc)
is_cancelled-CancelledBy (some at) t h = leb→le at t h

is_cancelled-NotCancelledBy : (c : Option ℕ) (t : ℕ) → is_cancelled c t ≡ false → NotCancelledBy c t
unfolding is_cancelled
is_cancelled-NotCancelledBy none t h = tt
is_cancelled-NotCancelledBy (some at) t h = ground arith

is_late-Within : (limit : Option ℕ) (t : ℕ) → is_late limit t ≡ false → Within limit t
unfolding is_late
is_late-Within none t h = tt
is_late-Within (some l) t h = ground arith

is_late-passed :
    (limit : Option ℕ) (t : ℕ)
    → is_late limit t ≡ true
    → (l : ℕ) × (limit ≡ some l) × (l < t) × (deadline_time limit t ≡ l)
unfolding is_late deadline_time
is_late-passed none t h = absurd (cc)
is_late-passed (some l) t h = (l, refl, ltb→lt l t h, refl)

back_off-Waits :
    (c : Option ℕ) (start backoff : ℕ)
    → Waits c backoff start (back_off c start backoff).0 (back_off c start backoff).1
unfolding back_off is_cancelled
back_off-Waits none start backoff = slept tt
back_off-Waits (some at) start backoff =
    if-cases (λ (w : Bool × ℕ). Waits (some at) backoff start w.0 w.1) (leb at start)
      (λ early. already (leb→le at start early))
      (λ ahead.
        if-cases (λ (w : Bool × ℕ). Waits (some at) backoff start w.0 w.1)
          (leb at (start + backoff))
          (λ within. interrupted at refl (ground arith) (leb→le at (start + backoff) within))
          (λ beyond. slept (ground arith)))

module _ (capacity : ℕ) (stage : Stage) (input : String) (limit : Option ℕ) where
  abbrev pub called : ℕ → Shared → Shared
  called attempt s = log_event capacity (stage_attempt stage.name attempt) s

  abbrev pub end_of_call : Shared → ℕ
  end_of_call s = s.clock + (stage.operation s.clock s.cancelled_at input).duration

  abbrev pub answer_of_call : Shared → Result String StageError
  answer_of_call s = (stage.operation s.clock s.cancelled_at input).result

  -- The answer is handed on by the attempt with a number.
  abbrev pub IsFinal : ℕ → Result String StageError → Type 0
  IsFinal attempt (err (StageError.retryable message)) = stage.retry.max_attempts ≤ attempt
  IsFinal attempt _ = Unit

  -- The attempt with a number starts, and its call ends in time.
  abbrev pub Answers : Shared → Type 0
  Answers s = NotCancelledBy s.cancelled_at s.clock × Within limit (end_of_call s)

  -- The answer of an attempt that another may follow.
  abbrev pub AsksAgain : ℕ → Shared → Type 0
  AsksAgain attempt s =
      (attempt < stage.retry.max_attempts)
      × ((message : String) × (answer_of_call s ≡ err (StageError.retryable message)))

  -- How the attempts from a number on go, and what they leave.
  pub data Course : ℕ → Shared → Attempted capacity stage input limit → Type 0 where
    cancelled_before :
        (attempt : ℕ) (s : Shared)
        → CancelledBy s.cancelled_at s.clock
        → Course attempt s (on_time (err StageError.cancelled), s)
    call_too_long :
        (attempt : ℕ) (s : Shared) (l : ℕ)
        → NotCancelledBy s.cancelled_at s.clock
        → limit ≡ some l
        → l < end_of_call s
        → Course attempt s (timed_out, at_time l (called attempt s))
    answered :
        (attempt : ℕ) (s : Shared)
        → Answers s
        → IsFinal attempt (answer_of_call s)
        → Course attempt s (on_time (answer_of_call s), at_time (end_of_call s) (called attempt s))
    cancelled_waiting :
        (attempt : ℕ) (s : Shared) (wake : ℕ)
        → Answers s
        → AsksAgain attempt s
        → Waits s.cancelled_at stage.retry.backoff (end_of_call s) true wake
        → Within limit wake
        → Course attempt s (on_time (err StageError.cancelled), at_time wake (called attempt s))
    wait_too_long :
        (attempt : ℕ) (s : Shared) (cut_short : Bool) (wake l : ℕ)
        → Answers s
        → AsksAgain attempt s
        → Waits s.cancelled_at stage.retry.backoff (end_of_call s) cut_short wake
        → limit ≡ some l
        → l < wake
        → Course attempt s (timed_out, at_time l (called attempt s))
    called_again :
        (attempt : ℕ) (s : Shared) (wake : ℕ) (after : Attempted capacity stage input limit)
        → Answers s
        → AsksAgain attempt s
        → Waits s.cancelled_at stage.retry.backoff (end_of_call s) false wake
        → Within limit wake
        → Course (suc attempt) (at_time wake (called attempt s)) after
        → Course attempt s after

  module _ (attempt : ℕ) (s : Shared) (answers : Answers s)
      (next : Shared → Attempted capacity stage input limit)
      (next_course : attempt < stage.retry.max_attempts
        → (t : Shared) → Course (suc attempt) t (next t)) where
    abbrev answered_state : Shared
    answered_state = at_time (end_of_call s) (called attempt s)

    after_wait-Course :
        (cut_short : Bool) (wake : ℕ)
        → AsksAgain attempt s
        → Waits s.cancelled_at stage.retry.backoff (end_of_call s) cut_short wake
        → Within limit wake
        → Course attempt s (
            if cut_short
            then (on_time (err StageError.cancelled), at_time wake answered_state)
            else next (at_time wake answered_state))
    after_wait-Course true wake again waits within =
        cancelled_waiting attempt s wake answers again waits within
    after_wait-Course false wake again waits within =
        called_again attempt s wake (next (at_time wake answered_state)) answers again waits within
          (next_course again.0 (at_time wake answered_state))

    after_back_off-Course :
        (wake : Bool × ℕ)
        → AsksAgain attempt s
        → Waits s.cancelled_at stage.retry.backoff (end_of_call s) wake.0 wake.1
        → Course attempt s (after_back_off capacity stage input limit wake answered_state next)
    unfolding after_back_off
    after_back_off-Course (cut_short, wake) again waits =
        if-cases (Course attempt s) (is_late limit wake)
          (λ late.
            let (l, e, lt, same) = is_late-passed limit wake late in
            subst (λ t. Course attempt s (timed_out, at_time t (called attempt s))) (sym same)
              (wait_too_long attempt s cut_short wake l answers again waits e lt))
          (λ early. after_wait-Course cut_short wake again waits (is_late-Within limit wake early))

    final :
        (result : Result String StageError)
        → answer_of_call s ≡ result
        → IsFinal attempt result
        → Course attempt s (on_time result, answered_state)
    final result e last =
        subst (λ r. Course attempt s (on_time r, answered_state)) e
          (answered attempt s answers (subst (IsFinal attempt) (sym e) last))

    after_reply-Course :
        (result : Result String StageError)
        → answer_of_call s ≡ result
        → Course attempt s
            (after_reply capacity stage input limit attempt result answered_state next)
    unfolding after_reply
    after_reply-Course (err (StageError.retryable message)) e =
        if-cases (Course attempt s) (ltb attempt stage.retry.max_attempts)
          (λ more.
            after_back_off-Course (back_off s.cancelled_at (end_of_call s) stage.retry.backoff)
              (ltb→lt attempt stage.retry.max_attempts more, (message, e))
              (back_off-Waits s.cancelled_at (end_of_call s) stage.retry.backoff))
          (λ last. final (err (StageError.retryable message)) e (ground arith))
    after_reply-Course (ok output) e = final (ok output) e tt
    after_reply-Course (err (StageError.fatal message)) e =
        final (err (StageError.fatal message)) e tt
    after_reply-Course (err StageError.cancelled) e = final (err StageError.cancelled) e tt
    after_reply-Course (err (StageError.deadline name)) e =
        final (err (StageError.deadline name)) e tt
    after_reply-Course (err (StageError.circuit_open name)) e =
        final (err (StageError.circuit_open name)) e tt
    after_reply-Course (err StageError.join) e = final (err StageError.join) e tt

  step-Course :
      (left attempt : ℕ) (s : Shared)
      → (attempt < stage.retry.max_attempts
          → (t : Shared)
          → Course (suc attempt) t (attempts capacity stage input limit left (suc attempt) t))
      → Course attempt s (attempts capacity stage input limit (suc left) attempt s)
  unfolding attempts
  step-Course left attempt s next =
      if-cases (Course attempt s) (is_cancelled s.cancelled_at s.clock)
        (λ stop. cancelled_before attempt s (is_cancelled-CancelledBy s.cancelled_at s.clock stop))
        (λ going.
          let clear = is_cancelled-NotCancelledBy s.cancelled_at s.clock going in
          if-cases (Course attempt s) (is_late limit (end_of_call s))
            (λ late.
              let (l, e, lt, same) = is_late-passed limit (end_of_call s) late in
              subst (λ t. Course attempt s (timed_out, at_time t (called attempt s))) (sym same)
                (call_too_long attempt s l clear e lt))
            (λ early.
              after_reply-Course attempt s (clear, is_late-Within limit (end_of_call s) early)
                (attempts capacity stage input limit left (suc attempt)) next (answer_of_call s)
                refl))

  attempts-Course :
      (left attempt : ℕ) (s : Shared)
      → attempt + left ≡ stage.retry.max_attempts
      → Course attempt s (attempts capacity stage input limit (suc left) attempt s)
  attempts-Course zero attempt s h = step-Course zero attempt s (λ more t. absurd (omega arith))
  attempts-Course (suc left) attempt s h =
      step-Course (suc left) attempt s
        (λ more t. attempts-Course left (suc attempt) t (omega arith))

  -- Where a stage may make an attempt at all, its attempts take the described course, which fixes the
  -- outcome, the clock and the log. The first starts at once. An attempt fails as cancelled without a
  -- call where the cancellation was requested by then; otherwise it is logged with its number and
  -- calls the operation. A call that ends after the deadline times out at the deadline. An answer is
  -- returned when it comes, unless it is retryable and attempts are left: then the next attempt
  -- starts exactly the back-off later, unless a cancellation is requested by then, which fails the
  -- stage when it comes, or the wait ends after the deadline, which times out at the deadline. There
  -- are at most `max_attempts` calls, numbered from 1, nothing else is logged, and the circuits stay.
  pub run_stage_attempts-Course :
      (shared : Shared)
      → 0 < stage.retry.max_attempts
      → Course 1 shared (run_stage_attempts capacity stage input limit shared)
        × Tried capacity stage input limit 1 shared
            (run_stage_attempts capacity stage input limit shared)
  unfolding run_stage_attempts
  run_stage_attempts-Course shared h =
      let e : stage.retry.max_attempts ≡ suc (stage.retry.max_attempts - 1) = omega arith in
      (
        subst (λ n. Course 1 shared (attempts capacity stage input limit n 1 shared)) (sym e)
            (attempts-Course (stage.retry.max_attempts - 1) 1 shared (omega arith)),
        run_stage_attempts-Tried capacity stage input limit shared h,
      )
