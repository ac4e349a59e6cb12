-- ===== src/Async/Task/Trace.antt =====
-- The lifecycle events of a task that crates/syllog-compiler/src/async_lower.rs builds and
-- crates/syllog-runtime/src/task.rs runs.
use syllog.Prelude.{
  ℕ, zero, suc, ◌+◌, ◌*◌, ◌^◌, ◌<◌, ◌≤◌, ◌≡◌, refl, arith, ap, ◌∙◌, Bool, true, false, ◌||◌, List,
  [], ◌∷◌, ◌++◌, Option, none, some, if◌then◌else◌, get_elem?, Bool-cases, inl, inr,
}
use syllog.Ir.Syntax.{DefId}
use syllog.Async.Machine.{AsyncStateId}
use syllog.Async.Lower.{build_machine}
use syllog.Async.Lower.Table.{
  suspend_state, resume_state, plain_states, build_states_lem, state_at_suspend, state_at_resume,
  state_at_complete, state_at_cancel,
}
use syllog.Async.Lower.Valid.{verify_async_machine-build_machine}
use syllog.Async.Task.{
  TaskControl, TaskEvent, started, suspended, woken, resumed, cancelled, completed, dropped,
  TaskFailure, Step, pending, Runner, cancels, panics, continue, return, turn_suspend, turn_resume,
  turn_cancel, turn_on, turn, Outcome, done, failed, out_of_fuel, advance, wake, run_steps,
  run_deterministic_task, push,
}

-- The events of the awaits from an index on, as many as the count, and of the end of the task: a
-- description that knows no states.
unfoldable pub trace : TaskControl → List DefId → ℕ → ℕ → List TaskEvent
trace control locals i zero = completed ∷ []
trace control locals i (suc count) =
    let rest = trace control locals (i + 1) count in
    suspended i
    ∷ (if cancels control i
        then cancelled ∷ dropped locals ∷ []
        else woken i
          ∷ resumed i
          ∷ (if panics control i then TaskEvent.panicked ∷ dropped locals ∷ [] else rest))

-- One of these awaits panics.
unfoldable pub panics_within : TaskControl → ℕ → ℕ → Bool
panics_within control i zero = false
panics_within control i (suc count) = panics control i || panics_within control (i + 1) count

abbrev pub ending : Bool → List TaskEvent → Outcome (List TaskEvent)
ending true events = failed (TaskFailure.panicked events)
ending false events = done events

append_assoc : (xs ys zs : List TaskEvent) → (xs ++ ys) ++ zs ≡ xs ++ (ys ++ zs)
append_assoc [] ys zs = refl
append_assoc (x ∷ xs) ys zs = ap (λ ws. x ∷ ws) (append_assoc xs ys zs)

not_both :
    (control : TaskControl) (i : ℕ)
    → cancels control i ≡ true
    → (k count : ℕ) → panics_within control k count ≡ false
unfolding cancels panics panics_within
not_both TaskControl.complete i h k count = absurd (cc)
not_both (TaskControl.panic_at j) i h k count = absurd (cc)
not_both (TaskControl.cancel_at j) i h k zero = refl
not_both (TaskControl.cancel_at j) i h k (suc count) =
    not_both (TaskControl.cancel_at j) i h (k + 1) count

module _ (turns : ℕ) where
  -- The rest of the loop over the steps, behind an `advance`.
  abbrev on_step : ℕ → Outcome (Step × Runner) → Outcome (List TaskEvent)
  on_step fuel (done (pending await_index wake_at, r)) =
      run_steps turns fuel (wake await_index wake_at r)
  on_step fuel (done (Step.complete, r)) = done r.events
  on_step fuel (failed e) = failed e
  on_step fuel out_of_fuel = out_of_fuel

  run_steps-suc :
      (fuel : ℕ) (r : Runner) → run_steps turns (suc fuel) r ≡ on_step fuel (advance turns r)
  unfolding run_steps
  run_steps-suc fuel r = go (advance turns r)
    where
      go :
          (o : Outcome (Step × Runner))
          → (elim o [
            | done (pending await_index wake_at, r') ↦
                run_steps turns fuel (wake await_index wake_at r')
            | done (Step.complete, r') ↦ done r'.events
            | failed e ↦ failed e
            | out_of_fuel ↦ out_of_fuel
          ])
            ≡ on_step fuel o
      go (done (pending await_index wake_at, r')) = refl
      go (done (Step.complete, r')) = refl
      go (failed e) = refl
      go out_of_fuel = refl

module _ (function : DefId) (awaits : ℕ) (locals : List DefId) (control : TaskControl)
    (small : awaits * 2 + 2 < 2 ^ 32) where
  abbrev runner : AsyncStateId → Option ℕ → List TaskEvent → Bool → Runner
  runner state last events stopped = record {
    machine = build_machine function awaits locals;
    state = state;
    control = control;
    last_await = last;
    events = events;
    panicked = stopped;
  }

  states_lem : (build_machine function awaits locals).states ≡ plain_states awaits locals
  unfolding build_machine
  states_lem = build_states_lem awaits small locals

  turn-suspend :
      (i : ℕ) (last : Option ℕ) (events : List TaskEvent)
      → i < awaits
      → let r = runner (i * 2 + 1) last events false in
        turn r ≡ turn_suspend i (i * 2 + 2) (awaits * 2 + 2) r
  unfolding turn turn_on suspend_state
  turn-suspend i last events lt =
      rw
        (
          ap (λ states. get_elem? states (i * 2 + 1)) states_lem
              ∙ state_at_suspend awaits locals i lt,
          turn,
        )
        refl

  turn-resume :
      (i : ℕ) (last : Option ℕ) (events : List TaskEvent)
      → i < awaits
      → let r = runner (i * 2 + 2) last events false in
        turn r ≡ turn_resume (i * 2 + 3) (awaits * 2 + 2) r
  unfolding turn turn_on resume_state
  turn-resume i last events lt =
      rw
        (
          ap (λ states. get_elem? states (i * 2 + 2)) states_lem
              ∙ state_at_resume awaits locals i lt,
          turn,
        )
        refl

  turn-complete :
      (last : Option ℕ) (events : List TaskEvent)
      → let r = runner (awaits * 2 + 1) last events false in
        turn r ≡ return Step.complete (push r completed)
  unfolding turn turn_on
  turn-complete last events =
      rw
        (
          ap (λ states. get_elem? states (awaits * 2 + 1)) states_lem
              ∙ state_at_complete awaits locals,
          turn,
        )
        refl

  turn-cancel :
      (last : Option ℕ) (events : List TaskEvent) (stopped : Bool)
      → let r = runner (awaits * 2 + 2) last events stopped in turn r ≡ turn_cancel locals r
  unfolding turn turn_on
  turn-cancel last events stopped =
      rw
        (
          ap (λ states. get_elem? states (awaits * 2 + 2)) states_lem
              ∙ state_at_cancel awaits locals,
          turn,
        )
        refl

  -- The end of a task that was cancelled or panicked.
  stopped_lem :
      (turns fuel t : ℕ) (last : Option ℕ) (events : List TaskEvent) (stopped : Bool)
      → on_step turns fuel (advance (suc t) (runner (awaits * 2 + 2) last events stopped))
        ≡ ending stopped (events ++ dropped locals ∷ [])
  unfolding advance turn_cancel
  stopped_lem turns fuel t last events true = rw (turn-cancel last events true, advance) refl
  stopped_lem turns fuel t last events false = rw (turn-cancel last events false, advance) refl

  -- From the state in front of the next await, or of the completion.
  module _ (k : ℕ) where
    abbrev turns : ℕ
    turns = suc (suc (suc k))

    Told : ℕ → Type 0
    Told count =
        (i : ℕ) (last : Option ℕ) (events : List TaskEvent) (t fuel : ℕ)
        → i + count ≡ awaits
        → count ≤ fuel
        → on_step turns fuel (advance (suc (suc t)) (runner (i * 2 + 1) last events false))
          ≡ ending (panics_within control i count) (events ++ trace control locals i count)

    -- Behind the wake of an await.
    woken_lem :
        (count i : ℕ) (events : List TaskEvent) (fuel : ℕ)
        → Told count
        → i + suc count ≡ awaits
        → count ≤ fuel
        → on_step turns fuel (advance turns (runner (i * 2 + 2) (some i) events false))
          ≡ ending (panics control i || panics_within control (i + 1) count) (
              events
              ++ resumed i
                ∷ (if panics control i
                    then TaskEvent.panicked ∷ dropped locals ∷ []
                    else trace control locals (i + 1) count))
    unfolding advance turn_resume Told
    woken_lem count i events fuel told all enough = elim (Bool-cases (panics control i)) [
      | inl broken ↦
          rw (turn-resume i (some i) events (omega (arith, all)), broken, advance)
            (stopped_lem turns fuel (suc k) (some i)
                ((events ++ resumed i ∷ []) ++ TaskEvent.panicked ∷ []) true
              ∙ simp append_assoc)
      | inr sound ↦
          let e : i * 2 + 3 ≡ (i + 1) * 2 + 1 = omega arith in
          rw (turn-resume i (some i) events (omega (arith, all)), sound, e, advance)
            (told (i + 1) (some i) (events ++ resumed i ∷ []) k fuel (omega (arith, all)) enough
              ∙ simp append_assoc)
    ]

    told : (count : ℕ) → Told count
    unfolding Told trace panics_within advance turn_suspend wake
    told zero i last events t fuel all enough =
        let at_end : i ≡ awaits = omega (arith, all) in
        rw (at_end, turn-complete last events, advance) refl
    told (suc count) i last events t zero all enough = absurd (omega (arith, enough))
    told (suc count) i last events t (suc fuel) all enough = elim (Bool-cases (cancels control i)) [
      | inl stop ↦
          rw
            (
              turn-suspend i last events (omega (arith, all)),
              stop,
              not_both control i stop i (suc count),
              advance,
            )
            (stopped_lem turns (suc fuel) t last ((events ++ suspended i ∷ []) ++ cancelled ∷ [])
                false
              ∙ simp append_assoc)
      | inr calm ↦
          rw (turn-suspend i last events (omega (arith, all)), calm, advance)
            (run_steps-suc turns fuel _
              ∙ woken_lem count i ((events ++ suspended i ∷ []) ++ woken i ∷ []) fuel (told count)
                  all (omega (arith, enough))
              ∙ simp append_assoc)
    ]

    turn-start :
        (events : List TaskEvent)
        → let r = runner 0 none events false in turn r ≡ continue (runner 1 none events false)
    unfolding turn turn_on plain_states
    turn-start events = rw (ap (λ states. get_elem? states 0) states_lem, turn) refl

    -- Where no state id of the built machine leaves `u32`, three turns for each step and more steps
    -- than awaits are enough: the task ends, and it logs its start and then exactly the events of
    -- the description. It fails with these events where one of its awaits panics, and returns them
    -- otherwise.
    pub run_deterministic_task-build_machine :
        (parent fuel : ℕ)
        → awaits ≤ fuel
        → run_deterministic_task turns
            (suc fuel)
            (build_machine function awaits locals)
            parent
            control
          ≡ ending (panics_within control 0 awaits) (started parent ∷ trace control locals 0 awaits)
    unfolding run_deterministic_task advance Told
    run_deterministic_task-build_machine parent fuel enough =
        rw (verify_async_machine-build_machine awaits locals small function, run_deterministic_task)
          (run_steps-suc turns fuel _
            ∙ rw (turn-start (started parent ∷ []), advance)
                (told awaits 0 none (started parent ∷ []) k fuel (omega arith) enough))
