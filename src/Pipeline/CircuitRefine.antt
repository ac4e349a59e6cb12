-- ===== src/Pipeline/CircuitRefine.antt =====
-- A circuit breaker as an automaton of two states, and the circuits of
-- crates/syllog-runtime/src/pipeline.rs as its implementation.
use syllog.Prelude.{
  ℕ, suc, ◌-◌, ◌<◌, ◌≤◌, Bool, true, false, List, [], ◌∷◌, Option, none, some, ◌≡◌, refl, arith, ap,
  ltb, leb, if◌then◌else◌, u32_max, inl, inr, Option-cases, if-cases, leb→le,
}
use syllog.Prelude.TreeMap.{lookup, insert, lookup-insert, String-Key}
use syllog.Pipeline.Types.{CircuitPolicy, CircuitState, Stage, StageError}
use syllog.Pipeline.Circuit.{
  Circuits, closed_circuit, circuit_of, denies, admit, check_circuit, record_circuit_success,
  count_failure, record_circuit_failure,
}

-- What happens to the circuit of a stage, with its time.
pub data CircuitOp : Type 0 where
  check : ℕ → CircuitOp
  success : CircuitOp
  failure : ℕ → CircuitOp

is_denial : Option StageError → Bool
is_denial none = false
is_denial (some e) = true

-- The answers to the checks, true for a denial.
unfoldable pub run_circuit : Stage → List CircuitOp → Circuits → List Bool
unfolding is_denial
run_circuit stage [] circuits = []
run_circuit stage (check clock ∷ ops) circuits =
    let checked = check_circuit stage clock circuits in
    is_denial checked.0 ∷ run_circuit stage ops checked.1
run_circuit stage (success ∷ ops) circuits =
    run_circuit stage ops (record_circuit_success stage circuits)
run_circuit stage (failure clock ∷ ops) circuits =
    run_circuit stage ops (record_circuit_failure stage clock circuits)

-- The automaton: closed after some failures in a row, or open since a time.
pub data Breaker : Type 0 where
  closed : ℕ → Breaker
  open_since : ℕ → Breaker

module _ (policy : CircuitPolicy) where
  unfoldable pub breaker_denies : ℕ → Breaker → Bool
  breaker_denies clock (closed n) = false
  breaker_denies clock (open_since t) = ltb (clock - t) policy.reset_after

  unfoldable pub after_check : ℕ → Breaker → Breaker
  after_check clock (closed n) = closed n
  after_check clock (open_since t) =
      if ltb (clock - t) policy.reset_after then open_since t else closed 0

  unfoldable pub after_failure : ℕ → Breaker → Breaker
  after_failure clock (closed n) =
      if leb policy.failure_threshold (suc n) then open_since clock else closed (suc n)
  after_failure clock (open_since t) = open_since clock

  unfoldable pub run_breaker : List CircuitOp → Breaker → List Bool
  run_breaker [] b = []
  run_breaker (check clock ∷ ops) b = breaker_denies clock b ∷ run_breaker ops (after_check clock b)
  run_breaker (success ∷ ops) b = run_breaker ops (closed 0)
  run_breaker (failure clock ∷ ops) b = run_breaker ops (after_failure clock b)

  -- The state of a circuit that stands for a state of the automaton.
  abbrev Represents : CircuitState → Breaker → Type 0
  Represents state (closed n) =
      (state.opened_at ≡ none) × (state.failures ≡ n) × (n < policy.failure_threshold)
  Represents state (open_since t) =
      (state.opened_at ≡ some t) × (policy.failure_threshold ≤ state.failures)

  module _ (positive : 0 < policy.failure_threshold)
      (bounded : policy.failure_threshold ≤ u32_max) where
    denies-Represents :
        (clock : ℕ) (state : CircuitState) (b : Breaker)
        → Represents state b
        → denies policy clock state ≡ breaker_denies clock b
    unfolding denies breaker_denies
    denies-Represents clock state (closed n) r = ground (arith, r.0)
    denies-Represents clock state (open_since t) r = ground (arith, r.0)

    failure-Represents :
        (clock : ℕ) (state : CircuitState) (b : Breaker)
        → Represents state b
        → Represents (count_failure policy clock state) (after_failure clock b)
    unfolding count_failure after_failure
    failure-Represents clock state (closed n) r =
        if-cases (Represents (count_failure policy clock state))
          (leb policy.failure_threshold (suc n))
          (λ e.
            (ground (arith, r.1), omega (arith, r.1, leb→le policy.failure_threshold (suc n) e)))
          (λ e. (ground (arith, r.0, r.1), ground (arith, r.1), ground arith))
    failure-Represents clock state (open_since t) r = (ground (arith, r.0, r.1), omega (arith, r.1))

    admit-Represents :
        (clock : ℕ) (state : CircuitState) (b : Breaker)
        → Represents state b
        → denies policy clock state ≡ false
        → Represents (admit state) (after_check clock b)
    unfolding denies admit after_check
    admit-Represents clock state (closed n) r h =
        (ground (arith, r.0), ground (arith, r.0, r.1), r.2)
    admit-Represents clock state (open_since t) r h =
        if-cases (Represents (admit state)) (ltb (clock - t) policy.reset_after)
          (λ e. absurd (ground (arith, r.0)))
          (λ e. (ground (arith, r.0), ground (arith, r.0), positive))

    denied-Represents :
        (clock : ℕ) (state : CircuitState) (b : Breaker)
        → Represents state b
        → denies policy clock state ≡ true
        → Represents state (after_check clock b)
    unfolding denies after_check
    denied-Represents clock state (closed n) r h = r
    denied-Represents clock state (open_since t) r h =
        if-cases (Represents state) (ltb (clock - t) policy.reset_after) (λ e. r)
          (λ e. absurd (ground (arith, r.0)))

    module _ (stage : Stage) (has_policy : stage.circuit ≡ some policy) where
      circuit_of-insert :
          (state : CircuitState) (circuits : Circuits)
          → circuit_of stage.name (insert stage.name state circuits) ≡ state
      unfolding circuit_of
      circuit_of-insert state circuits = ground (
        arith,
        lookup-insert stage.name stage.name state circuits,
        String-Key.eq_iff stage.name stage.name,
      )

      -- A check denies and keeps the state, or admits.
      check_circuit-inv :
          (clock : ℕ) (circuits : Circuits)
          → let state = circuit_of stage.name circuits in
            let checked = check_circuit stage clock circuits in
            (is_denial checked.0 ≡ denies policy clock state)
            × (circuit_of stage.name checked.1
                ≡ (if denies policy clock state then state else admit state))
      unfolding check_circuit is_denial
      check_circuit-inv clock circuits =
          let state = circuit_of stage.name circuits in
          (
            ground (arith, has_policy),
            ground (
              arith,
              has_policy,
              circuit_of-insert state circuits,
              circuit_of-insert (admit state) circuits,
            ),
          )

      success-closed :
          (circuits : Circuits)
          → circuit_of stage.name (record_circuit_success stage circuits) ≡ closed_circuit
      unfolding record_circuit_success circuit_of
      success-closed circuits = elim (Option-cases (lookup stage.name circuits)) [
        | inl e ↦ ground (arith, has_policy)
        | inr (state, e) ↦ ground (arith, has_policy, circuit_of-insert closed_circuit circuits)
      ]

      failure-counted :
          (clock : ℕ) (circuits : Circuits)
          → circuit_of stage.name (record_circuit_failure stage clock circuits)
            ≡ count_failure policy clock (circuit_of stage.name circuits)
      unfolding record_circuit_failure
      failure-counted clock circuits = ground (
        arith,
        has_policy,
        circuit_of-insert (count_failure policy clock (circuit_of stage.name circuits)) circuits,
      )

      refines :
          (ops : List CircuitOp) (circuits : Circuits) (b : Breaker)
          → Represents (circuit_of stage.name circuits) b
          → run_circuit stage ops circuits ≡ run_breaker ops b
      unfolding run_circuit run_breaker
      refines [] circuits b r = refl
      refines (check clock ∷ ops) circuits b r =
          let (answer, next) = check_circuit-inv clock circuits in
          let state = circuit_of stage.name circuits in
          let goal : Represents (circuit_of stage.name (check_circuit stage clock circuits).1)
              (after_check clock b) =
            rw next (
              if-cases (λ s. Represents s (after_check clock b)) (denies policy clock state)
                (denied-Represents clock state b r) (admit-Represents clock state b r)) in
          rw (answer, denies-Represents clock state b r)
            (ap (λ answers. breaker_denies clock b ∷ answers)
              (refines ops (check_circuit stage clock circuits).1 (after_check clock b) goal))
      refines (success ∷ ops) circuits b r =
          refines ops (record_circuit_success stage circuits) (closed 0)
            (rw (success-closed circuits) (refl, refl, positive))
      refines (failure clock ∷ ops) circuits b r =
          refines ops (record_circuit_failure stage clock circuits) (after_failure clock b) (
            rw (failure-counted clock circuits)
              (failure-Represents clock (circuit_of stage.name circuits) b r))

  -- In every sequence of checks, successes and failures of a stage whose circuit is new, the checks
  -- deny exactly as the automaton says: open from the failure that reaches the threshold in a row,
  -- closed by a success or by a check once the time to reset has passed. The threshold is not zero
  -- and fits a u32.
  pub run_circuit-run_breaker :
      (stage : Stage) (ops : List CircuitOp) (circuits : Circuits)
      → 0 < policy.failure_threshold
      → policy.failure_threshold ≤ u32_max
      → stage.circuit ≡ some policy
      → lookup stage.name circuits ≡ none
      → run_circuit stage ops circuits ≡ run_breaker ops (closed 0)
  unfolding circuit_of
  run_circuit-run_breaker stage ops circuits positive bounded has_policy new =
      refines positive bounded stage has_policy ops circuits (closed 0)
        (ground arith, ground arith, positive)
