-- ===== src/Pipeline/Circuit.antt =====
-- crates/syllog-runtime/src/pipeline.rs: the circuit of a stage, shared by the stages of one name.
use syllog.Prelude.{
  ℕ, ◌+◌, ◌-◌, min, String, Bool, false, Option, none, some, ltb, leb, if◌then◌else◌, u32_max,
}
use syllog.Prelude.TreeMap.{TreeMap, lookup, insert, String-Key}
use syllog.Pipeline.Types.{CircuitPolicy, CircuitState, Stage, StageError}

abbrev pub Circuits : Type 0
Circuits = TreeMap String CircuitState

abbrev pub closed_circuit : CircuitState
closed_circuit = record { failures = 0; opened_at = none }

-- `entry(name).or_insert(..)`
unfoldable pub circuit_of : String → Circuits → CircuitState
circuit_of name circuits = elim (lookup name circuits) [
  | none ↦ closed_circuit
  | some state ↦ state
]

-- `opened_at.elapsed() < policy.reset_after`
unfoldable pub denies : CircuitPolicy → ℕ → CircuitState → Bool
denies policy clock state = elim state.opened_at [
  | none ↦ false
  | some opened ↦ ltb (clock - opened) policy.reset_after
]

-- A circuit that was open long enough closes.
unfoldable pub admit : CircuitState → CircuitState
admit state = elim state.opened_at [ none ↦ state | some opened ↦ closed_circuit ]

unfoldable pub check_circuit : Stage → ℕ → Circuits → Option StageError × Circuits
check_circuit stage clock circuits = elim stage.circuit [
  | none ↦ (none, circuits)
  | some policy ↦
      let state = circuit_of stage.name circuits in
      if denies policy clock state
      then (some (StageError.circuit_open stage.name), insert stage.name state circuits)
      else (none, insert stage.name (admit state) circuits)
]

unfoldable pub record_circuit_success : Stage → Circuits → Circuits
record_circuit_success stage circuits = elim stage.circuit [
  | none ↦ circuits
  | some policy ↦ elim (lookup stage.name circuits) [
    | none ↦ circuits
    | some state ↦ insert stage.name closed_circuit circuits
  ]
]

-- One more failure, with `saturating_add`.
unfoldable pub count_failure : CircuitPolicy → ℕ → CircuitState → CircuitState
count_failure policy clock state =
    let failures = min (state.failures + 1) u32_max in
    record {
      failures = failures;
      opened_at = if leb policy.failure_threshold failures then some clock else state.opened_at;
    }

unfoldable pub record_circuit_failure : Stage → ℕ → Circuits → Circuits
record_circuit_failure stage clock circuits = elim stage.circuit [
  | none ↦ circuits
  | some policy ↦
      insert stage.name (count_failure policy clock (circuit_of stage.name circuits)) circuits
]
