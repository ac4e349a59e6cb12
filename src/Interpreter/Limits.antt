-- ===== src/Interpreter/Limits.antt =====
-- The instruction counter of crates/syllog-interpreter/src/lib.rs: the outcomes of an action that
-- counts, and the rule for a sequence of actions.
pub mod Actions
pub mod Runs
use syllog.Prelude.{ℕ, ◌≤◌, arith}
use syllog.Interpreter.Machine.{
  InterpreterLimits, Outcome, done, fail, panic, out_of_fuel, State, M,
}

-- The outcome of an action that has spent at least `low` instructions and at most `high`.
abbrev pub Settles : {A : Type 0} → ℕ → ℕ → Outcome (A × State) → Type 0
Settles low high (done (a, s)) = (low ≤ s.machine.instructions) × (s.machine.instructions ≤ high)
Settles low high (fail e) = Unit
Settles low high panic = Unit
Settles low high out_of_fuel = ⊥

-- An outcome with an end of its own.
abbrev pub Ends : {A : Type 0} → Outcome A → Type 0
Ends (done a) = Unit {0}
Ends (fail e) = Unit
Ends panic = Unit
Ends out_of_fuel = ⊥

abbrev pub Keeps : {A : Type 0} → ℕ → M A → Type 0
Keeps high m =
    (s : State) → s.machine.instructions ≤ high → Settles s.machine.instructions high (m s)

pub Settles-weaken :
    {A : Type 0} (low lower high : ℕ) (r : Outcome (A × State))
    → lower ≤ low
    → Settles low high r
    → Settles lower high r
Settles-weaken low lower high (done (a, s)) le h = (omega (arith, le, h.0), h.1)
Settles-weaken low lower high (fail e) le h = tt
Settles-weaken low lower high panic le h = tt
Settles-weaken low lower high out_of_fuel le h = h

pub Settles-bind :
    {A B : Type 0} (low high : ℕ) (r : Outcome (A × State)) (next : A → State → Outcome (B × State))
    → Settles low high r
    → ((a : A) (s : State)
        → low ≤ s.machine.instructions
        → s.machine.instructions ≤ high
        → Settles low high (next a s))
    → Settles low high (elim r [
      | done (a, s) ↦ next a s
      | fail e ↦ fail e
      | panic ↦ panic
      | out_of_fuel ↦ out_of_fuel
    ])
Settles-bind low high (done (a, s)) next h k = k a s h.0 h.1
Settles-bind low high (fail e) next h k = tt
Settles-bind low high panic next h k = tt
Settles-bind low high out_of_fuel next h k = h
