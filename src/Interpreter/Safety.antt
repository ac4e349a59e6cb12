-- ===== src/Interpreter/Safety.antt =====
-- Runs of verified functions in crates/syllog-interpreter: the failures in question, and the rule
-- for a sequence of actions.
pub mod Frame
pub mod Steps
pub mod Arguments
pub mod Runs
pub mod Programs
use syllog.Interpreter.Machine.{
  TrapMessage, invalid_argument_count, absent_block_target, return_destination_empty, local_empty,
  moved_local_empty, local_out_of_range, drop_target_empty, RuntimeError, missing_entry, trap,
  Outcome, done, fail, panic, out_of_fuel, State,
}

-- The traps that the source calls impossible in verified MIR.
abbrev pub TrapAllowed : TrapMessage → Type 0
TrapAllowed local_empty = ⊥
TrapAllowed moved_local_empty = ⊥
TrapAllowed local_out_of_range = ⊥
TrapAllowed drop_target_empty = ⊥
TrapAllowed return_destination_empty = ⊥
TrapAllowed absent_block_target = ⊥
TrapAllowed invalid_argument_count = ⊥
TrapAllowed _ = Unit

abbrev pub ErrorAllowed : RuntimeError → Type 0
ErrorAllowed (trap message) = TrapAllowed message
ErrorAllowed (missing_entry id) = ⊥
ErrorAllowed _ = Unit

-- No panic and none of these errors; where there is a result, it satisfies the condition.
abbrev pub Ensures : {A : Type 0} → (A → Type 0) → Outcome A → Type 0
Ensures Q (done a) = Q a
Ensures Q (fail e) = ErrorAllowed e
Ensures Q panic = ⊥
Ensures Q out_of_fuel = Unit

-- The next action may use what the first one ensures.
pub Ensures-bind :
    {A B : Type 0} (Q : A × State → Type 0) (R : B × State → Type 0) (r : Outcome (A × State))
    (next : A → State → Outcome (B × State))
    → Ensures Q r
    → ((a : A) (s : State) → Q (a, s) → Ensures R (next a s))
    → Ensures R (elim r [
      | done (a, s) ↦ next a s
      | fail e ↦ fail e
      | panic ↦ panic
      | out_of_fuel ↦ out_of_fuel
    ])
Ensures-bind Q R (done (a, s)) next h k = k a s h
Ensures-bind Q R (fail e) next h k = h
Ensures-bind Q R panic next h k = absurd h
Ensures-bind Q R out_of_fuel next h k = tt
