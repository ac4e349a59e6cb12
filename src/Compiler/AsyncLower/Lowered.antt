-- ===== src/Compiler/AsyncLower/Lowered.antt =====
-- Proofs about `lower_async_state_machines` of crates/syllog-compiler/src/async_lower.rs.
use syllog.Prelude.{
  ℕ, length, ◌+◌, ◌*◌, ◌^◌, ◌<◌, ◌≡◌, ◌≢◌, ◌⊎◌, List, [], ◌∷◌, ◌++◌, Result, ok, err, All,
}
use syllog.Ir.Syntax.{DefId}
use syllog.Async.Machine.{AsyncStateMachine, verify_async_machine}
use syllog.Async.Lower.{build_machine}
use syllog.Compiler.Hir.{HirFunction}
use syllog.Compiler.AsyncLower.{
  AsyncLowerError, verification, borrow_across_await, statements_of, locals_of,
}
use syllog.Compiler.AsyncLower.Borrowed.{Borrowed}
use syllog.Compiler.AsyncLower.Counts.{awaits_statements}

-- The number of suspension points of a function.
abbrev pub suspensions : HirFunction → ℕ
suspensions function = awaits_statements (statements_of function.body)

-- The state ids of a function's machine fit a u32.
abbrev pub Fits : DefId × HirFunction → Type 0
Fits entry = suspensions entry.1 * 2 + 2 < 2 ^ 32

-- A function holds no borrowed local while it suspends: it never does, or has none.
abbrev pub IsSafe : HirFunction → Type 0
IsSafe function = (suspensions function ≡ 0) ⊎ Borrowed function []

-- A function suspends and has these borrowed locals, at least one.
abbrev pub Retains : HirFunction → List DefId → Type 0
Retains function locals = (0 < suspensions function) × (locals ≢ []) × Borrowed function locals

abbrev pub machine_of : DefId × HirFunction → AsyncStateMachine
machine_of entry = build_machine entry.0 (suspensions entry.1) (locals_of entry.1)

-- A machine is that of a function: besides a start, a completion and a cancellation it has two
-- states for each suspension point, and the verifier of machines accepts it.
abbrev pub IsMachineOf : DefId × HirFunction → AsyncStateMachine → Type 0
IsMachineOf entry machine =
    (machine.function ≡ entry.0)
    × (length machine.states ≡ suspensions entry.1 * 2 + 3)
    × (verify_async_machine machine ≡ ok tt)

-- The machines of some functions, in their order.
abbrev pub MachinesOf : List (DefId × HirFunction) → List AsyncStateMachine → Type 0
MachinesOf [] machines = machines ≡ []
MachinesOf (entry ∷ entries) [] = ⊥
MachinesOf (entry ∷ entries) (machine ∷ machines) =
    IsMachineOf entry machine × MachinesOf entries machines

-- What the lowering of some functions returns: their machines, where all of them are safe, and
-- otherwise the first that is not, with its borrowed locals.
abbrev pub Lowered :
    List (DefId × HirFunction) → Result (List AsyncStateMachine) AsyncLowerError → Type 0
Lowered entries (ok machines) = MachinesOf entries machines × All (λ entry. IsSafe entry.1) entries
Lowered entries (err (verification errors)) = ⊥
Lowered entries (err (borrow_across_await id locals)) =
    (before : List (DefId × HirFunction)) × (function : HirFunction) × (after : List
      (DefId × HirFunction))
    × (entries ≡ before ++ (id, function) ∷ after)
    × All (λ entry. IsSafe entry.1) before
    × Retains function locals
