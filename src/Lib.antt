-- ===== src/Lib.antt =====
-- Verification of Syllog: the mid-level representation (MIR), its verifier, the reference
-- interpreter, the async state machines, the effect analysis, the package resolver, the pipeline
-- executor, and the proxy's routes.
--
-- The compiler lowers a program to MIR. `verify` accepts or rejects it, the reference interpreter
-- calls `verify` and then runs the accepted program under limits. Async functions become state
-- machines, which have a check of their own, and a runner in the runtime steps through them. Beside
-- this stand the resolver, which turns a manifest into a locked set of packages, and the executor,
-- which runs the stages of a pipeline with retries, deadlines and circuit breakers.
--
-- Ir: the crate crates/syllog-ir.
--   Ir.Syntax: the types of crates/syllog-ir/src/lib.rs. `DefId` keeps its two fields; `BlockId` and
--     `LocalId` are numbers. Derived equalities are functions into `Bool`.
--   Ir.Capability: `Effect::from_source`, `Effect::as_str`, `CapabilityManifest`.
--   Ir.Verify: crates/syllog-ir/src/verify.rs. A function that pushes errors returns their list, in
--     the order of the source, and a function that changes a set of locals returns the set. A set is
--     its ascending list (Ir.Verify.LocalSet).
--     Control: `successors`, `place_local`, `reachable_blocks`. Dataflow: the loop of
--     `definite_initialization` and of `verify_affine_ownership`. Transfer: `transfer_block`, the
--     `consume_` functions, `ever_initialized` and the two analyses. Ownership: the `check_`
--     functions and `verify_affine_ownership`. Typing: `verify_function` and all that it calls.
--     Dataflow.Meaning describes paths by their moves, drops and assignments, without sets.
--     Program: `verify`. Safety: a description of blocks that find the values they read.
-- Interpreter: crates/syllog-interpreter/src/lib.rs.
--   Value, Machine, Arith, Eval and Run model `Value`, the limits, errors and counters,
--   `Machine::binary`, the functions on operands and places, and `Machine::call` with `execute`. A
--   Rust panic (`expect`, an index out of range) is an outcome of its own. Safety and Limits hold
--   the proofs about failures and about the instruction counter, Total joins them.
-- Async: Machine models the async types and `verify_async_machine` of crates/syllog-ir/src/lib.rs,
--   Lower `build_machine` of crates/syllog-compiler/src/async_lower.rs, Task the runner of
--   crates/syllog-runtime/src/task.rs.
-- Compiler: Types models resolved types of crates/syllog-semantic/src/types.rs with spans, literals
--   and operators of crates/syllog-parser/src/ast.rs, Hir the typed HIR of
--   crates/syllog-compiler/src/hir.rs, AsyncLower the rest of async_lower.rs there, Effects
--   effects.rs: inspection of bodies (Effects), the fixpoint (Effects.Infer), bounds and result
--   (Effects.Analyze). Effects.Parts and Effects.Needs describe the effects of a program by its
--   expressions, Effects.Declared the names of a declaration, AsyncLower.Borrowed the types that
--   count as borrowed: as in the source, those of parameters and of `let`s that are statements of a
--   body itself. A list of a type inside itself is a type of its own.
-- Package: crates/syllog-package/src/resolver.rs. Release models releases and their checks, Constraint
--   constraints, conflicts and the choice of a package, Search `search` and `resolve`. The index is a
--   function, and semver and SHA-256 are operations of a record `External`. Maps and sets of
--   `std::collections` are ascending lists (Prelude.TreeMap); the map of failed states is a list, as
--   its order is not observed. Solution describes solutions, Induction is the induction over a search
--   that Sound and Ends share.
-- Pipeline: crates/syllog-runtime/src/pipeline.rs. Types models the plan, policies, errors and events,
--   Log `LifecycleLog`, Circuit the circuit functions, Stage `run_stage` and `run_stage_attempts`,
--   Groups `run_fan_out`, `run_groups` and `run`. Time is a number that advances in operations and in
--   sleeps between attempts. An operation is a function of the time, the time of the cancellation and
--   its input. A fan-out gets the list of its branches in the order in which they join as a parameter,
--   with what is shared after them. CircuitRefine states the automaton of a circuit,
--   Retries.Course the course of a stage's attempts in time; Deadlines and Joins hold the other
--   proofs.
-- Proxy: Router models crates/syllog-proxy/src/router.rs, Registry registry.rs there with the
--   descriptors of provider.rs.
-- Prelude: shared names, tests, lists, integers, maps, texts. Examples: concrete programs, machines,
--   registries, pipelines and routes.
--
-- Bounds and fuel. The worklist of `reachable_blocks` has one fuel more than the function has
-- edges, as each edge is queued once at most. The dataflow loop has one fuel more than the sets
-- have elements, as each round but the last takes an element away. A run of a function spends one
-- fuel on each block, and `execute` gives it one more than `max_instructions`, as each block ticks.
-- The search of the resolver has one fuel for each level, and each level selects one more of the
-- names that the manifest and the index mention. The inference of effects has one fuel more than
-- five times the definitions, as each round but the last finds one more effect of one of them. The
-- runner of a task has a fuel for the turns of each `advance` and one for the steps, which are
-- arguments. Integers of 64 bits are exact numbers under the checks of the source; the sums of
-- `build_machine` wrap at 32 bits. `usize` is taken to have 64 bits, so that conversions of a `u32`
-- to it cannot fail.
--
-- Not modelled: serialization, most texts of errors, the host's stack, which `max_call_depth`
-- guards, the tasks of Tokio (`execute`, `PipelineHandle::wait`, the supervisor of detached tasks,
-- the semaphore of a fan-out), lockfiles and caches on disk, and the rest of the workspace: parser,
-- semantic analysis, lowering to HIR and MIR, Wasm code generation, sandbox, HTTP and streams of
-- the proxy, providers, registry client, command line.
pub mod Async
pub mod Compiler
pub mod Examples
pub mod Interpreter
pub mod Ir
pub mod Package
pub mod Pipeline
pub mod Prelude
pub mod Proxy
