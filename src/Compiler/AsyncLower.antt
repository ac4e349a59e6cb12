-- ===== src/Compiler/AsyncLower.antt =====
-- crates/syllog-compiler/src/async_lower.rs: from async functions of the HIR to state machines.
-- `build_machine` stands in Async.Lower.
pub mod Counts
pub mod Borrowed
pub mod Among
pub mod Lowered
use syllog.Prelude.{
  ℕ, ◌+◌, Bool, true, false, not, ◌&&◌, ◌||◌, List, [], ◌∷◌, ◌++◌, map, Result, ok, err, ltb, ◌==◌,
  if◌then◌else◌, min, u32_max,
}
use syllog.Ir.Syntax.{DefId, def_id_eq}
use syllog.Async.Machine.{AsyncStateMachine, AsyncVerificationError, verify_async_machine}
use syllog.Async.Lower.{build_machine}
use syllog.Compiler.Types.{PrimitiveType, ResolvedType, ResolvedTypes}
use syllog.Compiler.Hir.{
  TypedExpr, expr, HirExprKind, await, HirStatement, let_bind, HirStatements, no_statements,
  and_statement, HirBlock, block_of, HirParameter, HirFunction, HirDefinitionKind, HirDefinition,
  HirModule, HirProgram, walk, id_lt,
}

pub data AsyncLowerError : Type 0 where
  verification : List AsyncVerificationError → AsyncLowerError
  borrow_across_await : DefId → List DefId → AsyncLowerError

unfoldable mutual
  pub contains_borrow : ResolvedType → Bool
  contains_borrow (ResolvedType.primitive PrimitiveType.str) = true
  contains_borrow (ResolvedType.option inner) = contains_borrow inner
  contains_borrow (ResolvedType.array inner) = contains_borrow inner
  contains_borrow (ResolvedType.result value e) = contains_borrow value || contains_borrow e
  contains_borrow (ResolvedType.tuple items) = any_borrow items
  contains_borrow (ResolvedType.function parameters returned) =
      any_borrow parameters || contains_borrow returned
  contains_borrow _ = false

  -- `iter().any(contains_borrow)`
  pub any_borrow : ResolvedTypes → Bool
  any_borrow ResolvedTypes.nil = false
  any_borrow (ResolvedTypes.cons item rest) = contains_borrow item || any_borrow rest

unfoldable pub is_await : TypedExpr → Bool
is_await (expr (await operand) ty span) = true
is_await _ = false

-- One more await, with `saturating_add`.
unfoldable pub count_await : TypedExpr → ℕ → ℕ
count_await e count = if is_await e then min (count + 1) u32_max else count

unfoldable pub count_expression_awaits : TypedExpr → ℕ → ℕ
count_expression_awaits e count = walk count_await e count

unfoldable pub count_statement_awaits : HirStatement → ℕ → ℕ
count_statement_awaits (let_bind definition name ty value) count =
    count_expression_awaits value count
count_statement_awaits HirStatement.return_unit count = count
count_statement_awaits (HirStatement.return_value value) count = count_expression_awaits value count
count_statement_awaits (HirStatement.expression value) count = count_expression_awaits value count

unfoldable pub count_awaits : HirStatements → ℕ → ℕ
count_awaits no_statements count = count
count_awaits (and_statement statement rest) count =
    count_awaits rest (count_statement_awaits statement count)

unfoldable pub let_locals : HirStatements → List DefId
let_locals no_statements = []
let_locals (and_statement (let_bind definition name ty value) rest) = definition ∷ let_locals rest
let_locals (and_statement _ rest) = let_locals rest

unfoldable pub borrowed_lets : HirStatements → List DefId
borrowed_lets no_statements = []
borrowed_lets (and_statement (let_bind definition name ty value) rest) =
    let later = borrowed_lets rest in if contains_borrow ty then definition ∷ later else later
borrowed_lets (and_statement _ rest) = borrowed_lets rest

unfoldable pub borrowed_parameters : List HirParameter → List DefId
borrowed_parameters [] = []
borrowed_parameters (p ∷ rest) =
    let later = borrowed_parameters rest in if contains_borrow p.ty then p.id ∷ later else later

-- `sort` by the derived order, and `dedup`.
unfoldable pub insert_id : DefId → List DefId → List DefId
insert_id id [] = id ∷ []
insert_id id (other ∷ rest) =
    let later = insert_id id rest in if id_lt other id then other ∷ later else id ∷ other ∷ rest

unfoldable pub sort_ids : List DefId → List DefId
sort_ids [] = []
sort_ids (id ∷ rest) = insert_id id (sort_ids rest)

unfoldable pub dedup : List DefId → List DefId
dedup [] = []
dedup (id ∷ []) = id ∷ []
dedup (id ∷ other ∷ rest) =
    let later = dedup (other ∷ rest) in if def_id_eq id other then later else id ∷ later

unfoldable pub statements_of : HirBlock → HirStatements
statements_of (block_of statements span) = statements

unfoldable pub borrowed_of : HirFunction → List DefId
borrowed_of function =
    borrowed_parameters function.parameters ++ borrowed_lets (statements_of function.body)

unfoldable pub locals_of : HirFunction → List DefId
locals_of function =
    dedup
      (sort_ids (map (λ p. p.id) function.parameters ++ let_locals (statements_of function.body)))

unfoldable pub awaits_of : HirFunction → ℕ
awaits_of function = count_awaits (statements_of function.body) 0

-- A borrow is an error where something awaits.
unfoldable pub retained : ℕ → List DefId → List DefId
retained awaits borrowed = if ltb 0 awaits then borrowed else []

-- The errors of a function with some retained locals, or its machine.
unfoldable pub checked : AsyncStateMachine → List DefId → Result AsyncStateMachine AsyncLowerError
checked machine (local ∷ locals) = err (borrow_across_await machine.function (local ∷ locals))
checked machine [] = elim (verify_async_machine machine) [
  | err errors ↦ err (verification errors)
  | ok _ ↦ ok machine
]

unfoldable pub lower_function : DefId → HirFunction → Result AsyncStateMachine AsyncLowerError
lower_function id function =
    let awaits = awaits_of function in
    checked (build_machine id awaits (locals_of function)) (retained awaits (borrowed_of function))

-- The async functions among some definitions.
unfoldable pub async_functions : List HirDefinition → List (DefId × HirFunction)
async_functions [] = []
async_functions (d ∷ rest) =
    let later = async_functions rest in
    elim d.kind [
      | HirDefinitionKind.function function ↦
          if function.asynchronous then (d.id, function) ∷ later else later
      | _ ↦ later
    ]

-- The machine of one function before those of the others, which are made only after it.
unfoldable pub and_machines :
    Result AsyncStateMachine AsyncLowerError
    → Result (List AsyncStateMachine) AsyncLowerError
    → Result (List AsyncStateMachine) AsyncLowerError
and_machines (err e) others = err e
and_machines (ok machine) (err e) = err e
and_machines (ok machine) (ok machines) = ok (machine ∷ machines)

unfoldable pub lower_functions :
    List (DefId × HirFunction) → Result (List AsyncStateMachine) AsyncLowerError
lower_functions [] = ok []
lower_functions ((id, function) ∷ rest) =
    and_machines (lower_function id function) (lower_functions rest)

-- `program.modules.iter().flat_map(..)`
unfoldable pub all_definitions : List HirModule → List HirDefinition
all_definitions [] = []
all_definitions (m ∷ modules) = m.definitions ++ all_definitions modules

unfoldable pub lower_async_state_machines :
    HirProgram → Result (List AsyncStateMachine) AsyncLowerError
lower_async_state_machines program =
    lower_functions (async_functions (all_definitions program.modules))
