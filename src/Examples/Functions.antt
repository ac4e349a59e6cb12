-- ===== src/Examples/Functions.antt =====
-- A small HIR program: crates/syllog-compiler/src/async_lower.rs and effects.rs on it.
use syllog.Prelude.{ℕ, ◌≡◌, refl, true, false, List, [], ◌∷◌, none, some, Result, err}
use syllog.Ir.Syntax.{DefId}
use syllog.Async.Lower.{build_machine}
use syllog.Compiler.Types.{Span, PrimitiveType, ResolvedType}
use syllog.Compiler.Hir.{
  TypedExpr, expr, HirExprKind, await, no_exprs, HirStatement, let_bind, no_statements,
  and_statement, HirBlock, block_of, HirFunction, HirDefinitionKind, HirDefinition, HirProgram,
  walk, id_lt,
}
use syllog.Compiler.AsyncLower.{
  borrow_across_await, contains_borrow, is_await, count_await, count_expression_awaits,
  count_statement_awaits, count_awaits, let_locals, borrowed_lets, borrowed_parameters, insert_id,
  sort_ids, dedup, statements_of, borrowed_of, locals_of, awaits_of, retained, checked,
  lower_function, async_functions, and_machines, lower_functions, all_definitions,
  lower_async_state_machines,
}
use syllog.Compiler.Effects.{EffectError, EffectAnalysis}
use syllog.Compiler.Effects.Analyze.{analyze_effects}
use syllog.Compiler.Effects.Collect.{DistinctIds}
use syllog.Compiler.Effects.Verdict.{Concluded, analyze_effects-Concluded}
use syllog.Compiler.AsyncLower.Lowered.{Lowered}

abbrev nowhere : Span
nowhere = record { start = 0; end = 0; line = 1; column = 1 }

abbrev id_of : ℕ → DefId
id_of n = record { module_id = 0; index = n }

abbrev typed : HirExprKind → ResolvedType → TypedExpr
typed kind ty = expr kind ty nowhere

-- `let x = fetch().await; x`, with one parameter.
abbrev body : HirBlock
body =
    block_of
      (and_statement
        (let_bind (id_of 3) "x" (ResolvedType.primitive PrimitiveType.string) (
          typed
            (await (
              typed
                (HirExprKind.call (typed (HirExprKind.reference (id_of 9)) ResolvedType.unknown)
                  no_exprs)
                ResolvedType.unknown))
            (ResolvedType.primitive PrimitiveType.string)))
        (and_statement
          (HirStatement.expression
            (typed (HirExprKind.reference (id_of 3)) (ResolvedType.primitive PrimitiveType.string)))
          no_statements))
      nowhere

abbrev function_of : ResolvedType → HirFunction
function_of parameter = record {
  is_test = false;
  asynchronous = true;
  public = true;
  declared_effects = none;
  parameters = record { id = id_of 2; name = "key"; ty = parameter; span = nowhere } ∷ [];
  result = ResolvedType.primitive PrimitiveType.string;
  body = body;
}

abbrev load : ResolvedType → HirDefinition
load parameter = record {
  id = id_of 1;
  name = "load";
  kind = HirDefinitionKind.function (function_of parameter);
  span = nowhere;
}

abbrev program : ResolvedType → HirProgram
program parameter = record {
  schema_version = 1;
  modules = record { id = 0; definitions = load parameter ∷ [] } ∷ [];
  entry = none;
}

-- `&str` is refused, a reference to an owned string is not.
lower-borrowed :
    lower_async_state_machines (program (ResolvedType.primitive PrimitiveType.str))
    ≡ err (borrow_across_await (id_of 1) (id_of 2 ∷ []))
unfolding contains_borrow is_await count_await count_expression_awaits count_statement_awaits
    count_awaits let_locals borrowed_lets borrowed_parameters id_lt insert_id sort_ids dedup
    statements_of borrowed_of locals_of awaits_of retained checked lower_function async_functions
    and_machines lower_functions all_definitions lower_async_state_machines walk build_machine
lower-borrowed = refl

lower-reference :
    borrowed_parameters (
      record {
        id = id_of 2;
        name = "key";
        ty = ResolvedType.reference none false (ResolvedType.primitive PrimitiveType.string);
        span = nowhere;
      }
      ∷ [])
    ≡ []
unfolding borrowed_parameters contains_borrow
lower-reference = refl

abbrev entries : List (DefId × HirFunction)
entries = (id_of 1, function_of ResolvedType.unit) ∷ []

load-DistinctIds : DistinctIds (all_definitions (program ResolvedType.unit).modules)
unfolding all_definitions
load-DistinctIds = (tt, tt)

analyze_effects-Concluded_example :
    (result : Result EffectAnalysis (List EffectError)) × (analyze_effects
        (program ResolvedType.unit)
      ≡ some result)
    × Concluded (all_definitions (program ResolvedType.unit).modules) result
analyze_effects-Concluded_example =
    analyze_effects-Concluded (program ResolvedType.unit) load-DistinctIds

-- A borrowed local of a nested block is not seen: `async fn f() { { let s: str = fetch().await; s } }`.
abbrev nested_body : HirBlock
nested_body =
    block_of
      (and_statement
        (HirStatement.expression (
          typed
            (HirExprKind.block (
              block_of
                (and_statement
                  (let_bind (id_of 3) "s" (ResolvedType.primitive PrimitiveType.str) (
                    typed (await (typed (HirExprKind.reference (id_of 9)) ResolvedType.unknown))
                      (ResolvedType.primitive PrimitiveType.str)))
                  no_statements)
                nowhere))
            ResolvedType.unit))
        no_statements)
      nowhere

nested-not_borrowed : borrowed_lets (statements_of nested_body) ≡ []
unfolding borrowed_lets statements_of
nested-not_borrowed = refl
