-- ===== src/Compiler/Effects/Analyze.antt =====
-- crates/syllog-compiler/src/effects.rs: explicit bounds, and `analyze_effects`.
use text.Mathlib.Text.{◌==◌ as string_eq, is_lt}
use Prim.Native.String
use Prim.Native.Nat.{◌*◌}
use syllog.Prelude.{
  ◌+◌, String, Bool, false, not, ◌&&◌, ◌||◌, List, [], ◌∷◌, ◌++◌, Option, none, some, Result, ok,
  err, length, ltb, ◌==◌, if◌then◌else◌,
}
use syllog.Prelude.Text.{◌<>◌}
use syllog.Prelude.TreeMap.{TreeMap, TreeSet, insert, member, add, String-Key}
use syllog.Ir.Syntax.{DefId}
use syllog.Ir.Capability.{Effect, from_source, as_str}
use syllog.Compiler.Types.{Span}
use syllog.Compiler.Hir.{HirFunction, HirPipeline, HirDefinitionKind, HirDefinition, HirProgram}
use syllog.Compiler.AsyncLower.{all_definitions}
use syllog.Compiler.Effects.{
  EffectSet, no_effects, only, union, difference, elements, EffectError, EffectAnalysis,
  LocalEffects, no_local, add_direct, inspect_expr, inspect_block, DefId-Key,
}
use syllog.Compiler.Effects.Infer.{Inferred, Locals, effects_at, infer, direct_effects}

abbrev pub effect_error : String → String → Span → EffectError
effect_error code message span = record { code = code; message = message; span = span }

unfoldable pub display_effects : List Effect → String
display_effects [] = ""
display_effects (e ∷ []) = as_str e
display_effects (e ∷ f ∷ rest) = as_str e <> ", " <> display_effects (f ∷ rest)

-- `declaration.iter().any(|name| name == "pure")`
unfoldable pub any_pure : List String → Bool
any_pure [] = false
any_pure (name ∷ names) = string_eq name "pure" || any_pure names

-- One name of a bound that was not met before.
unfoldable pub parse_name : String → Span → EffectSet → EffectSet × List EffectError
parse_name name span parsed =
    if string_eq name "pure" then (parsed, []) else elim (from_source name) [
      | some e ↦ (union parsed (only e), [])
      | none ↦ (parsed, effect_error "SYL2701" ("unknown effect '" <> name <> "'") span ∷ [])
    ]

unfoldable pub parse_names :
    List String → Span → TreeSet String → EffectSet → EffectSet × List EffectError
parse_names [] span seen parsed = (parsed, [])
parse_names (name ∷ names) span seen parsed =
    let duplicate = member seen name in
    let one =
      if duplicate
      then (parsed, effect_error "SYL2701" ("duplicate effect '" <> name <> "'") span ∷ [])
      else parse_name name span parsed in
    let rest = parse_names names span (add name seen) one.0 in (rest.0, one.1 ++ rest.1)

unfoldable pub parse_declaration : Option (List String) → Span → Option EffectSet × List EffectError
parse_declaration none span = (none, [])
parse_declaration (some names) span =
    let mixed =
      if any_pure names && not (length names == 1)
      then effect_error "SYL2701" "'pure' cannot be combined with effect capabilities" span ∷ []
      else [] in
    let parsed = parse_names names span [] no_effects in (some parsed.0, mixed ++ parsed.1)

abbrev pub Declarations : Type 0
Declarations = TreeMap DefId (Option EffectSet × Span)

-- The locals, the declared bounds and the errors so far.
abbrev pub Collected : Type 0
Collected = Locals × Declarations × List EffectError

unfoldable pub function_effects : HirFunction → LocalEffects
function_effects function =
    inspect_block function.body
      (if function.asynchronous then add_direct Effect.async no_local else no_local)

unfoldable pub agent_effects : Option DefId → LocalEffects
agent_effects none = no_local
agent_effects (some agent) = add_direct Effect.provider (add_direct Effect.network no_local)

unfoldable pub pipeline_effects : HirPipeline → LocalEffects
pipeline_effects pipeline = elim pipeline.body [
  | none ↦ agent_effects pipeline.agent
  | some body ↦ inspect_expr body (agent_effects pipeline.agent)
]

unfoldable pub collect_kind : DefId → Span → HirDefinitionKind → Collected → Collected
collect_kind id span (HirDefinitionKind.function function) (locals, declarations, errors) =
    let parsed = parse_declaration function.declared_effects span in
    (
      insert id (function_effects function) locals,
      insert id (parsed.0, span) declarations,
      errors ++ parsed.1,
    )
collect_kind id span (HirDefinitionKind.pipeline pipeline) (locals, declarations, errors) =
    (insert id (pipeline_effects pipeline) locals, declarations, errors)
collect_kind id span _ collected = collected

unfoldable pub collect_definition : HirDefinition → Collected → Collected
collect_definition d collected = collect_kind d.id d.span d.kind collected

unfoldable pub collect_definitions : List HirDefinition → Collected → Collected
collect_definitions [] collected = collected
collect_definitions (d ∷ rest) collected = collect_definitions rest (collect_definition d collected)

-- The error of one declared bound.
unfoldable pub bound_error : Inferred → DefId → Option EffectSet → Span → List EffectError
bound_error inferred id none span = []
bound_error inferred id (some declared) span =
    let missing = elements (difference (effects_at inferred id) declared) in
    elim missing [
      | [] ↦ []
      | e ∷ rest ↦
          effect_error "SYL2702"
            ("declared effect bound omits inferred effect(s): " <> display_effects (e ∷ rest)) span
          ∷ []
    ]

unfoldable pub bound_errors : Inferred → Declarations → List EffectError
bound_errors inferred [] = []
bound_errors inferred ((id, (declared, span)) ∷ rest) =
    bound_error inferred id declared span ++ bound_errors inferred rest

-- `sort_by_key` by the start and the code, which is stable.
error_lt : EffectError → EffectError → Bool
error_lt a b =
    ltb a.span.start b.span.start
    || (a.span.start == b.span.start && is_lt (String.compare a.code b.code))

unfoldable pub insert_error : EffectError → List EffectError → List EffectError
unfolding error_lt
insert_error e [] = e ∷ []
insert_error e (f ∷ rest) =
    let later = insert_error e rest in if error_lt f e then f ∷ later else e ∷ f ∷ rest

unfoldable pub sort_errors : List EffectError → List EffectError
sort_errors [] = []
sort_errors (e ∷ rest) = insert_error e (sort_errors rest)

-- The union over all definitions.
unfoldable pub all_effects : Inferred → EffectSet
all_effects [] = no_effects
all_effects ((id, effects) ∷ rest) = union effects (all_effects rest)

unfoldable pub analysis_of : Inferred → EffectAnalysis
analysis_of inferred = record {
  functions = inferred;
  manifest = record { format_version = 1; required = elements (all_effects inferred) };
}

unfoldable pub conclude : List EffectError → Inferred → Result EffectAnalysis (List EffectError)
conclude [] inferred = ok (analysis_of inferred)
conclude (e ∷ errors) inferred = err (sort_errors (e ∷ errors))

unfoldable pub collected_of : HirProgram → Collected
collected_of program = collect_definitions (all_definitions program.modules) ([], [], [])

-- With the fuel that the fixpoint needs; none when it runs out.
unfoldable pub analyze_effects : HirProgram → Option (Result EffectAnalysis (List EffectError))
analyze_effects program =
    let collected = collected_of program in
    elim (infer (5 * length collected.0 + 1) collected.0 (direct_effects collected.0)) [
      | none ↦ none
      | some inferred ↦ some (conclude (collected.2 ++ bound_errors inferred collected.1) inferred)
    ]
