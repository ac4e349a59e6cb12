-- ===== src/Compiler/Effects/Verdict.antt =====
-- What `analyze_effects` of crates/syllog-compiler/src/effects.rs concludes of a program.
use mathlib.Core.List.{Memᴰ}
use Prim.Native.Nat.{◌*◌}
use syllog.Prelude.{
  ◌+◌, String, true, List, [], ◌∷◌, ◌++◌, Option, none, some, Result, ok, err, ◌≡◌, ◌≢◌, ◌↔◌, refl,
  sym, ap, ◌∙◌, inl, inr, arith, length, subst, append-eq-nil,
}
use syllog.Ir.Syntax.{DefId}
use syllog.Ir.Capability.{Effect}
use syllog.Compiler.Hir.{HirDefinition, HirProgram}
use syllog.Compiler.AsyncLower.{all_definitions}
use syllog.Compiler.Effects.{has, EffectError, EffectAnalysis, DefId-Key}
use syllog.Compiler.Effects.Infer.{Inferred, effects_at}
use syllog.Compiler.Effects.Exact.{infer-Performs}
use syllog.Compiler.Effects.Analyze.{
  Collected, parse_declaration, collect_definitions, collected_of, bound_errors, all_effects,
  analysis_of, conclude, analyze_effects,
}
use syllog.Compiler.Effects.Collect.{
  DistinctIds, declared_of, puts-inv, puts-new, collect-declared, collect-errors,
}
use syllog.Compiler.Effects.Needs.{Needs}
use syllog.Compiler.Effects.Needs.Table.{Performs-Needs, Needs-Performs}
use syllog.Compiler.Effects.Declared.{
  Lists, IsMalformed, parse_declaration-some, parse_declaration-Lists,
}
use syllog.Compiler.Effects.Declared.Malformed.{append-ne-nil}
use syllog.Compiler.Effects.Bounds.{
  Ascending-Distinct, collected_of-Ascending, mem-elements, bound_errors-Within, has-all_effects,
  sort_errors_ne,
}
use syllog.Compiler.Effects.Reported.{
  Declares, bound_errors-inv, declared_of-inv, all_errors-inv, all_errors-clean,
}

-- What an analysis says of definitions.
pub record IsAnalysis (ds : List HirDefinition) (analysis : EffectAnalysis) : Type 0 where
  pub exact :
      (id : DefId) (e : Effect) → (has (effects_at analysis.functions id) e ≡ true) ↔ Needs ds id e
  pub bounded :
      (d : HirDefinition) (names : List String)
      → Memᴰ d ds
      → Declares d names
      → (e : Effect) → Needs ds d.id e
      → Lists names e
  pub well_formed :
      (d : HirDefinition) (names : List String) → Memᴰ d ds → Declares d names → ¬ IsMalformed names
  pub granted : (id : DefId) (e : Effect) → Needs ds id e → Memᴰ e analysis.manifest.required

-- Why a program is refused: a malformed declaration, or one that omits an effect that its function
-- needs.
pub data Fault (ds : List HirDefinition) : Type 0 where
  malformed :
      (d : HirDefinition) (names : List String)
      → Memᴰ d ds
      → Declares d names
      → IsMalformed names
      → Fault ds
  omits :
      (d : HirDefinition) (names : List String) (e : Effect)
      → Memᴰ d ds
      → Declares d names
      → Needs ds d.id e
      → ¬ Lists names e
      → Fault ds

abbrev pub Concluded : List HirDefinition → Result EffectAnalysis (List EffectError) → Type 0
Concluded ds (ok analysis) = IsAnalysis ds analysis
Concluded ds (err errors) = (errors ≢ []) × Fault ds

module _ (ds : List HirDefinition) (distinct : DistinctIds ds) where
  abbrev collected : Collected
  collected = collect_definitions ds ([], [], [])

  module _ (inferred : Inferred)
      (exact : (id : DefId) (e : Effect)
        → (has (effects_at inferred id) e ≡ true) ↔ Needs ds id e) where
    bounds-Lists :
        bound_errors inferred collected.1 ≡ []
        → (d : HirDefinition) (names : List String) → Memᴰ d ds
        → Declares d names
        → (e : Effect) → Needs ds d.id e
        → Lists names e
    bounds-Lists clean d names m (function, is_function, declares) e needs =
        let (declared, read) = parse_declaration-some names d.span in
        let entry : declared_of d.span d.kind ≡ some (some declared, d.span) =
          ap (declared_of d.span) is_function
          ∙ ap (λ o. some ((parse_declaration o d.span).0, d.span)) declares
          ∙ ap (λ o. some (o, d.span)) read in
        let stands =
          subst (λ t. Memᴰ (d.id, (some declared, d.span)) t)
            (sym (collect-declared ds ([], [], [])))
            (puts-new (λ d. declared_of d.span d.kind) ds [] d (some declared, d.span) distinct m
              entry) in
        (parse_declaration-Lists names d.span declared read e).0 (
          bound_errors-Within inferred collected.1 clean d.id declared d.span stands e
            ((exact d.id e).1 needs))

    bounds-Fault : bound_errors inferred collected.1 ≢ [] → Fault ds
    bounds-Fault h =
        let (id, declared, span, m, (e, inferred_has, declared_lacks)) =
          bound_errors-inv inferred collected.1 h in
        elim (puts-inv (λ d. declared_of d.span d.kind) ds [] (id, (some declared, span))
          (subst (λ t. Memᴰ (id, (some declared, span)) t) (collect-declared ds ([], [], [])) m)) [
            | inr nothing ↦ elim nothing [ ]
            | inl (d, mem, same, entry) ↦
                let (function, names, is_function, declares, read) =
                  declared_of-inv d.span d.kind declared span entry in
                omits d names e mem (function, is_function, declares)
                  (subst (λ i. Needs ds i e) (sym same) ((exact id e).0 inferred_has))
                  (λ lists.
                    let p = (parse_declaration-Lists names d.span declared read e).1 lists in
                    absurd (cc))
          ]

    conclude-Concluded :
        (errors : List EffectError)
        → errors ≡ collected.2 ++ bound_errors inferred collected.1
        → Concluded ds (conclude errors inferred)
    unfolding conclude analysis_of
    conclude-Concluded (x ∷ errors) h = (
      sort_errors_ne x errors,
      elim (append-ne-nil collected.2 (bound_errors inferred collected.1)
          (λ e. let p = h ∙ e in absurd (cc))) [
            | inl parsing ↦
                let (d, m, (names, declares, bad)) =
                  all_errors-inv ds (λ e. parsing (collect-errors ds ([], [], []) ∙ e)) in
                malformed d names m declares bad
            | inr bounds ↦ bounds-Fault bounds
          ],
    )
    conclude-Concluded [] h =
        let (parsing, bounds) =
          append-eq-nil collected.2 (bound_errors inferred collected.1) (sym h) in
        record {
          exact = exact;
          bounded = bounds-Lists bounds;
          well_formed = all_errors-clean ds (sym (collect-errors ds ([], [], [])) ∙ parsing);
          granted = λ id e needs.
              mem-elements (all_effects inferred) e
                (has-all_effects inferred id e ((exact id e).1 needs));
        }

-- Where no two definitions of a program have the same id, the analysis ends. Where it succeeds, it
-- gives every definition exactly the effects that it needs: those of the parts of its body (`await`,
-- strings, arrays), of being async or of having an agent, and those of the definitions that some part
-- calls by name, through any chain of calls. No declaration is malformed (by an unknown name, a name
-- twice, or `pure` beside others), every function that declares a bound lists the spelling of each
-- effect that it needs, and the manifest requires all that any definition needs. Where it fails, it
-- reports at least one error, and some declaration is malformed, or lists no spelling of an effect
-- that its function needs.
pub analyze_effects-Concluded :
    (program : HirProgram)
    → DistinctIds (all_definitions program.modules)
    → (result : Result EffectAnalysis (List EffectError)) × (analyze_effects program ≡ some result)
      × Concluded (all_definitions program.modules) result
unfolding analyze_effects collected_of
analyze_effects-Concluded program distinct =
    let ds = all_definitions program.modules in
    let c = collect_definitions ds ([], [], []) in
    let (inferred, e, exact) =
      infer-Performs (5 * length c.0 + 1) c.0
        (Ascending-Distinct c.0 (collected_of-Ascending program)) (omega arith) in
    let errors = c.2 ++ bound_errors inferred c.1 in
    (
      conclude errors inferred,
      ap
          (λ (found : Option Inferred). elim found [
            | none ↦ none
            | some inferred ↦ some (conclude (c.2 ++ bound_errors inferred c.1) inferred)
          ])
          e,
      conclude-Concluded ds distinct inferred
          (λ id x. (
            λ h. Performs-Needs ds id x ((exact id x).0 h),
            λ n. (exact id x).1 (Needs-Performs ds distinct id x n),
          ))
          errors refl,
    )
