-- ===== src/Compiler/AsyncLower/Among.antt =====
-- The async functions of a program, which crates/syllog-compiler/src/async_lower.rs goes through.
use syllog.Prelude.{true, List, [], ◌∷◌, ◌≡◌, refl, ap, ◌∙◌, if◌then◌else◌, if-cases}
use syllog.Ir.Syntax.{DefId}
use syllog.Compiler.Hir.{HirFunction, HirDefinitionKind, HirDefinition}
use syllog.Compiler.AsyncLower.{async_functions}

abbrev pub IsAsync : HirDefinition → HirFunction → Type 0
IsAsync d function = (d.kind ≡ HirDefinitionKind.function function) × (function.asynchronous ≡ true)

-- The async functions among some definitions, with their ids and in their order.
pub data AsyncAmong : List HirDefinition → List (DefId × HirFunction) → Type 0 where
  no_more : AsyncAmong [] []
  taken :
      (d : HirDefinition) (function : HirFunction) {rest : List HirDefinition}
      {entries : List (DefId × HirFunction)}
      → IsAsync d function
      → AsyncAmong rest entries
      → AsyncAmong (d ∷ rest) ((d.id, function) ∷ entries)
  passed :
      (d : HirDefinition) {rest : List HirDefinition} {entries : List (DefId × HirFunction)}
      → ((function : HirFunction) → ¬ IsAsync d function)
      → AsyncAmong rest entries
      → AsyncAmong (d ∷ rest) entries

-- What one definition adds to the functions of those after it.
abbrev added : DefId → HirDefinitionKind → List (DefId × HirFunction) → List (DefId × HirFunction)
added id kind later = elim kind [
  | HirDefinitionKind.function function ↦
      if function.asynchronous then (id, function) ∷ later else later
  | _ ↦ later
]

passed-added :
    (d : HirDefinition) (later : List (DefId × HirFunction))
    → ((function : HirFunction) → ¬ IsAsync d function)
    → (kind : HirDefinitionKind) → d.kind ≡ kind
    → added d.id kind later ≡ later
passed-added d later never (HirDefinitionKind.function function) e =
    if-cases (λ es. es ≡ later) function.asynchronous (λ yes. absurd (never function (e, yes)))
      (λ _. refl)
passed-added d later never _ e = refl

pub AsyncAmong-unique :
    (ds : List HirDefinition) (entries : List (DefId × HirFunction))
    → AsyncAmong ds entries
    → async_functions ds ≡ entries
unfolding async_functions
AsyncAmong-unique ds es no_more = refl
AsyncAmong-unique ds es (taken d function {rest = rest} {entries = entries} (k, a) h) =
    ap (λ kind. added d.id kind (async_functions rest)) k
    ∙ ap (λ b. if b then (d.id, function) ∷ async_functions rest else async_functions rest) a
    ∙ ap (λ later. (d.id, function) ∷ later) (AsyncAmong-unique rest entries h)
AsyncAmong-unique ds es (passed d {rest = rest} {entries = entries} never h) =
    passed-added d (async_functions rest) never d.kind refl ∙ AsyncAmong-unique rest entries h
