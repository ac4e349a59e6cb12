-- ===== src/Compiler/Effects/Reported.antt =====
-- Where the errors of `analyze_effects` in crates/syllog-compiler/src/effects.rs come from.
use mathlib.Core.List.{Memᴰ}
use syllog.Prelude.{
  sym, append-eq-nil, String, true, false, List, [], ◌∷◌, none, some, ◌≡◌, ◌≢◌, ◌⊎◌, refl, inl, inr,
  arith, Bool-cases, Option-cases, subst,
}
use syllog.Ir.Syntax.{DefId}
use syllog.Ir.Capability.{Effect}
use syllog.Compiler.Types.{Span}
use syllog.Compiler.Hir.{HirFunction, HirDefinitionKind, HirDefinition}
use syllog.Compiler.Effects.{EffectSet, has, difference, listed, elements, DefId-Key}
use syllog.Compiler.Effects.Infer.{Inferred, effects_at}
use syllog.Compiler.Effects.Analyze.{Declarations, parse_declaration, bound_error, bound_errors}
use syllog.Compiler.Effects.Collect.{declared_of, errors_of, all_errors}
use syllog.Compiler.Effects.Declared.{IsMalformed}
use syllog.Compiler.Effects.Declared.Malformed.{
  append-ne-nil, parse_declaration-IsMalformed, parse_declaration-clean,
}
use syllog.Compiler.Effects.Bounds.{has-difference}

-- A definition is a function with a declaration.
abbrev pub Declares : HirDefinition → List String → Type 0
Declares d names =
    (function : HirFunction) × (d.kind ≡ HirDefinitionKind.function function)
    × (function.declared_effects ≡ some names)

elements-none : (s : EffectSet) → ((e : Effect) → has s e ≡ false) → elements s ≡ []
unfolding elements listed
elements-none s h =
    let a = h Effect.alloc in
    let b = h Effect.async in
    let c = h Effect.io in let d = h Effect.network in let f = h Effect.provider in ground arith

all-or-some : (s : EffectSet) → ((e : Effect) → has s e ≡ false) ⊎ ((e : Effect) × (has s e ≡ true))
all-or-some s = elim (Bool-cases s.alloc) [
  | inl a ↦ inr (Effect.alloc, a)
  | inr a ↦ elim (Bool-cases s.async) [
    | inl b ↦ inr (Effect.async, b)
    | inr b ↦ elim (Bool-cases s.io) [
      | inl c ↦ inr (Effect.io, c)
      | inr c ↦ elim (Bool-cases s.network) [
        | inl d ↦ inr (Effect.network, d)
        | inr d ↦ elim (Bool-cases s.provider) [
          | inl f ↦ inr (Effect.provider, f)
          | inr f ↦ inl (λ e. elim e as (λ x. has s x ≡ false) [
            | Effect.alloc ↦ a
            | Effect.async ↦ b
            | Effect.io ↦ c
            | Effect.network ↦ d
            | Effect.provider ↦ f
          ])
        ]
      ]
    ]
  ]
]

-- The error of a bound comes from an effect that is inferred and not declared.
bound_error-inv :
    (inferred : Inferred) (id : DefId) (declared : EffectSet) (span : Span)
    → bound_error inferred id (some declared) span ≢ []
    → (e : Effect) × (has (effects_at inferred id) e ≡ true) × (has declared e ≡ false)
unfolding bound_error
bound_error-inv inferred id declared span h =
    let missing = difference (effects_at inferred id) declared in
    elim (all-or-some missing) [
      | inl nothing ↦ let e = elements-none missing nothing in absurd (h (ground arith))
      | inr (e, some_missing) ↦
          let same = has-difference (effects_at inferred id) declared e in
          (e, ground arith, ground arith)
    ]

pub bound_errors-inv :
    (inferred : Inferred) (declarations : Declarations)
    → bound_errors inferred declarations ≢ []
    → (id : DefId) × (declared : EffectSet) × (span : Span) × Memᴰ
        (id, (some declared, span))
        declarations
      × ((e : Effect) × (has (effects_at inferred id) e ≡ true) × (has declared e ≡ false))
unfolding bound_errors bound_error
bound_errors-inv inferred [] h = absurd (h refl)
bound_errors-inv inferred ((id, (none, span)) ∷ rest) h =
    let (i, declared, at, m, found) = bound_errors-inv inferred rest h in
    (i, declared, at, Memᴰ.tail m, found)
bound_errors-inv inferred ((id, (some declared, span)) ∷ rest) h =
    elim (append-ne-nil (bound_error inferred id (some declared) span) (bound_errors inferred rest)
      h) [
        | inl here ↦
            (id, declared, span, Memᴰ.head refl, bound_error-inv inferred id declared span here)
        | inr later ↦
            let (i, bound, at, m, found) = bound_errors-inv inferred rest later in
            (i, bound, at, Memᴰ.tail m, found)
      ]

pub declared_of-inv :
    (span : Span) (kind : HirDefinitionKind) (declared : EffectSet) (at : Span)
    → declared_of span kind ≡ some (some declared, at)
    → (function : HirFunction) × (names : List String) × (kind
        ≡ HirDefinitionKind.function function)
      × (function.declared_effects ≡ some names)
      × ((parse_declaration (some names) span).0 ≡ some declared)
unfolding parse_declaration
declared_of-inv span (HirDefinitionKind.function function) declared at h =
    let q : (parse_declaration function.declared_effects span).0 ≡ some declared = cc in
    elim (Option-cases function.declared_effects) [
      | inl silent ↦
          let p = subst (λ o. (parse_declaration o span).0 ≡ some declared) silent q in absurd (cc)
      | inr (names, e) ↦
          (function, names, refl, e, subst (λ o. (parse_declaration o span).0 ≡ some declared) e q)
    ]
declared_of-inv span _ declared at h = absurd (cc)

refused :
    (span : Span) (kind : HirDefinitionKind)
    → errors_of span kind ≢ []
    → (names : List String) × ((function : HirFunction) × (kind
          ≡ HirDefinitionKind.function function)
        × (function.declared_effects ≡ some names))
      × IsMalformed names
unfolding parse_declaration
refused span (HirDefinitionKind.function function) h =
    elim (Option-cases function.declared_effects) [
      | inl silent ↦ absurd (subst (λ o. (parse_declaration o span).1 ≢ []) silent h refl)
      | inr (names, e) ↦ (
        names,
        (function, refl, e),
        parse_declaration-IsMalformed names span
            (subst (λ o. (parse_declaration o span).1 ≢ []) e h),
      )
    ]
refused span _ h = absurd (h refl)

-- A refused declaration among those of some definitions.
pub all_errors-inv :
    (ds : List HirDefinition)
    → all_errors ds ≢ []
    → (d : HirDefinition) × Memᴰ d ds
      × ((names : List String) × Declares d names × IsMalformed names)
all_errors-inv [] h = absurd (h refl)
all_errors-inv (d ∷ rest) h = elim (append-ne-nil (errors_of d.span d.kind) (all_errors rest) h) [
  | inl here ↦ (d, Memᴰ.head refl, refused d.span d.kind here)
  | inr later ↦ let (x, m, found) = all_errors-inv rest later in (x, Memᴰ.tail m, found)
]

-- Where no declaration is refused, none is malformed.
pub all_errors-clean :
    (ds : List HirDefinition)
    → all_errors ds ≡ []
    → (d : HirDefinition) (names : List String) → Memᴰ d ds
    → Declares d names
    → ¬ IsMalformed names
all_errors-clean [] h d names m declares = elim m [ ]
all_errors-clean (x ∷ rest) h d names m (function, is_function, declares) =
    let (here, later) = append-eq-nil (errors_of x.span x.kind) (all_errors rest) h in
    elim m [
      | Memᴰ.tail t ↦ all_errors-clean rest later d names t (function, is_function, declares)
      | Memᴰ.head same ↦
          let clean = subst (λ y. errors_of y.span y.kind ≡ []) (sym same) here in
          let of_function = subst (λ k. errors_of d.span k ≡ []) is_function clean in
          parse_declaration-clean names d.span
            (subst (λ o. (parse_declaration o d.span).1 ≡ []) declares of_function)
    ]
