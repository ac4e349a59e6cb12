-- ===== src/Compiler/Effects/Bounds.antt =====
-- The keys, the bounds and the manifest of `analyze_effects` in crates/syllog-compiler/src/effects.rs.
use mathlib.Core.List.{Memᴰ}
use syllog.Prelude.{
  Bool, true, false, not, ◌&&◌, List, [], ◌∷◌, ◌++◌, some, ◌≡◌, ◌≢◌, refl, sym, ap, ◌∙◌, inl, inr,
  arith, All, All-map, Bool-cases, List-cases, if-cases, if◌then◌else◌, subst, append-eq-nil,
}
use syllog.Prelude.TreeMap.{TreeMap, lookup, insert, insert-All}
use syllog.Ir.Syntax.{DefId, def_id_eq}
use syllog.Ir.Capability.{Effect}
use syllog.Compiler.Types.{Span}
use syllog.Compiler.Hir.{id_lt, HirDefinitionKind, HirDefinition, HirProgram}
use syllog.Compiler.AsyncLower.{all_definitions}
use syllog.Compiler.Effects.{EffectSet, has, difference, listed, elements, EffectError, DefId-Key}
use syllog.Compiler.Effects.Infer.{Inferred, Locals, effects_at, or_default}
use syllog.Compiler.Effects.Growth.{Within, has-union}
use syllog.Compiler.Effects.Exact.{Distinct}
use syllog.Compiler.Effects.Analyze.{
  Collected, Declarations, collect_kind, function_effects, pipeline_effects, collect_definition,
  collect_definitions, collected_of, bound_error, bound_errors, all_effects, insert_error,
  sort_errors,
}

-- The keys ascend.
abbrev pub Ascending : {V : Type 0} → TreeMap DefId V → Type 0
Ascending [] = Unit
Ascending (entry ∷ m) = All (λ other. id_lt entry.0 other.0 ≡ true) m × Ascending m

id_lt_trans : (a b c : DefId) → id_lt a b ≡ true → id_lt b c ≡ true → id_lt a c ≡ true
unfolding id_lt
id_lt_trans a b c h k = ground arith

id_lt-ne : (a b : DefId) → id_lt a b ≡ true → b ≢ a
unfolding id_lt
id_lt-ne a b h e = absurd (ground (arith, ap (λ d. d.module_id) e, ap (λ d. d.index) e))

id_lt-total : (a b : DefId) → id_lt a b ≡ false → DefId-Key.eq b a ≡ false → id_lt b a ≡ true
unfolding id_lt DefId-Key def_id_eq
id_lt-total a b h k = ground arith

insert-Ascending :
    {V : Type 0} (k : DefId) (v : V) (m : TreeMap DefId V) → Ascending m → Ascending (insert k v m)
unfolding insert id_lt DefId-Key
insert-Ascending k v [] a = (tt, tt)
insert-Ascending k v ((j, w) ∷ m) a =
    if-cases Ascending (DefId-Key.lt k j)
      (λ lt. ((lt, All-map m (λ entry l. id_lt_trans k j entry.0 lt l) a.0), a))
      (λ not_lt.
        if-cases Ascending (DefId-Key.eq j k)
          (λ eq. (
            subst (λ i. All (λ other. id_lt i other.0 ≡ true) m) ((DefId-Key.eq_iff j k).0 eq) a.0,
            a.1,
          ))
          (λ ne. (
            insert-All (λ i. id_lt j i ≡ true) k v m (id_lt-total k j not_lt ne) a.0,
            insert-Ascending k v m a.1,
          )))

pub Ascending-Distinct : (locals : Locals) → Ascending locals → Distinct locals
Ascending-Distinct [] a = tt
Ascending-Distinct (entry ∷ rest) a =
    (All-map rest (λ other l. id_lt-ne entry.0 other.0 l) a.0, Ascending-Distinct rest a.1)

collect_kind-Ascending :
    (id : DefId) (span : Span) (kind : HirDefinitionKind) (c : Collected)
    → Ascending c.0
    → Ascending (collect_kind id span kind c).0
unfolding collect_kind
collect_kind-Ascending id span (HirDefinitionKind.function function) (locals, declarations, errors)
      a =
    insert-Ascending id (function_effects function) locals a
collect_kind-Ascending id span (HirDefinitionKind.pipeline pipeline) (locals, declarations, errors)
      a =
    insert-Ascending id (pipeline_effects pipeline) locals a
collect_kind-Ascending id span (HirDefinitionKind.struct fields) c a = a
collect_kind-Ascending id span (HirDefinitionKind.enum variants) c a = a
collect_kind-Ascending id span (HirDefinitionKind.state fields) c a = a
collect_kind-Ascending id span HirDefinitionKind.agent c a = a
collect_kind-Ascending id span HirDefinitionKind.safety_bound c a = a

collect_definitions-Ascending :
    (ds : List HirDefinition) (c : Collected)
    → Ascending c.0
    → Ascending (collect_definitions ds c).0
unfolding collect_definitions collect_definition
collect_definitions-Ascending [] c a = a
collect_definitions-Ascending (d ∷ ds) c a =
    collect_definitions-Ascending ds (collect_definition d c)
      (collect_kind-Ascending d.id d.span d.kind c a)

pub collected_of-Ascending : (program : HirProgram) → Ascending (collected_of program).0
unfolding collected_of
collected_of-Ascending program =
    collect_definitions-Ascending (all_definitions program.modules) ([], [], []) tt

-- The elements of a set are those that it has.
listed-nil : (b : Bool) (e : Effect) → listed b e ≡ [] → b ≡ false
unfolding listed
listed-nil true e h = absurd (cc)
listed-nil false e h = refl

elements-nil : (s : EffectSet) → elements s ≡ [] → (e : Effect) → has s e ≡ false
unfolding elements
elements-nil s h =
    let (a, r) = append-eq-nil (listed s.alloc Effect.alloc) _ h in
    let (b, r') = append-eq-nil (listed s.async Effect.async) _ r in
    let (c, r'') = append-eq-nil (listed s.io Effect.io) _ r' in
    let (d, f) =
      append-eq-nil (listed s.network Effect.network) (listed s.provider Effect.provider) r'' in
    λ e. elim e as (λ f. has s f ≡ false) [
      | Effect.alloc ↦ listed-nil s.alloc Effect.alloc a
      | Effect.async ↦ listed-nil s.async Effect.async b
      | Effect.io ↦ listed-nil s.io Effect.io c
      | Effect.network ↦ listed-nil s.network Effect.network d
      | Effect.provider ↦ listed-nil s.provider Effect.provider f
    ]

mem_left : {A : Type 0} (x : A) (xs ys : List A) → Memᴰ x xs → Memᴰ x (xs ++ ys)
mem_left x (y ∷ xs) ys (Memᴰ.head e) = Memᴰ.head e
mem_left x (y ∷ xs) ys (Memᴰ.tail m) = Memᴰ.tail (mem_left x xs ys m)
mem_left x [] ys m = elim m [ ]

mem_right : {A : Type 0} (x : A) (xs ys : List A) → Memᴰ x ys → Memᴰ x (xs ++ ys)
mem_right x [] ys m = m
mem_right x (y ∷ xs) ys m = Memᴰ.tail (mem_right x xs ys m)

mem-listed : (b : Bool) (e : Effect) → b ≡ true → Memᴰ e (listed b e)
unfolding listed
mem-listed true e h = Memᴰ.head refl
mem-listed false e h = absurd (cc)

pub mem-elements : (s : EffectSet) (e : Effect) → has s e ≡ true → Memᴰ e (elements s)
unfolding elements
mem-elements s Effect.alloc h = mem_left _ _ _ (mem-listed s.alloc Effect.alloc h)
mem-elements s Effect.async h =
    mem_right _ (listed s.alloc Effect.alloc) _ (mem_left _ _ _ (mem-listed s.async Effect.async h))
mem-elements s Effect.io h =
    mem_right _ (listed s.alloc Effect.alloc) _
      (mem_right _ (listed s.async Effect.async) _ (mem_left _ _ _ (mem-listed s.io Effect.io h)))
mem-elements s Effect.network h = mem_right _ (listed s.alloc Effect.alloc) _ (
    mem_right _ (listed s.async Effect.async) _ (
      mem_right _ (listed s.io Effect.io) _
        (mem_left _ _ _ (mem-listed s.network Effect.network h))))
mem-elements s Effect.provider h = mem_right _ (listed s.alloc Effect.alloc) _ (
    mem_right _ (listed s.async Effect.async) _ (
      mem_right _ (listed s.io Effect.io) _ (
        mem_right _ (listed s.network Effect.network) _ (mem-listed s.provider Effect.provider h))))

pub has-difference :
    (s t : EffectSet) (e : Effect) → has (difference s t) e ≡ (has s e && not (has t e))
has-difference s t Effect.alloc = refl
has-difference s t Effect.async = refl
has-difference s t Effect.io = refl
has-difference s t Effect.network = refl
has-difference s t Effect.provider = refl

bound_error-Within :
    (inferred : Inferred) (id : DefId) (declared : EffectSet) (span : Span)
    → bound_error inferred id (some declared) span ≡ []
    → Within (effects_at inferred id) declared
unfolding bound_error
bound_error-Within inferred id declared span h e m =
    elim (List-cases (elements (difference (effects_at inferred id) declared))) [
      | inl none_missing ↦ ground (
        arith,
        has-difference (effects_at inferred id) declared e,
        elements-nil (difference (effects_at inferred id) declared) none_missing e,
      )
      | inr (x, rest, some_missing) ↦ absurd (ground arith)
    ]

pub bound_errors-Within :
    (inferred : Inferred) (declarations : Declarations)
    → bound_errors inferred declarations ≡ []
    → (id : DefId) (declared : EffectSet) (span : Span)
    → Memᴰ (id, (some declared, span)) declarations
    → Within (effects_at inferred id) declared
unfolding bound_errors
bound_errors-Within inferred [] h id declared span m = elim m [ ]
bound_errors-Within inferred ((other, (bound, at)) ∷ rest) h id declared span m =
    let (here, later) =
      append-eq-nil (bound_error inferred other bound at) (bound_errors inferred rest) h in
    elim m [
      | Memᴰ.head e ↦
          bound_error-Within inferred id declared span
            (subst (λ x. bound_error inferred x.0 x.1.0 x.1.1 ≡ []) (sym e) here)
      | Memᴰ.tail r ↦ bound_errors-Within inferred rest later id declared span r
    ]

pub has-all_effects :
    (inferred : Inferred) (id : DefId) (e : Effect)
    → has (effects_at inferred id) e ≡ true
    → has (all_effects inferred) e ≡ true
unfolding all_effects effects_at lookup
has-all_effects [] id e h = h
has-all_effects ((other, effects) ∷ rest) id e h = elim (Bool-cases (DefId-Key.eq other id)) [
  | inl here ↦
      let at = ap (λ b. has (or_default (if b then some effects else lookup id rest)) e) here in
      ground (arith, has-union effects (all_effects rest) e, at)
  | inr there ↦
      let at = ap (λ b. has (or_default (if b then some effects else lookup id rest)) e) there in
      let later = has-all_effects rest id e (sym at ∙ h) in
      ground (arith, has-union effects (all_effects rest) e)
]

insert_error_ne : (e : EffectError) (errors : List EffectError) → insert_error e errors ≢ []
unfolding insert_error
insert_error_ne e [] h = absurd (cc)
insert_error_ne e (f ∷ errors) h = absurd (ground arith)

pub sort_errors_ne : (e : EffectError) (errors : List EffectError) → sort_errors (e ∷ errors) ≢ []
unfolding sort_errors
sort_errors_ne e errors = insert_error_ne e (sort_errors errors)
