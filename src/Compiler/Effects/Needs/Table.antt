-- ===== src/Compiler/Effects/Needs/Table.antt =====
-- The table of crates/syllog-compiler/src/effects.rs from which effects are inferred: it has what the
-- bodies of the definitions need.
use mathlib.Core.List.{Memᴰ}
use syllog.Prelude.{
  String, Bool, true, false, List, [], ◌∷◌, Option, none, some, ◌≡◌, ◌↔◌, ◌⊎◌, inl, inr, refl, sym,
  subst, if◌then◌else◌,
}
use syllog.Ir.Syntax.{DefId}
use syllog.Ir.Capability.{Effect}
use syllog.Compiler.Hir.{TypedExpr, HirDefinitionKind, HirDefinition}
use syllog.Compiler.Effects.{LocalEffects, no_local, add_direct, inspect_expr, DefId-Key}
use syllog.Compiler.Effects.Growth.{has-no_effects}
use syllog.Compiler.Effects.Infer.{Locals}
use syllog.Compiler.Effects.Exact.{Performs, itself, through}
use syllog.Compiler.Effects.Analyze.{
  function_effects, agent_effects, pipeline_effects, collect_definitions,
}
use syllog.Compiler.Effects.Parts.{InExpr, UsesAt, CallsAt}
use syllog.Compiler.Effects.Parts.Inspect.{
  HasDirect, HasCall, add_direct_iff, inspect_expr-direct, inspect_expr-calls, inspect_block-direct,
  inspect_block-calls,
}
use syllog.Compiler.Effects.Collect.{DistinctIds, local_of, puts-inv, puts-new, collect-locals}
use syllog.Compiler.Effects.Needs.{InBody, AgentUses, Uses, Calls, Needs, own, called}

no_local-direct : (e : Effect) → ¬ HasDirect e no_local
no_local-direct e h = let f = has-no_effects e in absurd (cc)

no_local-call : (id : DefId) → ¬ HasCall id no_local
unfolding syllog.Prelude.TreeMap.member
no_local-call id h = absurd (cc)

-- What is noted before a body is looked at.
abbrev of_function : Bool → LocalEffects
of_function asynchronous = if asynchronous then add_direct Effect.async no_local else no_local

of_function-direct :
    (b : Bool) (e : Effect) → HasDirect e (of_function b) ↔ ((b ≡ true) × (Effect.async ≡ e))
of_function-direct true e = (
  λ h. elim ((add_direct_iff Effect.async e no_local).0 h) [
    | inl p ↦ absurd (no_local-direct e p)
    | inr q ↦ (refl, q)
  ],
  λ h. (add_direct_iff Effect.async e no_local).1 (inr h.1),
)
of_function-direct false e = (λ h. absurd (no_local-direct e h), λ h. absurd (cc))

of_function-calls : (b : Bool) (id : DefId) → ¬ HasCall id (of_function b)
unfolding add_direct
of_function-calls true id h = no_local-call id h
of_function-calls false id h = no_local-call id h

agent_effects-direct :
    (agent : Option DefId) (e : Effect) → HasDirect e (agent_effects agent) ↔ AgentUses agent e
unfolding agent_effects
agent_effects-direct none e = (λ h. absurd (no_local-direct e h), λ h. absurd h)
agent_effects-direct (some agent) e =
    let with_network = add_direct_iff Effect.network e no_local in
    let with_both = add_direct_iff Effect.provider e (add_direct Effect.network no_local) in
    (
      λ h. elim (with_both.0 h) [
        | inr p ↦ inr p
        | inl before ↦ elim (with_network.0 before) [
          | inl p ↦ absurd (no_local-direct e p)
          | inr n ↦ inl n
        ]
      ],
      λ h. elim h [
        | inl n ↦ with_both.1 (inl (with_network.1 (inr n)))
        | inr p ↦ with_both.1 (inr p)
      ],
    )

agent_effects-calls : (agent : Option DefId) (id : DefId) → ¬ HasCall id (agent_effects agent)
unfolding agent_effects add_direct
agent_effects-calls none id h = no_local-call id h
agent_effects-calls (some agent) id h = no_local-call id h

iff-first : {A B C X : Type 0} → (C ↔ (A ⊎ B)) → (A ↔ X) → (C ↔ (X ⊎ B))
iff-first f g = (
  λ c. elim (f.0 c) [ inl a ↦ inl (g.0 a) | inr b ↦ inr b ],
  λ h. elim h [ inl x ↦ f.1 (inl (g.1 x)) | inr b ↦ f.1 (inr b) ],
)

iff-second : {A B C : Type 0} → (C ↔ (A ⊎ B)) → ¬ A → (C ↔ B)
iff-second f never = (λ c. elim (f.0 c) [ inl a ↦ absurd (never a) | inr b ↦ b ], λ b. f.1 (inr b))

body-direct :
    (agent : Option DefId) (body : Option TypedExpr) (e : Effect) (local : LocalEffects)
    → (elim body [ none ↦ agent_effects agent | some x ↦ inspect_expr x (agent_effects agent) ])
      ≡ local
    → HasDirect e local ↔ (AgentUses agent e ⊎ InBody (UsesAt e) body)
body-direct agent none e local same =
    subst (λ l. HasDirect e l ↔ (AgentUses agent e ⊎ ⊥)) same
      (
        (λ h. inl ((agent_effects-direct agent e).0 h)),
        (λ h. elim h [ inl a ↦ (agent_effects-direct agent e).1 a | inr b ↦ absurd b ]),
      )
body-direct agent (some x) e local same =
    subst (λ l. HasDirect e l ↔ (AgentUses agent e ⊎ InExpr (UsesAt e) x)) same
      (iff-first (inspect_expr-direct e x (agent_effects agent)) (agent_effects-direct agent e))

body-calls :
    (agent : Option DefId) (body : Option TypedExpr) (id : DefId) (local : LocalEffects)
    → (elim body [ none ↦ agent_effects agent | some x ↦ inspect_expr x (agent_effects agent) ])
      ≡ local
    → HasCall id local ↔ InBody (CallsAt id) body
body-calls agent none id local same =
    subst (λ l. HasCall id l ↔ ⊥) same ((λ h. agent_effects-calls agent id h), (λ h. absurd h))
body-calls agent (some x) id local same =
    subst (λ l. HasCall id l ↔ InExpr (CallsAt id) x) same
      (iff-second (inspect_expr-calls id x (agent_effects agent)) (agent_effects-calls agent id))

some-inj : {A : Type 0} {a b : A} → some a ≡ some b → a ≡ b
some-inj e = cc

-- The entry of a definition has its effects and its calls.
local_of-Uses :
    (kind : HirDefinitionKind) (local : LocalEffects)
    → local_of kind ≡ some local
    → (e : Effect) → HasDirect e local ↔ Uses kind e
unfolding function_effects pipeline_effects
local_of-Uses (HirDefinitionKind.function function) local same e =
    subst (λ l. HasDirect e l ↔ Uses (HirDefinitionKind.function function) e) (some-inj same)
      (iff-first (inspect_block-direct e function.body (of_function function.asynchronous))
        (of_function-direct function.asynchronous e))
local_of-Uses (HirDefinitionKind.pipeline pipeline) local same e =
    body-direct pipeline.agent pipeline.body e local (some-inj same)
local_of-Uses _ local same e = absurd (cc)

local_of-Calls :
    (kind : HirDefinitionKind) (local : LocalEffects)
    → local_of kind ≡ some local
    → (id : DefId) → HasCall id local ↔ Calls kind id
unfolding function_effects pipeline_effects
local_of-Calls (HirDefinitionKind.function function) local same id =
    subst (λ l. HasCall id l ↔ Calls (HirDefinitionKind.function function) id) (some-inj same)
      (iff-second (inspect_block-calls id function.body (of_function function.asynchronous))
        (of_function-calls function.asynchronous id))
local_of-Calls (HirDefinitionKind.pipeline pipeline) local same id =
    body-calls pipeline.agent pipeline.body id local (some-inj same)
local_of-Calls _ local same id = absurd (cc)

Uses-local_of :
    (kind : HirDefinitionKind) (e : Effect)
    → Uses kind e
    → (local : LocalEffects) × (local_of kind ≡ some local)
Uses-local_of (HirDefinitionKind.function function) e h = (function_effects function, refl)
Uses-local_of (HirDefinitionKind.pipeline pipeline) e h = (pipeline_effects pipeline, refl)
Uses-local_of _ e h = absurd h

Calls-local_of :
    (kind : HirDefinitionKind) (id : DefId)
    → Calls kind id
    → (local : LocalEffects) × (local_of kind ≡ some local)
Calls-local_of (HirDefinitionKind.function function) id h = (function_effects function, refl)
Calls-local_of (HirDefinitionKind.pipeline pipeline) id h = (pipeline_effects pipeline, refl)
Calls-local_of _ id h = absurd h

module _ (ds : List HirDefinition) where
  abbrev pub locals : Locals
  locals = (collect_definitions ds ([], [], [])).0

  entry-inv :
      (id : DefId) (local : LocalEffects)
      → Memᴰ (id, local) locals
      → (d : HirDefinition) × Memᴰ d ds × (d.id ≡ id) × (local_of d.kind ≡ some local)
  entry-inv id local m =
      elim (puts-inv (λ d. local_of d.kind) ds [] (id, local)
        (subst (λ t. Memᴰ (id, local) t) (collect-locals ds ([], [], [])) m)) [
          | inl from ↦ from
          | inr nothing ↦ elim nothing [ ]
        ]

  entry-new :
      (d : HirDefinition) (local : LocalEffects)
      → DistinctIds ds
      → Memᴰ d ds
      → local_of d.kind ≡ some local
      → Memᴰ (d.id, local) locals
  entry-new d local distinct m e =
      subst (λ t. Memᴰ (d.id, local) t) (sym (collect-locals ds ([], [], [])))
        (puts-new (λ d. local_of d.kind) ds [] d local distinct m e)

  pub Performs-Needs : (id : DefId) (e : Effect) → Performs locals id e → Needs ds id e
  Performs-Needs j x (itself id local e m h) =
      let (d, mem, same, at) = entry-inv id local m in
      own id d e mem same ((local_of-Uses d.kind local at e).0 h)
  Performs-Needs j x (through id local callee e m h p) =
      let (d, mem, same, at) = entry-inv id local m in
      called id d callee e mem same ((local_of-Calls d.kind local at callee).0 h)
        (Performs-Needs callee e p)

  pub Needs-Performs :
      DistinctIds ds → (id : DefId) (e : Effect) → Needs ds id e → Performs locals id e
  Needs-Performs distinct j x (own id d e mem same uses) =
      let (local, at) = Uses-local_of d.kind e uses in
      itself id local e
        (subst (λ i. Memᴰ (i, local) locals) same (entry-new d local distinct mem at))
        ((local_of-Uses d.kind local at e).1 uses)
  Needs-Performs distinct j x (called id d callee e mem same calls n) =
      let (local, at) = Calls-local_of d.kind callee calls in
      through id local callee e
        (subst (λ i. Memᴰ (i, local) locals) same (entry-new d local distinct mem at))
        ((local_of-Calls d.kind local at callee).1 calls) (Needs-Performs distinct callee e n)
