-- ===== src/Compiler/Effects/Needs.antt =====
-- The effects of a program's definitions, told by the parts of their bodies: what
-- crates/syllog-compiler/src/effects.rs infers.
pub mod Table
use mathlib.Core.List.{Memᴰ}
use syllog.Prelude.{
  String, Bool, true, false, List, [], ◌∷◌, Option, none, some, ◌≡◌, ◌↔◌, ◌⊎◌, inl, inr, refl, sym,
  subst, if◌then◌else◌,
}
use syllog.Ir.Syntax.{DefId}
use syllog.Ir.Capability.{Effect}
use syllog.Compiler.Hir.{TypedExpr, HirExprKind, HirDefinitionKind, HirDefinition}
use syllog.Compiler.Effects.{
  LocalEffects, no_local, add_direct, add_call, inspect_expr, inspect_block, DefId-Key,
}
use syllog.Compiler.Effects.Growth.{has-no_effects}
use syllog.Compiler.Effects.Infer.{Locals}
use syllog.Compiler.Effects.Exact.{Performs, itself, through}
use syllog.Compiler.Effects.Analyze.{
  function_effects, agent_effects, pipeline_effects, collect_definitions,
}
use syllog.Compiler.Effects.Parts.{InExpr, InBlock, UsesAt, CallsAt}
use syllog.Compiler.Effects.Parts.Inspect.{
  HasDirect, HasCall, add_direct_iff, inspect_expr-direct, inspect_expr-calls, inspect_block-direct,
  inspect_block-calls,
}
use syllog.Compiler.Effects.Collect.{
  DistinctIds, local_of, puts, puts-inv, puts-new, collect-locals,
}

-- A condition on some part of a pipeline's body, where it has one.
abbrev pub InBody : (HirExprKind → Type 0) → Option TypedExpr → Type 0
InBody P none = ⊥
InBody P (some body) = InExpr P body

-- The effects of a pipeline's agent.
abbrev pub AgentUses : Option DefId → Effect → Type 0
AgentUses none e = ⊥
AgentUses (some agent) e = (Effect.network ≡ e) ⊎ (Effect.provider ≡ e)

-- A definition has an effect by itself: an async function is asynchronous, a pipeline with an agent
-- needs the network and a provider, and a body has the effects of its parts.
abbrev pub Uses : HirDefinitionKind → Effect → Type 0
Uses (HirDefinitionKind.function function) e =
    ((function.asynchronous ≡ true) × (Effect.async ≡ e)) ⊎ InBlock (UsesAt e) function.body
Uses (HirDefinitionKind.pipeline pipeline) e =
    AgentUses pipeline.agent e ⊎ InBody (UsesAt e) pipeline.body
Uses _ e = ⊥

abbrev pub Calls : HirDefinitionKind → DefId → Type 0
Calls (HirDefinitionKind.function function) id = InBlock (CallsAt id) function.body
Calls (HirDefinitionKind.pipeline pipeline) id = InBody (CallsAt id) pipeline.body
Calls _ id = ⊥

-- A definition of a program needs the effects that it has by itself and those of what it calls.
pub data Needs (ds : List HirDefinition) : DefId → Effect → Type 0 where
  own :
      (id : DefId) (d : HirDefinition) (e : Effect)
      → Memᴰ d ds
      → d.id ≡ id
      → Uses d.kind e
      → Needs ds id e
  called :
      (id : DefId) (d : HirDefinition) (callee : DefId) (e : Effect)
      → Memᴰ d ds
      → d.id ≡ id
      → Calls d.kind callee
      → Needs ds callee e
      → Needs ds id e
