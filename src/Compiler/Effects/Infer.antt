-- ===== src/Compiler/Effects/Infer.antt =====
-- crates/syllog-compiler/src/effects.rs: the fixpoint of `analyze_effects`, on fuel.
use syllog.Prelude.{
  ℕ, zero, suc, Bool, true, false, not, ◌||◌, [], ◌∷◌, map, Option, none, some, ◌==◌,
}
use syllog.Prelude.TreeMap.{TreeMap, TreeSet, lookup, insert}
use syllog.Ir.Syntax.{DefId}
use syllog.Compiler.Effects.{EffectSet, no_effects, union, size, LocalEffects, DefId-Key}

abbrev pub Inferred : Type 0
Inferred = TreeMap DefId EffectSet

abbrev pub Locals : Type 0
Locals = TreeMap DefId LocalEffects

-- `or_default()`
abbrev pub or_default : Option EffectSet → EffectSet
or_default none = no_effects
or_default (some effects) = effects

unfoldable pub effects_at : Inferred → DefId → EffectSet
effects_at inferred id = or_default (lookup id inferred)

-- The effects of the callees are added to a target; the flag tells whether it grew.
unfoldable pub extend_calls : Inferred → TreeSet DefId → EffectSet × Bool → EffectSet × Bool
extend_calls snapshot [] s = s
extend_calls snapshot (callee ∷ calls) (target, changed) = elim (lookup callee snapshot) [
  | none ↦ extend_calls snapshot calls (target, changed)
  | some effects ↦
      extend_calls snapshot calls
        (union target effects, changed || not (size (union target effects) == size target))
]

unfoldable pub round : Inferred → Locals → Inferred × Bool → Inferred × Bool
round snapshot [] s = s
round snapshot ((id, local) ∷ rest) (inferred, changed) =
    let extended = extend_calls snapshot local.calls (effects_at inferred id, changed) in
    round snapshot rest (insert id extended.0 inferred, extended.1)

unfoldable pub infer : ℕ → Locals → Inferred → Option Inferred
infer zero locals inferred = none
infer (suc fuel) locals inferred =
    let next = round inferred locals (inferred, false) in
    let rest = infer fuel locals next.0 in elim next.1 [ true ↦ rest | false ↦ some next.0 ]

unfoldable pub direct_effects : Locals → Inferred
direct_effects locals = map (λ entry. (entry.0, entry.1.direct)) locals
