-- ===== src/Compiler/Effects/Exact.antt =====
-- Proofs about the effect inference of crates/syllog-compiler/src/effects.rs: it ends at the effects
-- that the call graph reaches.
use mathlib.Core.List.{Memᴰ}
use Prim.Native.Nat.{◌*◌}
use syllog.Prelude.{
  ℕ, zero, suc, ◌+◌, ◌≤◌, ◌<◌, Bool, true, false, ◌&&◌, ◌||◌, [], ◌∷◌, some, ◌≡◌, ◌≢◌, ◌↔◌, refl,
  sym, ap, ◌∙◌, ◌⊎◌, inl, inr, arith, All, All-members, Bool-cases, if◌then◌else◌, length, subst,
}
use syllog.Prelude.TreeMap.{TreeSet, lookup, member}
use syllog.Ir.Syntax.{DefId}
use syllog.Ir.Capability.{Effect}
use syllog.Compiler.Effects.{EffectSet, has, one_if, size, LocalEffects, DefId-Key}
use syllog.Compiler.Effects.Infer.{
  Inferred, Locals, or_default, effects_at, round, infer, direct_effects,
}
use syllog.Compiler.Effects.Growth.{any_call, gives, total, Rounded, round-Rounded, has-no_effects}

-- No definition has two entries.
abbrev pub Distinct : Locals → Type 0
Distinct [] = Unit
Distinct (entry ∷ rest) = All (λ other. other.0 ≢ entry.0) rest × Distinct rest

-- A definition performs its direct effects and those of the definitions that it calls.
pub data Performs (locals : Locals) : DefId → Effect → Type 0 where
  itself :
      (id : DefId) (local : LocalEffects) (e : Effect)
      → Memᴰ (id, local) locals
      → has local.direct e ≡ true
      → Performs locals id e
  through :
      (id : DefId) (local : LocalEffects) (callee : DefId) (e : Effect)
      → Memᴰ (id, local) locals
      → member local.calls callee ≡ true
      → Performs locals callee e
      → Performs locals id e

or-true : (a b : Bool) → (a || b) ≡ true → (a ≡ true) ⊎ (b ≡ true)
or-true true b h = inl refl
or-true false b h = inr h

any_call-inv :
    (snapshot : Inferred) (calls : TreeSet DefId) (e : Effect)
    → any_call snapshot calls e ≡ true
    → (callee : DefId) × (member calls callee ≡ true) × (has (effects_at snapshot callee) e ≡ true)
unfolding member
any_call-inv snapshot [] e h = absurd (cc)
any_call-inv snapshot (c ∷ calls) e h =
    elim (or-true (has (effects_at snapshot c) e) (any_call snapshot calls e) h) [
      | inl here ↦ (c, ground (arith, DefId-Key.eq_iff c c), here)
      | inr there ↦
          let (callee, m, p) = any_call-inv snapshot calls e there in (callee, ground arith, p)
    ]

any_call-member :
    (snapshot : Inferred) (calls : TreeSet DefId) (callee : DefId) (e : Effect)
    → member calls callee ≡ true
    → has (effects_at snapshot callee) e ≡ true
    → any_call snapshot calls e ≡ true
unfolding member
any_call-member snapshot [] callee e m h = absurd (cc)
any_call-member snapshot (c ∷ calls) callee e m h =
    elim (or-true (DefId-Key.eq c callee) (member calls callee) m) [
      | inl here ↦
          let at =
            subst (λ i. has (effects_at snapshot i) e ≡ true)
              (sym ((DefId-Key.eq_iff c callee).0 here)) h in
          ground arith
      | inr there ↦ ground (arith, any_call-member snapshot calls callee e there h)
    ]

gives-inv :
    (snapshot : Inferred) (locals : Locals) (id : DefId) (e : Effect)
    → gives snapshot locals id e ≡ true
    → (local : LocalEffects) × Memᴰ (id, local) locals × (any_call snapshot local.calls e ≡ true)
gives-inv snapshot [] id e h = absurd (cc)
gives-inv snapshot ((other, local) ∷ rest) id e h =
    elim (or-true (DefId-Key.eq other id && any_call snapshot local.calls e)
      (gives snapshot rest id e) h) [
        | inl here ↦
            let same : other ≡ id = (DefId-Key.eq_iff other id).0 (ground arith) in
            (local, Memᴰ.head (ap (λ i. (i, local)) (sym same)), ground arith)
        | inr there ↦ let (l, m, p) = gives-inv snapshot rest id e there in (l, Memᴰ.tail m, p)
      ]

gives-call :
    (snapshot : Inferred) (locals : Locals) (id : DefId) (local : LocalEffects) (e : Effect)
    → Memᴰ (id, local) locals
    → any_call snapshot local.calls e ≡ true
    → gives snapshot locals id e ≡ true
gives-call snapshot [] id local e m h = elim m [ ]
gives-call snapshot ((other, l) ∷ rest) id local e (Memᴰ.head p) h =
    let q = (DefId-Key.eq_iff other id).1 (sym (ap (λ x. x.0) p)) in
    let r : any_call snapshot l.calls e ≡ true =
      subst (λ x. any_call snapshot x.1.calls e ≡ true) p h in
    ground arith
gives-call snapshot ((other, l) ∷ rest) id local e (Memᴰ.tail m) h =
    ground (arith, gives-call snapshot rest id local e m h)

size_le : (s : EffectSet) → size s ≤ 5
size_le s = omega (
  arith,
  one_if_le s.alloc,
  one_if_le s.async,
  one_if_le s.io,
  one_if_le s.network,
  one_if_le s.provider,
)
  where
    one_if_le : (b : Bool) → one_if b ≤ 1
    one_if_le true = omega arith
    one_if_le false = omega arith

total_bound : (locals : Locals) (inferred : Inferred) → total locals inferred ≤ 5 * length locals
total_bound [] inferred = omega arith
total_bound ((id, local) ∷ rest) inferred =
    omega (arith, size_le (effects_at inferred id), total_bound rest inferred)

module _ (locals : Locals) where
  abbrev Sound : Inferred → Type 0
  Sound inferred =
      (id : DefId) (e : Effect) → has (effects_at inferred id) e ≡ true → Performs locals id e

  abbrev Includes : Inferred → Type 0
  Includes inferred =
      (id : DefId) (local : LocalEffects) (e : Effect)
      → Memᴰ (id, local) locals
      → has local.direct e ≡ true
      → has (effects_at inferred id) e ≡ true

  -- The inferred effects are exactly those that are performed.
  abbrev pub Exact : Inferred → Type 0
  Exact inferred =
      (id : DefId) (e : Effect) → (has (effects_at inferred id) e ≡ true) ↔ Performs locals id e

  module _ (inferred : Inferred) (sound : Sound inferred) (includes : Includes inferred) where
    rounded :
        Rounded inferred locals locals inferred false (round inferred locals (inferred, false))
    rounded = round-Rounded inferred locals locals inferred false (All-members locals)

    next-Sound : Sound (round inferred locals (inferred, false)).0
    next-Sound id e h =
        elim (or-true (has (effects_at inferred id) e) (gives inferred locals id e)
          (sym (rounded.contents id e) ∙ h)) [
            | inl old ↦ sound id e old
            | inr new ↦
                let (local, m, p) = gives-inv inferred locals id e new in
                let (callee, c, q) = any_call-inv inferred local.calls e p in
                through id local callee e m c (sound callee e q)
          ]

    next-Includes : Includes (round inferred locals (inferred, false)).0
    next-Includes id local e m h = ground (arith, rounded.contents id e, includes id local e m h)

    next-Exact :
        (round inferred locals (inferred, false)).1 ≡ false
        → Exact (round inferred locals (inferred, false)).0
    next-Exact quiet id e = (next-Sound id e, complete id e)
      where
        complete :
            (id : DefId) (e : Effect)
            → Performs locals id e
            → has (effects_at (round inferred locals (inferred, false)).0 id) e ≡ true
        complete id e (itself _ local _ m h) = next-Includes id local e m h
        complete id e (through _ local callee _ m c p) =
            let old = (rounded.quiet quiet).1 callee e (complete callee e p) in
            ground (
              arith,
              rounded.contents id e,
              gives-call inferred locals id local e m
                  (any_call-member inferred local.calls callee e c old),
            )

  -- The fixpoint ends, at the effects that are performed.
  infer-Exact :
      (fuel : ℕ) (inferred : Inferred)
      → Sound inferred
      → Includes inferred
      → 5 * length locals < fuel + total locals inferred
      → (result : Inferred) × (infer fuel locals inferred ≡ some result) × Exact result
  unfolding infer
  infer-Exact zero inferred sound includes h = absurd (omega (arith, total_bound locals inferred))
  infer-Exact (suc fuel) inferred sound includes h =
      let next = round inferred locals (inferred, false) in
      let rest = infer fuel locals next.0 in
      elim (Bool-cases next.1) [
        | inl changed ↦ elim ((rounded inferred sound includes).loud changed) [
          | inl no_change ↦ absurd (cc)
          | inr lt ↦
              let (result, e, exact) =
                infer-Exact fuel next.0 (next-Sound inferred sound includes)
                  (next-Includes inferred sound includes) (omega arith) in
              (result, ap (λ b. elim b [ true ↦ rest | false ↦ some next.0 ]) changed ∙ e, exact)
        ]
        | inr quiet ↦ (
          next.0,
          ap (λ b. elim b [ true ↦ rest | false ↦ some next.0 ]) quiet,
          next-Exact inferred sound includes quiet,
        )
      ]

direct-cons :
    (other : DefId) (local : LocalEffects) (rest : Locals) (id : DefId)
    → effects_at (direct_effects ((other, local) ∷ rest)) id
      ≡ (if DefId-Key.eq other id then local.direct else effects_at (direct_effects rest) id)
unfolding direct_effects effects_at lookup
direct-cons other local rest id =
    let found = lookup id (direct_effects rest) in
    elim (Bool-cases (DefId-Key.eq other id)) [
      | inl e ↦
          ap (λ b. or_default (if b then some local.direct else found)) e
          ∙ sym (ap (λ b. if b then local.direct else or_default found) e)
      | inr e ↦
          ap (λ b. or_default (if b then some local.direct else found)) e
          ∙ sym (ap (λ b. if b then local.direct else or_default found) e)
    ]

direct-here :
    (other : DefId) (local : LocalEffects) (rest : Locals) (id : DefId)
    → DefId-Key.eq other id ≡ true
    → (e : Effect)
    → has (effects_at (direct_effects ((other, local) ∷ rest)) id) e ≡ has local.direct e
direct-here other local rest id h e =
    ap (λ s. has s e)
      (direct-cons other local rest id
        ∙ ap (λ b. if b then local.direct else effects_at (direct_effects rest) id) h)

direct-later :
    (other : DefId) (local : LocalEffects) (rest : Locals) (id : DefId)
    → DefId-Key.eq other id ≡ false
    → (e : Effect)
    → has (effects_at (direct_effects ((other, local) ∷ rest)) id) e
      ≡ has (effects_at (direct_effects rest) id) e
direct-later other local rest id h e =
    ap (λ s. has s e)
      (direct-cons other local rest id
        ∙ ap (λ b. if b then local.direct else effects_at (direct_effects rest) id) h)

direct-nil : (id : DefId) (e : Effect) → has (effects_at (direct_effects []) id) e ≡ false
unfolding direct_effects effects_at lookup
direct-nil id e = has-no_effects e

direct-inv :
    (locals : Locals) (id : DefId) (e : Effect)
    → has (effects_at (direct_effects locals) id) e ≡ true
    → (local : LocalEffects) × Memᴰ (id, local) locals × (has local.direct e ≡ true)
direct-inv [] id e h = absurd (ground (arith, direct-nil id e))
direct-inv ((other, local) ∷ rest) id e h = elim (Bool-cases (DefId-Key.eq other id)) [
  | inl here ↦
      let same : other ≡ id = (DefId-Key.eq_iff other id).0 here in
      (
        local,
        Memᴰ.head (ap (λ i. (i, local)) (sym same)),
        sym (direct-here other local rest id here e) ∙ h,
      )
  | inr there ↦
      let (l, m, p) = direct-inv rest id e (sym (direct-later other local rest id there e) ∙ h) in
      (l, Memᴰ.tail m, p)
]

fresh_ne :
    (rest : Locals) (other id : DefId) (local : LocalEffects)
    → All (λ entry. entry.0 ≢ other) rest
    → Memᴰ (id, local) rest
    → other ≢ id
fresh_ne [] other id local f m e = elim m [ ]
fresh_ne (entry ∷ rest) other id local f (Memᴰ.head p) e = f.0 (sym (ap (λ x. x.0) p) ∙ sym e)
fresh_ne (entry ∷ rest) other id local f (Memᴰ.tail m) e = fresh_ne rest other id local f.1 m e

direct-Includes :
    (locals : Locals)
    → Distinct locals
    → (id : DefId) (local : LocalEffects) (e : Effect) → Memᴰ (id, local) locals
    → has local.direct e ≡ true
    → has (effects_at (direct_effects locals) id) e ≡ true
direct-Includes [] d id local e m h = elim m [ ]
direct-Includes ((other, l) ∷ rest) d id local e (Memᴰ.head p) h =
    let same = (DefId-Key.eq_iff other id).1 (sym (ap (λ x. x.0) p)) in
    direct-here other l rest id same e ∙ subst (λ x. has x.1.direct e ≡ true) p h
direct-Includes ((other, l) ∷ rest) d id local e (Memᴰ.tail m) h =
    elim (Bool-cases (DefId-Key.eq other id)) [
      | inl here ↦ absurd (fresh_ne rest other id local d.0 m ((DefId-Key.eq_iff other id).0 here))
      | inr there ↦ direct-later other l rest id there e ∙ direct-Includes rest d.1 id local e m h
    ]

-- Where no definition has two entries, the inference ends on fuel above five times their number, and
-- what it infers for a definition is exactly what the definition performs: its direct effects and, by any
-- chain of calls, those of the definitions that it reaches.
pub infer-Performs :
    (fuel : ℕ) (locals : Locals)
    → Distinct locals
    → 5 * length locals < fuel
    → (result : Inferred) × (infer fuel locals (direct_effects locals) ≡ some result)
      × ((id : DefId) (e : Effect) → (has (effects_at result id) e ≡ true) ↔ Performs locals id e)
infer-Performs fuel locals d h =
    infer-Exact locals fuel (direct_effects locals)
      (λ id e p. let (local, m, q) = direct-inv locals id e p in itself id local e m q)
      (direct-Includes locals d) (omega arith)
