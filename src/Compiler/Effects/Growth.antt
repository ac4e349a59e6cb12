-- ===== src/Compiler/Effects/Growth.antt =====
-- Proofs about one round of the effect inference of crates/syllog-compiler/src/effects.rs.
use mathlib.Core.List.{Memᴰ}
use syllog.Prelude.{
  ℕ, ◌+◌, ◌≤◌, ◌<◌, Bool, true, false, not, ◌&&◌, ◌||◌, [], ◌∷◌, none, some, ◌==◌, ◌≡◌, refl, sym,
  ap, ◌∙◌, ◌⊎◌, inl, inr, arith, All, Bool-cases, Option-elim, if◌then◌else◌, subst,
}
use syllog.Prelude.TreeMap.{TreeSet, lookup, insert, lookup-insert}
use syllog.Ir.Syntax.{DefId}
use syllog.Ir.Capability.{Effect}
use syllog.Compiler.Effects.{
  EffectSet, no_effects, has, union, one_if, size, LocalEffects, DefId-Key,
}
use syllog.Compiler.Effects.Infer.{Inferred, Locals, or_default, effects_at, extend_calls, round}

-- Set inclusion.
abbrev pub Within : EffectSet → EffectSet → Type 0
Within s t = (e : Effect) → has s e ≡ true → has t e ≡ true

pub has-union : (s t : EffectSet) (e : Effect) → has (union s t) e ≡ (has s e || has t e)
has-union s t Effect.alloc = refl
has-union s t Effect.async = refl
has-union s t Effect.io = refl
has-union s t Effect.network = refl
has-union s t Effect.provider = refl

one_if-or_le : (a b : Bool) → one_if a ≤ one_if (a || b)
one_if-or_le true b = omega arith
one_if-or_le false b = omega arith

one_if-or_eq : (a b : Bool) → one_if (a || b) ≡ one_if a → b ≡ true → a ≡ true
one_if-or_eq true b h t = refl
one_if-or_eq false true h t = absurd (omega arith)
one_if-or_eq false false h t = t

size-union_le : (s t : EffectSet) → size s ≤ size (union s t)
size-union_le s t = omega (
  arith,
  one_if-or_le s.alloc t.alloc,
  one_if-or_le s.async t.async,
  one_if-or_le s.io t.io,
  one_if-or_le s.network t.network,
  one_if-or_le s.provider t.provider,
)

-- A union that is not larger adds nothing.
size-union_eq : (s t : EffectSet) → size (union s t) ≡ size s → Within t s
size-union_eq s t h e m =
    let a = one_if-or_le s.alloc t.alloc in
    let b = one_if-or_le s.async t.async in
    let c = one_if-or_le s.io t.io in
    let d = one_if-or_le s.network t.network in
    let f = one_if-or_le s.provider t.provider in at_effect a b c d f e m
  where
    at_effect :
        one_if s.alloc ≤ one_if (s.alloc || t.alloc)
        → one_if s.async ≤ one_if (s.async || t.async)
        → one_if s.io ≤ one_if (s.io || t.io)
        → one_if s.network ≤ one_if (s.network || t.network)
        → one_if s.provider ≤ one_if (s.provider || t.provider)
        → (e : Effect) → has t e ≡ true
        → has s e ≡ true
    at_effect a b c d f Effect.alloc m = one_if-or_eq s.alloc t.alloc (omega (arith, h)) m
    at_effect a b c d f Effect.async m = one_if-or_eq s.async t.async (omega (arith, h)) m
    at_effect a b c d f Effect.io m = one_if-or_eq s.io t.io (omega (arith, h)) m
    at_effect a b c d f Effect.network m = one_if-or_eq s.network t.network (omega (arith, h)) m
    at_effect a b c d f Effect.provider m = one_if-or_eq s.provider t.provider (omega (arith, h)) m

-- Whether some callee has the effect.
abbrev pub any_call : Inferred → TreeSet DefId → Effect → Bool
any_call snapshot [] e = false
any_call snapshot (callee ∷ calls) e =
    has (effects_at snapshot callee) e || any_call snapshot calls e

pub has-no_effects : (e : Effect) → has no_effects e ≡ false
has-no_effects Effect.alloc = refl
has-no_effects Effect.async = refl
has-no_effects Effect.io = refl
has-no_effects Effect.network = refl
has-no_effects Effect.provider = refl

has-effects_at-none :
    (inferred : Inferred) (id : DefId)
    → lookup id inferred ≡ none
    → (e : Effect) → has (effects_at inferred id) e ≡ false
unfolding effects_at
has-effects_at-none inferred id p e = ap (λ found. has (or_default found) e) p ∙ has-no_effects e

has-effects_at-some :
    (inferred : Inferred) (id : DefId) (effects : EffectSet)
    → lookup id inferred ≡ some effects
    → (e : Effect) → has (effects_at inferred id) e ≡ has effects e
unfolding effects_at
has-effects_at-some inferred id effects p e = ap (λ found. has (or_default found) e) p

or-Within :
    (s t : EffectSet)
    → size (union s t) ≡ size s
    → (e : Effect) → has (union s t) e ≡ true
    → has s e ≡ true
or-Within s t h e m = ground (arith, has-union s t e, size-union_eq s t h e)

flag-quiet : (a b : Bool) → (a || b) ≡ false → a ≡ false
flag-quiet a b h = ground arith

flag-same : (a : Bool) (n m : ℕ) → (a || not (n == m)) ≡ false → n ≡ m
flag-same a n m h = ground arith

flag-loud :
    (a : Bool) (n m k : ℕ) → m ≤ n → n ≤ k → (a || not (n == m)) ≡ true → (a ≡ true) ⊎ (m < k)
flag-loud true n m k p q h = inl refl
flag-loud false n m k p q h = inr (ground arith)

module _ (snapshot : Inferred) where
  -- A record of what the extension of a target comes to.
  pub record Extended (calls : TreeSet DefId) (target : EffectSet) (changed : Bool)
      (after : EffectSet × Bool) : Type 0 where
    pub contents : (e : Effect) → has after.0 e ≡ (has target e || any_call snapshot calls e)
    pub grows : size target ≤ size after.0
    pub quiet : after.1 ≡ false → (changed ≡ false) × Within after.0 target
    pub loud : after.1 ≡ true → (changed ≡ true) ⊎ (size target < size after.0)

  pub extend_calls-Extended :
      (calls : TreeSet DefId) (target : EffectSet) (changed : Bool)
      → Extended calls target changed (extend_calls snapshot calls (target, changed))
  unfolding extend_calls effects_at
  extend_calls-Extended [] target changed = record {
    contents = λ e. ground arith;
    grows = omega arith;
    quiet = λ h. (h, λ e m. m);
    loud = λ h. inl h;
  }
  extend_calls-Extended (callee ∷ calls) target changed =
      Option-elim (Extended (callee ∷ calls) target changed) (lookup callee snapshot)
        (λ p.
          let ih = extend_calls-Extended calls target changed in
          record {
            contents = λ e. ground (arith, ih.contents e, has-effects_at-none snapshot callee p e);
            grows = ih.grows;
            quiet = ih.quiet;
            loud = ih.loud;
          })
        (λ effects p.
          let ih =
            extend_calls-Extended calls (union target effects)
              (changed || not (size (union target effects) == size target)) in
          let grown = size-union_le target effects in
          record {
            contents = λ e. ground (
              arith,
              ih.contents e,
              has-effects_at-some snapshot callee effects p e,
              has-union target effects e,
            );
            grows = omega (arith, ih.grows);
            quiet = λ h.
                let (q, w) = ih.quiet h in
                let same : size (union target effects) ≡ size target =
                  flag-same changed (size (union target effects)) (size target) q in
                (
                  flag-quiet changed (not (size (union target effects) == size target)) q,
                  λ e m. or-Within target effects same e (w e m),
                );
            loud = λ h. elim (ih.loud h) [
              | inl c ↦
                  flag-loud changed (size (union target effects)) (size target) (size _) grown
                    ih.grows c
              | inr lt ↦ inr (omega arith)
            ];
          })

-- The effects of a definition after an insertion.
pub effects_at-insert :
    (id other : DefId) (s : EffectSet) (inferred : Inferred)
    → effects_at (insert id s inferred) other
      ≡ (if DefId-Key.eq id other then s else effects_at inferred other)
unfolding effects_at
effects_at-insert id other s inferred = elim (Bool-cases (DefId-Key.eq id other)) [
  | inl e ↦
      let found : lookup other (insert id s inferred) ≡ some s =
        ground (arith, lookup-insert id other s inferred) in
      ap or_default found ∙ ap (λ b. if b then s else or_default (lookup other inferred)) (sym e)
  | inr e ↦
      let kept : lookup other (insert id s inferred) ≡ lookup other inferred =
        ground (arith, lookup-insert id other s inferred) in
      ap or_default kept ∙ ap (λ b. if b then s else or_default (lookup other inferred)) (sym e)
]

-- What the entries of some locals give to a definition through their calls.
abbrev pub gives : Inferred → Locals → DefId → Effect → Bool
gives snapshot [] id e = false
gives snapshot ((other, local) ∷ rest) id e =
    (DefId-Key.eq other id && any_call snapshot local.calls e) || gives snapshot rest id e

-- The sizes of the sets of all definitions with an entry.
abbrev pub total : Locals → Inferred → ℕ
total [] inferred = 0
total ((id, local) ∷ rest) inferred = size (effects_at inferred id) + total rest inferred

module _ (before after : Inferred)
    (grows : (id : DefId) → size (effects_at before id) ≤ size (effects_at after id)) where
  pub total_le : (locals : Locals) → total locals before ≤ total locals after
  total_le [] = omega arith
  total_le ((id, local) ∷ rest) = omega (arith, grows id, total_le rest)

  pub total_lt :
      (locals : Locals) (id : DefId) (local : LocalEffects)
      → Memᴰ (id, local) locals
      → size (effects_at before id) < size (effects_at after id)
      → total locals before < total locals after
  total_lt ((other, l) ∷ rest) id local (Memᴰ.head e) h =
      let same : id ≡ other = ap (λ x. x.0) e in
      omega (
        arith,
        total_le rest,
        subst (λ i. size (effects_at before i) < size (effects_at after i)) same h,
      )
  total_lt ((other, l) ∷ rest) id local (Memᴰ.tail m) h =
      omega (arith, grows other, total_lt rest id local m h)
  total_lt [] id local m h = elim m [ ]

-- One entry of the locals.
module _ (snapshot : Inferred) (id : DefId) (local : LocalEffects) (before : Inferred)
    (changed : Bool) where
  abbrev pub extended : EffectSet × Bool
  extended = extend_calls snapshot local.calls (effects_at before id, changed)

  abbrev pub next : Inferred
  next = insert id extended.0 before

  is_extended : Extended snapshot local.calls (effects_at before id) changed extended
  is_extended = extend_calls-Extended snapshot local.calls (effects_at before id) changed

  next_cases :
      (j : DefId)
      → ((DefId-Key.eq id j ≡ true) × (id ≡ j) × (effects_at next j ≡ extended.0))
        ⊎ ((DefId-Key.eq id j ≡ false) × (effects_at next j ≡ effects_at before j))
  next_cases j = elim (Bool-cases (DefId-Key.eq id j)) [
    | inl e ↦ inl (
      e,
      (DefId-Key.eq_iff id j).0 e,
      effects_at-insert id j extended.0 before
          ∙ ap (λ b. if b then extended.0 else effects_at before j) e,
    )
    | inr e ↦ inr (
      e,
      effects_at-insert id j extended.0 before
          ∙ ap (λ b. if b then extended.0 else effects_at before j) e,
    )
  ]

  pub next-has :
      (j : DefId) (e : Effect)
      → has (effects_at next j) e
        ≡ (has (effects_at before j) e || (DefId-Key.eq id j && any_call snapshot local.calls e))
  next-has j e = elim (next_cases j) [
    | inl (q, same, at) ↦
        let a = ap (λ s. has s e) at in
        let b = ap (λ i. has (effects_at before i) e) same in
        ground (arith, a, b, q, is_extended.contents e)
    | inr (q, at) ↦ let a = ap (λ s. has s e) at in ground (arith, a, q)
  ]

  pub next-size : (j : DefId) → size (effects_at before j) ≤ size (effects_at next j)
  next-size j = elim (next_cases j) [
    | inl (q, same, at) ↦
        let a = ap size at in
        let b = ap (λ i. size (effects_at before i)) same in omega (arith, a, b, is_extended.grows)
    | inr (q, at) ↦ let a = ap size at in omega (arith, a)
  ]

  pub next-quiet :
      extended.1 ≡ false → (j : DefId) → Within (effects_at next j) (effects_at before j)
  next-quiet h j e m = elim (next_cases j) [
    | inl (q, same, at) ↦
        subst (λ i. has (effects_at before i) e ≡ true) same
          ((is_extended.quiet h).1 e (sym (ap (λ s. has s e) at) ∙ m))
    | inr (q, at) ↦ sym (ap (λ s. has s e) at) ∙ m
  ]

  pub next-loud :
      (all : Locals)
      → Memᴰ (id, local) all
      → extended.1 ≡ true
      → (changed ≡ true) ⊎ (total all before < total all next)
  next-loud all m h = elim (is_extended.loud h) [
    | inl c ↦ inl c
    | inr lt ↦ elim (next_cases id) [
      | inl (q, same, at) ↦
          let a = ap size at in
          inr (total_lt before next next-size all id local m (omega (arith, a)))
      | inr (q, at) ↦ absurd (ground (arith, DefId-Key.eq_iff id id))
    ]
  ]

module _ (snapshot : Inferred) (all : Locals) where
  pub record Rounded (locals : Locals) (before : Inferred) (changed : Bool)
      (after : Inferred × Bool) : Type 0 where
    pub contents :
        (id : DefId) (e : Effect)
        → has (effects_at after.0 id) e
          ≡ (has (effects_at before id) e || gives snapshot locals id e)
    pub grows : (id : DefId) → size (effects_at before id) ≤ size (effects_at after.0 id)
    pub quiet :
        after.1 ≡ false
        → (changed ≡ false) × ((id : DefId) → Within (effects_at after.0 id) (effects_at before id))
    pub loud : after.1 ≡ true → (changed ≡ true) ⊎ (total all before < total all after.0)

  pub round-Rounded :
      (locals : Locals) (before : Inferred) (changed : Bool)
      → All (λ entry. Memᴰ entry all) locals
      → Rounded locals before changed (round snapshot locals (before, changed))
  unfolding round
  round-Rounded [] before changed h = record {
    contents = λ id e. ground arith;
    grows = λ id. omega arith;
    quiet = λ q. (q, λ id e m. m);
    loud = λ l. inl l;
  }
  round-Rounded ((id, local) ∷ rest) before changed h =
      let ih =
        round-Rounded rest (next snapshot id local before changed)
          (extended snapshot id local before changed).1 h.1 in
      record {
        contents =
            λ j e. ground (arith, ih.contents j e, next-has snapshot id local before changed j e);
        grows = λ j. omega (arith, ih.grows j, next-size snapshot id local before changed j);
        quiet = λ q.
            let (e, w) = ih.quiet q in
            (
              ((is_extended snapshot id local before changed).quiet e).0,
              λ j e' m. next-quiet snapshot id local before changed e j e' (w j e' m),
            );
        loud = λ l. elim (ih.loud l) [
          | inl e ↦ elim (next-loud snapshot id local before changed all h.0 e) [
            | inl c ↦ inl c
            | inr lt ↦
                inr (omega (arith, total_le (next snapshot id local before changed) _ ih.grows all))
          ]
          | inr lt ↦ inr (
              omega (
                arith,
                total_le before (next snapshot id local before changed)
                    (next-size snapshot id local before changed) all,
              ))
        ];
      }
