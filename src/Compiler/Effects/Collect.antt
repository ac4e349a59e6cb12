-- ===== src/Compiler/Effects/Collect.antt =====
-- What the first loop of `analyze_effects` of crates/syllog-compiler/src/effects.rs collects of the
-- definitions of a program.
use mathlib.Core.List.{Memᴰ}
use syllog.Prelude.{
  List, [], ◌∷◌, ◌++◌, Option, none, some, ◌≡◌, ◌≢◌, ◌⊎◌, inl, inr, refl, sym, ap, ◌∙◌, subst, All,
  if-cases,
}
use syllog.Prelude.TreeMap.{TreeMap, insert}
use syllog.Ir.Syntax.{DefId}
use syllog.Compiler.Types.{Span}
use syllog.Compiler.Hir.{HirDefinitionKind, HirDefinition}
use syllog.Compiler.Effects.{EffectSet, EffectError, LocalEffects, DefId-Key}
use syllog.Compiler.Effects.Analyze.{
  Collected, parse_declaration, function_effects, pipeline_effects, collect_kind,
  collect_definition, collect_definitions,
}

-- No two definitions have the same id.
abbrev pub DistinctIds : List HirDefinition → Type 0
DistinctIds [] = Unit
DistinctIds (d ∷ rest) = All (λ other. d.id ≢ other.id) rest × DistinctIds rest

-- The entries of a kind of definition in the three tables.
abbrev pub local_of : HirDefinitionKind → Option LocalEffects
local_of (HirDefinitionKind.function function) = some (function_effects function)
local_of (HirDefinitionKind.pipeline pipeline) = some (pipeline_effects pipeline)
local_of _ = none

abbrev pub declared_of : Span → HirDefinitionKind → Option (Option EffectSet × Span)
declared_of span (HirDefinitionKind.function function) =
    some ((parse_declaration function.declared_effects span).0, span)
declared_of span _ = none

abbrev pub errors_of : Span → HirDefinitionKind → List EffectError
errors_of span (HirDefinitionKind.function function) =
    (parse_declaration function.declared_effects span).1
errors_of span _ = []

module _ {V : Type 0} where
  mem-insert : (k : DefId) (v : V) (m : TreeMap DefId V) → Memᴰ (k, v) (insert k v m)
  unfolding insert
  mem-insert k v [] = Memᴰ.head refl
  mem-insert k v ((j, w) ∷ m) =
      if-cases (Memᴰ (k, v)) (DefId-Key.lt k j) (λ lt. Memᴰ.head refl)
        (λ _.
          if-cases (Memᴰ (k, v)) (DefId-Key.eq j k) (λ same. Memᴰ.head refl)
            (λ other. Memᴰ.tail (mem-insert k v m)))

  mem-insert-keep :
      (k : DefId) (v : V) (entry : DefId × V) (m : TreeMap DefId V)
      → k ≢ entry.0
      → Memᴰ entry m
      → Memᴰ entry (insert k v m)
  unfolding insert
  mem-insert-keep k v entry [] ne h = elim h [ ]
  mem-insert-keep k v entry ((j, w) ∷ m) ne h =
      if-cases (Memᴰ entry) (DefId-Key.lt k j) (λ lt. Memᴰ.tail h)
        (λ _.
          if-cases (Memᴰ entry) (DefId-Key.eq j k)
            (λ same. elim h [
              | Memᴰ.head e ↦
                  absurd (ne (sym ((DefId-Key.eq_iff j k).0 same) ∙ sym (ap (λ x. x.0) e)))
              | Memᴰ.tail r ↦ Memᴰ.tail r
            ])
            (λ other. elim h [
              | Memᴰ.head e ↦ Memᴰ.head e
              | Memᴰ.tail r ↦ Memᴰ.tail (mem-insert-keep k v entry m ne r)
            ]))

  mem-insert-inv :
      (k : DefId) (v : V) (entry : DefId × V) (m : TreeMap DefId V)
      → Memᴰ entry (insert k v m)
      → (entry ≡ (k, v)) ⊎ Memᴰ entry m
  unfolding insert
  mem-insert-inv k v entry [] (Memᴰ.head e) = inl e
  mem-insert-inv k v entry [] (Memᴰ.tail r) = elim r [ ]
  mem-insert-inv k v entry ((j, w) ∷ m) h =
      if-cases (λ n. Memᴰ entry n → (entry ≡ (k, v)) ⊎ Memᴰ entry ((j, w) ∷ m)) (DefId-Key.lt k j)
        (λ _ i. elim i [ Memᴰ.head e ↦ inl e | Memᴰ.tail r ↦ inr r ])
        (λ _.
          if-cases (λ n. Memᴰ entry n → (entry ≡ (k, v)) ⊎ Memᴰ entry ((j, w) ∷ m))
            (DefId-Key.eq j k)
            (λ _ i. elim i [ Memᴰ.head e ↦ inl e | Memᴰ.tail r ↦ inr (Memᴰ.tail r) ])
            (λ _ i. elim i [
              | Memᴰ.head e ↦ inr (Memᴰ.head e)
              | Memᴰ.tail r ↦ elim (mem-insert-inv k v entry m r) [
                | inl new ↦ inl new
                | inr old ↦ inr (Memᴰ.tail old)
              ]
            ]))
        h

  -- An entry, where there is one, is inserted.
  abbrev pub put : DefId → Option V → TreeMap DefId V → TreeMap DefId V
  put id none m = m
  put id (some v) m = insert id v m

  module _ (entry_of : HirDefinition → Option V) where
    abbrev pub puts : List HirDefinition → TreeMap DefId V → TreeMap DefId V
    puts [] m = m
    puts (d ∷ rest) m = puts rest (put d.id (entry_of d) m)

    -- An entry that comes from a definition of a list.
    abbrev pub From : List HirDefinition → DefId × V → Type 0
    From ds entry = (d : HirDefinition) × Memᴰ d ds × (d.id ≡ entry.0) × (entry_of d ≡ some entry.1)

    put-inv :
        (id : DefId) (o : Option V) (m : TreeMap DefId V) (entry : DefId × V)
        → Memᴰ entry (put id o m)
        → ((id ≡ entry.0) × (o ≡ some entry.1)) ⊎ Memᴰ entry m
    put-inv id none m entry h = inr h
    put-inv id (some v) m entry h = elim (mem-insert-inv id v entry m h) [
      | inl e ↦ inl (sym (ap (λ x. x.0) e), ap some (sym (ap (λ x. x.1) e)))
      | inr old ↦ inr old
    ]

    pub puts-inv :
        (ds : List HirDefinition) (m : TreeMap DefId V) (entry : DefId × V)
        → Memᴰ entry (puts ds m)
        → From ds entry ⊎ Memᴰ entry m
    puts-inv [] m entry h = inr h
    puts-inv (d ∷ rest) m entry h = elim (puts-inv rest (put d.id (entry_of d) m) entry h) [
      | inl (f, mem, i, e) ↦ inl (f, Memᴰ.tail mem, i, e)
      | inr now ↦ elim (put-inv d.id (entry_of d) m entry now) [
        | inl (i, e) ↦ inl (d, Memᴰ.head refl, i, e)
        | inr old ↦ inr old
      ]
    ]

    put-keep :
        (id : DefId) (o : Option V) (m : TreeMap DefId V) (entry : DefId × V)
        → id ≢ entry.0
        → Memᴰ entry m
        → Memᴰ entry (put id o m)
    put-keep id none m entry ne h = h
    put-keep id (some v) m entry ne h = mem-insert-keep id v entry m ne h

    puts-keep :
        (ds : List HirDefinition) (m : TreeMap DefId V) (entry : DefId × V)
        → All (λ d. entry.0 ≢ d.id) ds
        → Memᴰ entry m
        → Memᴰ entry (puts ds m)
    puts-keep [] m entry ne h = h
    puts-keep (d ∷ rest) m entry ne h =
        puts-keep rest (put d.id (entry_of d) m) entry ne.1
          (put-keep d.id (entry_of d) m entry (λ e. ne.0 (sym e)) h)

    pub puts-new :
        (ds : List HirDefinition) (m : TreeMap DefId V) (d : HirDefinition) (v : V)
        → DistinctIds ds
        → Memᴰ d ds
        → entry_of d ≡ some v
        → Memᴰ (d.id, v) (puts ds m)
    puts-new (x ∷ rest) m d v distinct (Memᴰ.tail mem) e =
        puts-new rest (put x.id (entry_of x) m) d v distinct.1 mem e
    puts-new (x ∷ rest) m d v distinct (Memᴰ.head same) e =
        puts-keep rest (put x.id (entry_of x) m) (d.id, v)
          (subst (λ y. All (λ other. y.id ≢ other.id) rest) (sym same) distinct.0)
          (subst (λ o. Memᴰ (d.id, v) (put x.id o m))
            (sym (subst (λ y. entry_of y ≡ some v) same e))
            (subst (λ y. Memᴰ (d.id, v) (put y.id (some v) m)) same (mem-insert d.id v m)))
    puts-new [] m d v distinct mem e = elim mem [ ]

abbrev pub all_errors : List HirDefinition → List EffectError
all_errors [] = []
all_errors (d ∷ rest) = errors_of d.span d.kind ++ all_errors rest

append_nil : {A : Type 0} (xs : List A) → xs ++ [] ≡ xs
append_nil [] = refl
append_nil (x ∷ xs) = ap (λ l. x ∷ l) (append_nil xs)

append_assoc : {A : Type 0} (xs ys zs : List A) → (xs ++ ys) ++ zs ≡ xs ++ (ys ++ zs)
append_assoc [] ys zs = refl
append_assoc (x ∷ xs) ys zs = ap (λ l. x ∷ l) (append_assoc xs ys zs)

collect_kind-tables :
    (id : DefId) (span : Span) (kind : HirDefinitionKind) (c : Collected)
    → ((collect_kind id span kind c).0 ≡ put id (local_of kind) c.0)
      × ((collect_kind id span kind c).1 ≡ put id (declared_of span kind) c.1)
      × ((collect_kind id span kind c).2 ≡ c.2 ++ errors_of span kind)
unfolding collect_kind
collect_kind-tables id span (HirDefinitionKind.function function) c = (refl, refl, refl)
collect_kind-tables id span (HirDefinitionKind.pipeline pipeline) c =
    (refl, refl, sym (append_nil c.2))
collect_kind-tables id span _ c = (refl, refl, sym (append_nil c.2))

-- The tables that are collected, from those of a definition each.
pub collect-locals :
    (ds : List HirDefinition) (c : Collected)
    → (collect_definitions ds c).0 ≡ puts (λ d. local_of d.kind) ds c.0
unfolding collect_definitions collect_definition
collect-locals [] c = refl
collect-locals (d ∷ ds) c =
    collect-locals ds (collect_definition d c)
    ∙ ap (puts (λ d. local_of d.kind) ds) (collect_kind-tables d.id d.span d.kind c).0

pub collect-declared :
    (ds : List HirDefinition) (c : Collected)
    → (collect_definitions ds c).1 ≡ puts (λ d. declared_of d.span d.kind) ds c.1
unfolding collect_definitions collect_definition
collect-declared [] c = refl
collect-declared (d ∷ ds) c =
    collect-declared ds (collect_definition d c)
    ∙ ap (puts (λ d. declared_of d.span d.kind) ds) (collect_kind-tables d.id d.span d.kind c).1

pub collect-errors :
    (ds : List HirDefinition) (c : Collected) → (collect_definitions ds c).2 ≡ c.2 ++ all_errors ds
unfolding collect_definitions collect_definition
collect-errors [] c = sym (append_nil c.2)
collect-errors (d ∷ ds) c =
    collect-errors ds (collect_definition d c)
    ∙ ap (λ es. es ++ all_errors ds) (collect_kind-tables d.id d.span d.kind c).2
    ∙ append_assoc c.2 (errors_of d.span d.kind) (all_errors ds)
