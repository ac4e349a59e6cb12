-- ===== src/Compiler/Effects/Declared.antt =====
-- The bounds that functions declare, told by their names, and what `parse_declaration` of
-- crates/syllog-compiler/src/effects.rs makes of them.
pub mod Malformed
use mathlib.Core.List.{Memᴰ}
use text.Mathlib.Text.{◌==◌ as string_eq}
use syllog.Prelude.{
  String, Bool, true, false, not, ◌&&◌, List, [], ◌∷◌, ◌++◌, Option, none, some, ◌≡◌, ◌≢◌, ◌↔◌, ◌⊎◌,
  inl, inr, refl, sym, ◌∙◌, subst, arith, length, ◌==◌, if-cases, Option-elim, ◌||◌, if◌then◌else◌,
}
use syllog.Prelude.Text.{◌<>◌}
use syllog.Prelude.TreeMap.{TreeSet, member, add, member-add, String-Key}
use syllog.Ir.Capability.{Effect, from_source, as_str, from_source_iff}
use syllog.Compiler.Types.{Span}
use syllog.Compiler.Effects.{EffectSet, no_effects, has, add_direct, LocalEffects, EffectError}
use syllog.Compiler.Effects.Growth.{has-no_effects}
use syllog.Compiler.Effects.Analyze.{
  effect_error, any_pure, parse_name, parse_names, parse_declaration,
}
use syllog.Compiler.Effects.Parts.Inspect.{add_direct_iff}

-- A declaration lists an effect: one of its names is the effect's spelling.
abbrev pub Lists : List String → Effect → Type 0
Lists names e = (name : String) × Memᴰ name names × (name ≡ as_str e)

-- One of the names is neither `pure` nor an effect's spelling.
abbrev pub IsUnknown : String → Type 0
IsUnknown name = (name ≢ "pure") × ((e : Effect) → name ≢ as_str e)

abbrev pub Repeats : List String → Type 0
Repeats [] = ⊥
Repeats (name ∷ rest) = Memᴰ name rest ⊎ Repeats rest

-- A declaration has an unknown name, the same name twice, or `pure` beside other names.
pub data IsMalformed (names : List String) : Type 0 where
  unknown : (name : String) → Memᴰ name names → IsUnknown name → IsMalformed names
  repeated : Repeats names → IsMalformed names
  mixed : Memᴰ "pure" names → length names ≢ 1 → IsMalformed names

pure-ne-as_str : (name : String) (e : Effect) → string_eq name "pure" ≡ true → name ≢ as_str e
unfolding from_source String-Key
pure-ne-as_str name e h p =
    let is_pure = (String-Key.eq_iff name "pure").0 h in
    let found : from_source "pure" ≡ some e =
      subst (λ n. from_source n ≡ some e) is_pure ((from_source_iff name e).1 p) in
    absurd (cc)

abbrev HasNamed : String → EffectSet → Effect → EffectSet × List EffectError → Type 0
HasNamed name parsed e r = (has r.0 e ≡ true) ↔ ((has parsed e ≡ true) ⊎ (name ≡ as_str e))

parse_name-HasNamed :
    (name : String) (span : Span) (parsed : EffectSet) (e : Effect)
    → HasNamed name parsed e (parse_name name span parsed)
unfolding parse_name add_direct
parse_name-HasNamed name span parsed e =
    let (to, from) = from_source_iff name e in
    if-cases (HasNamed name parsed e) (string_eq name "pure")
      (λ is_pure. (
        (λ h. inl h),
        (λ h. elim h [ inl p ↦ p | inr q ↦ absurd (pure-ne-as_str name e is_pure q) ]),
      ))
      (λ _.
        Option-elim (HasNamed name parsed e) (from_source name)
          (λ absent.
            ((λ h. inl h), (λ h. elim h [ inl p ↦ p | inr q ↦ let found = from q in absurd (cc) ])))
          (λ d found.
            let held : LocalEffects = record { direct = parsed; calls = [] } in
            let (after, before) = add_direct_iff d e held in
            (
              (λ h. elim (after h) [
                | inl p ↦ inl p
                | inr same ↦ inr (to (subst (λ x. from_source name ≡ some x) same found))
              ]),
              (λ h. elim h [
                | inl p ↦ before (inl p)
                | inr q ↦ let same = from q in before (inr (cc))
              ]),
            )))

-- The effects of the names that were met are in a set.
abbrev Met : TreeSet String → EffectSet → Type 0
Met seen parsed =
    (name : String) → member seen name ≡ true → (e : Effect) → name ≡ as_str e → has parsed e ≡ true

-- What the loop makes of one name.
abbrev pub first_of : String → Span → TreeSet String → EffectSet → EffectSet × List EffectError
first_of name span seen parsed =
    if member seen name
    then (parsed, effect_error "SYL2701" ("duplicate effect '" <> name <> "'") span ∷ [])
    else parse_name name span parsed

first_of-HasNamed :
    (name : String) (span : Span) (seen : TreeSet String) (parsed : EffectSet)
    → Met seen parsed
    → (e : Effect) → HasNamed name parsed e (first_of name span seen parsed)
first_of-HasNamed name span seen parsed met e =
    if-cases (HasNamed name parsed e) (member seen name)
      (λ again. ((λ h. inl h), (λ h. elim h [ inl p ↦ p | inr q ↦ met name again e q ])))
      (λ _. parse_name-HasNamed name span parsed e)

pub or-cases : (a b : Bool) → (a || b) ≡ true → (a ≡ true) ⊎ (b ≡ true)
or-cases true b h = inl refl
or-cases false b h = inr h

pub member-add-cases :
    (name other : String) (seen : TreeSet String)
    → member (add name seen) other ≡ true
    → (name ≡ other) ⊎ (member seen other ≡ true)
member-add-cases name other seen h =
    elim (or-cases (String-Key.eq name other) (member seen other)
      (sym (member-add name other seen) ∙ h)) [
        | inl same ↦ inl ((String-Key.eq_iff name other).0 same)
        | inr old ↦ inr old
      ]

first_of-Met :
    (name : String) (span : Span) (seen : TreeSet String) (parsed : EffectSet)
    → Met seen parsed
    → Met (add name seen) (first_of name span seen parsed).0
first_of-Met name span seen parsed met other m e p =
    let one = first_of-HasNamed name span seen parsed met e in
    elim (member-add-cases name other seen m) [
      | inl same ↦ one.1 (inr (same ∙ p))
      | inr old ↦ one.1 (inl (met other old e p))
    ]

parse_names-Lists :
    (names : List String) (span : Span) (seen : TreeSet String) (parsed : EffectSet)
    → Met seen parsed
    → (e : Effect)
    → (has (parse_names names span seen parsed).0 e ≡ true)
      ↔ ((has parsed e ≡ true) ⊎ Lists names e)
unfolding parse_names
parse_names-Lists [] span seen parsed met e =
    ((λ h. inl h), (λ h. elim h [ inl p ↦ p | inr (name, m, q) ↦ elim m [ ] ]))
parse_names-Lists (name ∷ names) span seen parsed met e =
    let one = first_of-HasNamed name span seen parsed met e in
    let rest =
      parse_names-Lists names span (add name seen) (first_of name span seen parsed).0
        (first_of-Met name span seen parsed met) e in
    (
      (λ h. elim (rest.0 h) [
        | inl before ↦ elim (one.0 before) [ inl p ↦ inl p | inr q ↦ inr (name, Memᴰ.head refl, q) ]
        | inr (n, m, q) ↦ inr (n, Memᴰ.tail m, q)
      ]),
      (λ h. elim h [
        | inl p ↦ rest.1 (inl (one.1 (inl p)))
        | inr (n, m, q) ↦ elim m [
          | Memᴰ.head same ↦ rest.1 (inl (one.1 (inr (sym same ∙ q))))
          | Memᴰ.tail r ↦ rest.1 (inr (n, r, q))
        ]
      ]),
    )

-- A declaration is read as some bound.
pub parse_declaration-some :
    (names : List String) (span : Span)
    → (declared : EffectSet) × ((parse_declaration (some names) span).0 ≡ some declared)
unfolding parse_declaration
parse_declaration-some names span = ((parse_names names span [] no_effects).0, refl)

-- The bound that is read has exactly the effects that the declaration lists.
pub parse_declaration-Lists :
    (names : List String) (span : Span) (declared : EffectSet)
    → (parse_declaration (some names) span).0 ≡ some declared
    → (e : Effect) → (has declared e ≡ true) ↔ Lists names e
unfolding parse_declaration member
parse_declaration-Lists names span declared same e =
    let r = parse_names-Lists names span [] no_effects (λ name m. absurd (cc)) e in
    let nothing = has-no_effects e in
    let q : (parse_names names span [] no_effects).0 ≡ declared = cc in
    subst (λ s. (has s e ≡ true) ↔ Lists names e) q
      ((λ h. elim (r.0 h) [ inl p ↦ absurd (cc) | inr l ↦ l ]), (λ l. r.1 (inr l)))
