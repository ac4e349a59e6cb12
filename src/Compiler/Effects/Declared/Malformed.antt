-- ===== src/Compiler/Effects/Declared/Malformed.antt =====
-- The declarations that `parse_declaration` of crates/syllog-compiler/src/effects.rs refuses.
use mathlib.Core.List.{Memᴰ}
use text.Mathlib.Text.{◌==◌ as string_eq}
use syllog.Prelude.{
  Bool, false, ◌∙◌, append-eq-nil, ◌||◌, String, true, not, ◌&&◌, List, [], ◌∷◌, ◌++◌, some, ◌≡◌,
  ◌≢◌, ◌⊎◌, inl, inr, refl, sym, subst, arith, length, ◌==◌, if-cases, Option-elim,
}
use syllog.Prelude.TreeMap.{member-add, TreeSet, member, add, String-Key}
use syllog.Ir.Capability.{from_source, from_source_iff}
use syllog.Compiler.Types.{Span}
use syllog.Compiler.Effects.{EffectSet, no_effects, EffectError}
use syllog.Compiler.Effects.Analyze.{any_pure, parse_name, parse_names, parse_declaration}
use syllog.Compiler.Effects.Declared.{
  IsUnknown, Repeats, IsMalformed, unknown, repeated, mixed, first_of, or-cases, member-add-cases,
}

parse_name-IsUnknown :
    (name : String) (span : Span) (parsed : EffectSet)
    → (parse_name name span parsed).1 ≢ []
    → IsUnknown name
unfolding parse_name String-Key
parse_name-IsUnknown name span parsed =
    if-cases (λ (r : EffectSet × List EffectError). r.1 ≢ [] → IsUnknown name)
      (string_eq name "pure") (λ _ ne. absurd (ne refl))
      (λ not_pure.
        Option-elim (λ (r : EffectSet × List EffectError). r.1 ≢ [] → IsUnknown name)
          (from_source name)
          (λ absent ne. (
            (λ p. let yes = is_pure name p in absurd (cc)),
            (λ e p. let found = (from_source_iff name e).1 p in absurd (cc)),
          ))
          (λ d found ne. absurd (ne refl)))
  where
    is_pure : (n : String) → n ≡ "pure" → string_eq n "pure" ≡ true
    is_pure n p = (String-Key.eq_iff n "pure").1 p

pub append-ne-nil : {A : Type 0} (xs ys : List A) → xs ++ ys ≢ [] → (xs ≢ []) ⊎ (ys ≢ [])
append-ne-nil [] ys h = inr h
append-ne-nil (x ∷ xs) ys h = inl (λ e. absurd (cc))

first_of-errors :
    (name : String) (span : Span) (seen : TreeSet String) (parsed : EffectSet)
    → (first_of name span seen parsed).1 ≢ []
    → (member seen name ≡ true) ⊎ IsUnknown name
first_of-errors name span seen parsed =
    if-cases
      (λ (r : EffectSet × List EffectError). r.1 ≢ [] → (member seen name ≡ true) ⊎ IsUnknown name)
      (member seen name) (λ again ne. inl again)
      (λ _ ne. inr (parse_name-IsUnknown name span parsed ne))

-- Why some names are refused, where others were met before.
data Refused (seen : TreeSet String) (names : List String) : Type 0 where
  strange : (name : String) → Memᴰ name names → IsUnknown name → Refused seen names
  twice : Repeats names → Refused seen names
  again : (name : String) → Memᴰ name names → member seen name ≡ true → Refused seen names

Refused-tail :
    (seen : TreeSet String) (name : String) (names : List String)
    → Refused (add name seen) names
    → Refused seen (name ∷ names)
Refused-tail seen name names (strange n m u) = strange n (Memᴰ.tail m) u
Refused-tail seen name names (twice r) = twice (inr r)
Refused-tail seen name names (again n m h) = elim (member-add-cases name n seen h) [
  | inl same ↦ twice (inl (subst (λ k. Memᴰ k names) (sym same) m))
  | inr old ↦ again n (Memᴰ.tail m) old
]

parse_names-Refused :
    (names : List String) (span : Span) (seen : TreeSet String) (parsed : EffectSet)
    → (parse_names names span seen parsed).1 ≢ []
    → Refused seen names
unfolding parse_names
parse_names-Refused [] span seen parsed h = absurd (h refl)
parse_names-Refused (name ∷ names) span seen parsed h =
    let one = first_of name span seen parsed in
    elim (append-ne-nil one.1 (parse_names names span (add name seen) one.0).1 h) [
      | inl here ↦ elim (first_of-errors name span seen parsed here) [
        | inl old ↦ again name (Memᴰ.head refl) old
        | inr u ↦ strange name (Memᴰ.head refl) u
      ]
      | inr later ↦
          Refused-tail seen name names (parse_names-Refused names span (add name seen) one.0 later)
    ]

Refused-IsMalformed : (names : List String) → Refused [] names → IsMalformed names
unfolding member
Refused-IsMalformed names (strange name m u) = unknown name m u
Refused-IsMalformed names (twice r) = repeated r
Refused-IsMalformed names (again name m h) = absurd (cc)

any_pure-mem : (names : List String) → any_pure names ≡ true → Memᴰ "pure" names
unfolding any_pure String-Key
any_pure-mem [] h = absurd (cc)
any_pure-mem (name ∷ names) h = elim (or-cases (string_eq name "pure") (any_pure names) h) [
  | inl here ↦ Memᴰ.head (sym ((String-Key.eq_iff name "pure").0 here))
  | inr there ↦ Memᴰ.tail (any_pure-mem names there)
]

-- A declaration that is refused is malformed.
pub parse_declaration-IsMalformed :
    (names : List String) (span : Span)
    → (parse_declaration (some names) span).1 ≢ []
    → IsMalformed names
unfolding parse_declaration
parse_declaration-IsMalformed names span =
    if-cases
      (λ (es : List EffectError).
        es ++ (parse_names names span [] no_effects).1 ≢ [] → IsMalformed names)
      (any_pure names && not (length names == 1))
      (λ both _. mixed (any_pure-mem names (ground arith)) (ground arith))
      (λ _ h. Refused-IsMalformed names (parse_names-Refused names span [] no_effects h))

-- A name that leaves no error was not met before, and is known.
first_of-clean :
    (name : String) (span : Span) (seen : TreeSet String) (parsed : EffectSet)
    → (first_of name span seen parsed).1 ≡ []
    → (member seen name ≡ false) × ¬ IsUnknown name
unfolding parse_name String-Key
first_of-clean name span seen parsed =
    if-cases
      (λ (r : EffectSet × List EffectError).
        r.1 ≡ [] → (member seen name ≡ false) × ¬ IsUnknown name)
      (member seen name) (λ _ e. absurd (cc))
      (λ fresh.
        if-cases
          (λ (r : EffectSet × List EffectError).
            r.1 ≡ [] → (member seen name ≡ false) × ¬ IsUnknown name)
          (string_eq name "pure")
          (λ is_pure _. (fresh, λ u. u.0 ((String-Key.eq_iff name "pure").0 is_pure)))
          (λ _.
            Option-elim
              (λ (r : EffectSet × List EffectError).
                r.1 ≡ [] → (member seen name ≡ false) × ¬ IsUnknown name)
              (from_source name) (λ absent e. absurd (cc))
              (λ d found _. (fresh, λ u. u.1 d ((from_source_iff name d).0 found)))))

member-add-new : (name : String) (seen : TreeSet String) → member (add name seen) name ≡ true
member-add-new name seen =
    member-add name name seen
    ∙ or-left (String-Key.eq name name) (member seen name) ((String-Key.eq_iff name name).1 refl)
  where
    or-left : (a b : Bool) → a ≡ true → (a || b) ≡ true
    or-left a b h = ground arith

member-add-old :
    (name other : String) (seen : TreeSet String)
    → member seen other ≡ true
    → member (add name seen) other ≡ true
member-add-old name other seen h =
    member-add name other seen ∙ or-right (String-Key.eq name other) (member seen other) h
  where
    or-right : (a b : Bool) → b ≡ true → (a || b) ≡ true
    or-right a b h = ground arith

parse_names-clean :
    (names : List String) (span : Span) (seen : TreeSet String) (parsed : EffectSet)
    → (parse_names names span seen parsed).1 ≡ []
    → ¬ Refused seen names
unfolding parse_names
parse_names-clean [] span seen parsed h (strange n m u) = elim m [ ]
parse_names-clean [] span seen parsed h (twice r) = r
parse_names-clean [] span seen parsed h (again n m e) = elim m [ ]
parse_names-clean (name ∷ names) span seen parsed h r =
    let one = first_of name span seen parsed in
    let (here, later) = append-eq-nil one.1 (parse_names names span (add name seen) one.0).1 h in
    let (fresh, known) = first_of-clean name span seen parsed here in
    let rest = parse_names-clean names span (add name seen) one.0 later in
    elim r [
      | strange n m u ↦ elim m [
        | Memᴰ.head e ↦ known (subst IsUnknown e u)
        | Memᴰ.tail t ↦ rest (strange n t u)
      ]
      | twice q ↦ elim q [
        | inl m ↦ rest (again name m (member-add-new name seen))
        | inr t ↦ rest (twice t)
      ]
      | again n m old ↦ elim m [
        | Memᴰ.head e ↦ let met = subst (λ k. member seen k ≡ true) e old in absurd (cc)
        | Memᴰ.tail t ↦ rest (again n t (member-add-old name n seen old))
      ]
    ]

mem-any_pure : (names : List String) → Memᴰ "pure" names → any_pure names ≡ true
unfolding any_pure String-Key
mem-any_pure [] m = elim m [ ]
mem-any_pure (name ∷ names) (Memᴰ.head e) =
    let here = (String-Key.eq_iff name "pure").1 (sym e) in ground arith
mem-any_pure (name ∷ names) (Memᴰ.tail m) = let there = mem-any_pure names m in ground arith

-- A declaration that leaves no error is not malformed.
pub parse_declaration-clean :
    (names : List String) (span : Span)
    → (parse_declaration (some names) span).1 ≡ []
    → ¬ IsMalformed names
unfolding parse_declaration
parse_declaration-clean names span =
    if-cases
      (λ (es : List EffectError).
        es ++ (parse_names names span [] no_effects).1 ≡ [] → ¬ IsMalformed names)
      (any_pure names && not (length names == 1)) (λ _ e. absurd (cc))
      (λ apart clean bad. elim bad [
        | unknown name m u ↦ parse_names-clean names span [] no_effects clean (strange name m u)
        | repeated r ↦ parse_names-clean names span [] no_effects clean (twice r)
        | mixed m several ↦ let is_pure = mem-any_pure names m in several (ground arith)
      ])
