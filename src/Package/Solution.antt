-- ===== src/Package/Solution.antt =====
-- What a solution of the resolver of crates/syllog-package/src/resolver.rs is, and the growth of
-- the constraints on the way to it.

use mathlib.Core.List.{Memᴰ}
use syllog.Prelude.{
  String, true, ◌&&◌, List, [], ◌∷◌, ◌++◌, some, Result, ok, ◌≡◌, refl, ◌≢◌, inl, inr, arith, All,
  Bool-cases, Result-cases, ap, sym, ◌∙◌,
}
use syllog.Prelude.TreeMap.{TreeMap, lookup, insert, lookup-insert, String-Key}
use syllog.Package.Release.{
  External, Component, FilePath, PackageRelease, PackageIndex, ResolvePolicy,
}
use syllog.Package.Constraint.{
  Constraint, Constraints, Selected, active_of, constraint, add_constraint, add_dependencies,
  all_match,
}

abbrev pub IsNormal : Component → Type 0
IsNormal c = (name : String) × (c ≡ Component.normal name)

abbrev pub IsSafe : FilePath → Type 0
IsSafe path = (path ≢ []) × All IsNormal path

ok-inj : {A E : Type 0} {a b : A} → ◌≡◌ {A = Result A E} (ok a) (ok b) → a ≡ b
ok-inj e = cc

module _ {Version Requirement : Type 0} (external : External Version Requirement) where
  -- The package is selected at a version that the requirement admits.
  abbrev pub Met : Selected Version → String → String → Type 0
  Met selected name text =
      (r : PackageRelease Version) × (lookup name selected ≡ some r)
      × (q : Requirement) × (external.parse text ≡ ok q)
      × (external.matches q r.version ≡ true)

  pub record IsVerified (index : PackageIndex Version) (policy : ResolvePolicy) (name : String)
      (r : PackageRelease Version) : Type 0 where
    pub listed : Memᴰ r (index name)
    pub intact : external.digest r.content ≡ r.checksum
    pub safe : All IsSafe r.archive_paths
    pub at_hand : policy.offline ≡ true → r.available_offline ≡ true

  pub record IsSolution (index : PackageIndex Version) (policy : ResolvePolicy)
      (roots : TreeMap String String) (selected : Selected Version) : Type 0 where
    pub roots_met : (name text : String) → lookup name roots ≡ some text → Met selected name text
    pub dependencies_met :
        (name : String) (r : PackageRelease Version) (needed text : String)
        → lookup name selected ≡ some r
        → lookup needed r.dependencies ≡ some text
        → Met selected needed text
    pub verified :
        (name : String) (r : PackageRelease Version)
        → lookup name selected ≡ some r
        → IsVerified index policy name r

  -- Whatever the constraints of the package admit satisfies the requirement.
  abbrev pub Demands : Constraints Requirement → String → String → Type 0
  Demands constraints name text =
      (q : Requirement) × (external.parse text ≡ ok q)
      × (active : List (Constraint Requirement)) × (lookup name constraints ≡ some active)
      × ((v : Version) → all_match external active v ≡ true → external.matches q v ≡ true)

  -- A constrained package stays constrained, by at least as much.
  abbrev pub Grows : Constraints Requirement → Constraints Requirement → Type 0
  Grows before after =
      (name : String) (active : List (Constraint Requirement))
      → lookup name before ≡ some active
      → (active' : List (Constraint Requirement)) × (lookup name after ≡ some active')
        × ((v : Version) → all_match external active' v ≡ true → all_match external active v ≡ true)

  pub Grows-trans : (a b c : Constraints Requirement) → Grows a b → Grows b c → Grows a c
  Grows-trans a b c f g name active e =
      let (active1, e1, h1) = f name active e in
      let (active2, e2, h2) = g name active1 e1 in (active2, e2, λ v h. h1 v (h2 v h))

  pub Demands-Grows :
      (a b : Constraints Requirement) (name text : String)
      → Grows a b
      → Demands a name text
      → Demands b name text
  Demands-Grows a b name text g (q, p, active, e, h) =
      let (active', e', h') = g name active e in (q, p, active', e', λ v m. h v (h' v m))

  all_match-append :
      (a b : List (Constraint Requirement)) (v : Version)
      → all_match external (a ++ b) v ≡ (all_match external a v && all_match external b v)
  unfolding all_match
  all_match-append [] b v = refl
  all_match-append (c ∷ a) b v = ground (arith, all_match-append a b v)

  active_of-lookup :
      (constraints : Constraints Requirement) (name other : String)
      (active : List (Constraint Requirement))
      → String-Key.eq name other ≡ true
      → lookup other constraints ≡ some active
      → active_of name constraints ≡ active
  unfolding active_of
  active_of-lookup constraints name other active same e =
      let h : lookup name constraints ≡ some active =
        ap (λ n. lookup n constraints) ((String-Key.eq_iff name other).0 same) ∙ e in
      ground arith

  -- The constraint that is added stands after the others of its package.
  add_constraint-inv :
      (constraints constraints' : Constraints Requirement) (name text origin : String)
      → add_constraint external constraints name text origin ≡ ok constraints'
      → (q : Requirement) × (external.parse text ≡ ok q)
        × (constraints'
            ≡ insert name
                (active_of name constraints ++ constraint external q text origin ∷ [])
                constraints)
  unfolding add_constraint
  add_constraint-inv constraints constraints' name text origin h =
      elim (Result-cases (external.parse text)) [
        | inl (q, p) ↦ (q, p, ground arith)
        | inr (e, p) ↦ absurd (ground arith)
      ]

  -- Looking a package up where nothing is found is looking up no constraints.
  insert-Grows :
      (constraints : Constraints Requirement) (name : String)
      (added : List (Constraint Requirement))
      → Grows constraints (insert name (active_of name constraints ++ added) constraints)
  insert-Grows constraints name added other active e =
      elim (Bool-cases (String-Key.eq name other)) [
        | inl same ↦ (
          active ++ added,
          ground (
            arith,
            lookup-insert name other (active_of name constraints ++ added) constraints,
            active_of-lookup constraints name other active same e,
          ),
          λ v m. ground (arith, all_match-append active added v),
        )
        | inr different ↦ (
          active,
          ground
              (arith, lookup-insert name other (active_of name constraints ++ added) constraints),
          λ v m. m,
        )
      ]

  add_constraint-Grows :
      (constraints constraints' : Constraints Requirement) (name text origin : String)
      → add_constraint external constraints name text origin ≡ ok constraints'
      → Grows constraints constraints'
  add_constraint-Grows constraints constraints' name text origin h =
      let (q, p, e) = add_constraint-inv constraints constraints' name text origin h in
      rw e (insert-Grows constraints name (constraint external q text origin ∷ []))

  add_constraint-Demands :
      (constraints constraints' : Constraints Requirement) (name text origin : String)
      → add_constraint external constraints name text origin ≡ ok constraints'
      → Demands constraints' name text
  unfolding all_match constraint
  add_constraint-Demands constraints constraints' name text origin h =
      let (q, p, e) = add_constraint-inv constraints constraints' name text origin h in
      let new : List (Constraint Requirement) =
        active_of name constraints ++ constraint external q text origin ∷ [] in
      (
        q,
        p,
        new,
        ground (arith, e, lookup-insert name name new constraints, String-Key.eq_iff name name),
        λ v m. ground (
          arith,
          all_match-append (active_of name constraints) (constraint external q text origin ∷ []) v,
        ),
      )

  pub add_dependencies-Grows :
      (origin : String → String → String) (dependencies : TreeMap String String)
      (constraints constraints' : Constraints Requirement)
      → add_dependencies external origin dependencies constraints ≡ ok constraints'
      → Grows constraints constraints'
  unfolding add_dependencies
  add_dependencies-Grows origin [] constraints constraints' h =
      rw (ok-inj h) (λ name active e. (active, e, λ v m. m))
  add_dependencies-Grows origin ((name, text) ∷ rest) constraints constraints' h =
      elim (Result-cases (add_constraint external constraints name text (origin name text))) [
        | inl (middle, e) ↦
            Grows-trans constraints middle constraints'
              (add_constraint-Grows constraints middle name text (origin name text) e)
              (add_dependencies-Grows origin rest middle constraints' (ground arith))
        | inr (e, p) ↦ absurd (ground arith)
      ]

  pub add_dependencies-Demands :
      (origin : String → String → String) (dependencies : TreeMap String String)
      (constraints constraints' : Constraints Requirement) (needed requirement : String)
      → add_dependencies external origin dependencies constraints ≡ ok constraints'
      → lookup needed dependencies ≡ some requirement
      → Demands constraints' needed requirement
  unfolding add_dependencies lookup
  add_dependencies-Demands origin [] constraints constraints' needed requirement h e = absurd (cc)
  add_dependencies-Demands origin ((name, text) ∷ rest) constraints constraints' needed requirement
        h e =
      elim (Result-cases (add_constraint external constraints name text (origin name text))) [
        | inl (middle, p) ↦ elim (Bool-cases (String-Key.eq name needed)) [
          | inl same ↦
              let found : text ≡ requirement = ground arith in
              let named : name ≡ needed = (String-Key.eq_iff name needed).0 same in
              rw (sym found, sym named)
                (Demands-Grows middle constraints' name text
                  (add_dependencies-Grows origin rest middle constraints' (ground arith))
                  (add_constraint-Demands constraints middle name text (origin name text) p))
          | inr different ↦
              add_dependencies-Demands origin rest middle constraints' needed requirement
                (ground arith) (ground arith)
        ]
        | inr (e, p) ↦ absurd (ground arith)
      ]
