-- ===== src/Package/Ends.antt =====
-- Proofs about crates/syllog-package/src/resolver.rs: the fuel that the search needs. Each level of
-- the search selects one more of the names that the manifest and the index mention.
use mathlib.Core.List.{Memᴰ}
use syllog.Prelude.{
  ℕ, suc, ◌<◌, ◌≤◌, String, List, [], ◌∷◌, ◌++◌, Option, none, some, ok, ◌≡◌, ◌≢◌, sym, subst, leb,
  inl, inr, arith, length, All, Result-cases, Option-elim, if-cases,
}
use syllog.Prelude.TreeMap.{TreeMap, lookup, insert, lookup-insert, insert-All, String-Key}
use syllog.Package.Release.{External, PackageRelease, PackageIndex, ResolvePolicy}
use syllog.Package.Constraint.{
  Constraint, Constraints, Selected, active_of, constraint, add_constraint, add_dependencies,
  release_origin, root_origin, fewer, choose, candidate_count,
}
use syllog.Package.Search.{
  solved, failed, out_of_fuel, FailedStates, Searched, search, resolution_outcome, resolve,
}
use syllog.Package.Induction.{search_induction}

-- The names without a selected release.
unselected : {Version : Type 0} → Selected Version → List String → ℕ
unselected selected [] = 0
unselected selected (name ∷ names) =
    let rest = unselected selected names in
    elim (lookup name selected) [ none ↦ suc rest | some _ ↦ rest ]

unselected_le :
    {Version : Type 0} (selected : Selected Version) (names : List String)
    → unselected selected names ≤ length names
unfolding unselected
unselected_le selected [] = omega arith
unselected_le selected (name ∷ names) = ground (arith, unselected_le selected names)

module _ {Version : Type 0} (selected : Selected Version) (name : String)
    (r : PackageRelease Version) where
  unselected-insert_le :
      (names : List String) → unselected (insert name r selected) names ≤ unselected selected names
  unfolding unselected
  unselected-insert_le [] = omega arith
  unselected-insert_le (other ∷ names) =
      ground (arith, unselected-insert_le names, lookup-insert name other r selected)

  unselected-insert_lt :
      (names : List String)
      → Memᴰ name names
      → lookup name selected ≡ none
      → unselected (insert name r selected) names < unselected selected names
  unfolding unselected
  unselected-insert_lt [] m h = elim m [ ]
  unselected-insert_lt (other ∷ names) (Memᴰ.head e) h = rw (sym e) (
      ground (
        arith,
        unselected-insert_le names,
        lookup-insert name name r selected,
        String-Key.eq_iff name name,
      ))
  unselected-insert_lt (other ∷ names) (Memᴰ.tail m) h =
      ground (arith, unselected-insert_lt names m h, lookup-insert name other r selected)

module _ {Version Requirement : Type 0} (external : External Version Requirement)
    (index : PackageIndex Version) (policy : ResolvePolicy) (names : List String) where
  -- The keys of a map are among the names.
  abbrev Within : {V : Type 0} → TreeMap String V → Type 0
  Within {V} m = All (λ (e : String × V). Memᴰ e.0 names) m

  add_constraint-Within :
      (constraints constraints' : Constraints Requirement) (name text origin : String)
      → Memᴰ name names
      → Within constraints
      → add_constraint external constraints name text origin ≡ ok constraints'
      → Within constraints'
  unfolding add_constraint
  add_constraint-Within constraints constraints' name text origin m w h =
      elim (Result-cases (external.parse text)) [
        | inl (q, p) ↦
            let new = active_of name constraints ++ constraint external q text origin ∷ [] in
            let e : insert name new constraints ≡ constraints' = ground arith in
            rw (sym e) (insert-All (λ n. Memᴰ n names) name new constraints m w)
        | inr (e, p) ↦ absurd (ground arith)
      ]

  add_dependencies-Within :
      (origin : String → String → String) (dependencies : TreeMap String String)
      (constraints constraints' : Constraints Requirement)
      → Within dependencies
      → Within constraints
      → add_dependencies external origin dependencies constraints ≡ ok constraints'
      → Within constraints'
  unfolding add_dependencies
  add_dependencies-Within origin [] constraints constraints' d w h =
      let e : constraints ≡ constraints' = cc in rw (sym e) w
  add_dependencies-Within origin ((name, text) ∷ rest) constraints constraints' d w h =
      elim (Result-cases (add_constraint external constraints name text (origin name text))) [
        | inl (middle, e) ↦
            add_dependencies-Within origin rest middle constraints' d.1
              (add_constraint-Within constraints middle name text (origin name text) d.0 w e)
              (ground arith)
        | inr (e, p) ↦ absurd (ground arith)
      ]

  -- What is chosen is constrained and not selected.
  abbrev Open : Selected Version → Option (ℕ × String × List (Constraint Requirement)) → Type 0
  Open selected none = Unit
  Open selected (some (count, name, active)) = Memᴰ name names × (lookup name selected ≡ none)

  fewer-Open :
      (selected : Selected Version) (count : ℕ) (name : String)
      (active : List (Constraint Requirement))
      (other : Option (ℕ × String × List (Constraint Requirement)))
      → Memᴰ name names
      → lookup name selected ≡ none
      → Open selected other
      → Open selected (fewer external count name active other)
  unfolding fewer
  fewer-Open selected count name active none m h o = (m, h)
  fewer-Open selected count name active (some (other_count, other_name, others)) m h o =
      if-cases (Open selected) (leb count other_count) (λ _. (m, h)) (λ _. o)

  choose-Open :
      (selected : Selected Version) (constraints : Constraints Requirement)
      → Within constraints
      → Open selected (choose external index policy selected constraints)
  unfolding choose
  choose-Open selected [] w = tt
  choose-Open selected ((name, active) ∷ rest) w =
      Option-elim (Open selected) (lookup name selected)
        (λ e.
          fewer-Open selected (candidate_count external index name active policy) name active
            (choose external index policy selected rest) w.0 e (choose-Open selected rest w.1))
        (λ s e. choose-Open selected rest w.1)

  abbrev Ends : Searched external → Type 0
  Ends (solved selected, failures) = Unit
  Ends (failed e, failures) = Unit
  Ends (out_of_fuel, failures) = ⊥

  module _
      (closed : (name : String) (r : PackageRelease Version)
        → Memᴰ name names
        → Memᴰ r (index name)
        → Within r.dependencies) where
    search-Ends :
        (fuel : ℕ) (selected : Selected Version) (constraints : Constraints Requirement)
        (failures : FailedStates Version)
        → Within constraints
        → unselected selected names < fuel
        → Ends (search external index policy fuel selected constraints failures)
    search-Ends fuel selected constraints failures w h =
        search_induction external index policy Ends
          (λ fuel selected constraints. Within constraints × (unselected selected names < fuel))
          (λ e failures. tt) (λ selected constraints failures i. omega (arith, i.1))
          (λ fuel selected constraints failures i v c. tt)
          (λ fuel selected constraints constraints' chosen r i v c candidate valid added.
            let open_name : Open selected (some chosen) =
              subst (Open selected) c (choose-Open selected constraints i.0) in
            (
              add_dependencies-Within (release_origin external r) r.dependencies constraints
                  constraints' (closed chosen.1 r open_name.0 candidate.0) i.0 added,
              omega (
                arith,
                i.1,
                unselected-insert_lt selected chosen.1 r names open_name.0 open_name.1,
              ),
            ))
          fuel selected constraints failures (w, h)

    resolution_outcome-Ends :
        (result : Searched external)
        → Ends result
        → resolution_outcome external result.0 ≢ out_of_fuel
    unfolding resolution_outcome
    resolution_outcome-Ends (solved selected, failures) h e = absurd (cc)
    resolution_outcome-Ends (failed e', failures) h e = absurd (cc)
    resolution_outcome-Ends (out_of_fuel, failures) h e = h

    -- The resolver ends by itself, whatever the versions, the policy and the releases: given a list of
    -- names that has those of the manifest's dependencies and, for each of its names, the
    -- dependencies of the releases that the index lists under it, fuel above its length is enough.
    pub resolve-ne-out_of_fuel :
        (fuel : ℕ) (roots : TreeMap String String)
        → Within roots
        → length names < fuel
        → resolve external fuel roots index policy ≢ out_of_fuel
    unfolding resolve
    resolve-ne-out_of_fuel fuel roots w h e =
        elim (Result-cases (add_dependencies external root_origin roots [])) [
          | inr (e', p) ↦ absurd (ground arith)
          | inl (constraints, p) ↦
              resolution_outcome-Ends (search external index policy fuel [] constraints [])
                (search-Ends fuel [] constraints []
                  (add_dependencies-Within root_origin roots [] constraints w tt p)
                  (omega (arith, unselected_le {Version = Version} [] names)))
                (ground arith)
        ]
