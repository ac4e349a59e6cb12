-- ===== src/Package/Sound/Runs.antt =====
-- Proofs about crates/syllog-package/src/resolver.rs: `search` keeps its invariant up to a solution.

use syllog.Prelude.{
  ℕ, String, true, List, [], ◌∷◌, Option, none, some, ok, ◌≡◌, ◌≢◌, ap, sym, ◌∙◌, inl, inr, arith,
  Option-cases, Result-cases,
}
use syllog.Prelude.TreeMap.{TreeMap, lookup, insert, lookup-cons-inv, lookup-insert-inv, String-Key}
use syllog.Package.Release.{External, PackageRelease, PackageIndex, ResolvePolicy}
use syllog.Package.Constraint.{
  Constraint, Constraints, Selected, add_dependencies, release_origin, root_origin, all_match,
  violated, fewer, choose, candidate_count,
}
use syllog.Package.Search.{
  solved, failed, out_of_fuel, FailedStates, Searched, search, Resolution, resolution_of,
  resolution_outcome, resolve,
}
use syllog.Package.Solution.{
  IsVerified, IsSolution, Met, Demands, Demands-Grows, add_dependencies-Grows,
  add_dependencies-Demands,
}
use syllog.Package.Sound.{validate_release-IsSafe}
use syllog.Package.Induction.{search_induction}

module _ {Version Requirement : Type 0} (external : External Version Requirement) where
  -- No selected release violates its constraints where `violated` finds none.
  violated-none :
      (constraints : Constraints Requirement) (selected : Selected Version) (name : String)
      (r : PackageRelease Version) (active : List (Constraint Requirement))
      → violated external constraints selected ≡ none
      → lookup name selected ≡ some r
      → lookup name constraints ≡ some active
      → all_match external active r.version ≡ true
  unfolding violated lookup
  violated-none constraints [] name r active h e a = absurd (cc)
  violated-none constraints ((other, s) ∷ rest) name r active h e a =
      elim (lookup-cons-inv other name s r rest e) [
        | inl (same, found) ↦
            let here : lookup other constraints ≡ some active =
              ap (λ n. lookup n constraints) same ∙ a in
            rw (sym found) (ground arith)
        | inr later ↦ elim (Option-cases (lookup other constraints)) [
          | inl b ↦ violated-none constraints rest name r active (ground arith) later a
          | inr (others, b) ↦ violated-none constraints rest name r active (ground arith) later a
        ]
      ]

  fewer-ne-none :
      (count : ℕ) (name : String) (active : List (Constraint Requirement))
      (other : Option (ℕ × String × List (Constraint Requirement)))
      → fewer external count name active other ≢ none
  unfolding fewer
  fewer-ne-none count name active none h = absurd (cc)
  fewer-ne-none count name active (some (other_count, other_name, others)) h = absurd (ground arith)

  -- Every constrained package is selected where there is none to choose.
  choose-none :
      (index : PackageIndex Version) (policy : ResolvePolicy) (selected : Selected Version)
      (constraints : Constraints Requirement) (name : String)
      (active : List (Constraint Requirement))
      → choose external index policy selected constraints ≡ none
      → lookup name constraints ≡ some active
      → (r : PackageRelease Version) × (lookup name selected ≡ some r)
  unfolding choose lookup
  choose-none index policy selected [] name active h e = absurd (cc)
  choose-none index policy selected ((other, others) ∷ rest) name active h e =
      elim (Option-cases (lookup other selected)) [
        | inl b ↦ absurd (
            fewer-ne-none (candidate_count external index other others policy) other others
              (choose external index policy selected rest) (ground arith))
        | inr (s, b) ↦ elim (lookup-cons-inv other name others active rest e) [
          | inl (same, found) ↦ (s, ap (λ n. lookup n selected) (sym same) ∙ b)
          | inr later ↦ choose-none index policy selected rest name active (ground arith) later
        ]
      ]

  module _ (index : PackageIndex Version) (policy : ResolvePolicy)
      (roots : TreeMap String String) where
    -- The invariant of the search.
    record Inv (selected : Selected Version) (constraints : Constraints Requirement) : Type 0 where
      roots_demanded :
          (name text : String)
          → lookup name roots ≡ some text
          → Demands external constraints name text
      dependencies_demanded :
          (name : String) (r : PackageRelease Version) (needed text : String)
          → lookup name selected ≡ some r
          → lookup needed r.dependencies ≡ some text
          → Demands external constraints needed text
      verified :
          (name : String) (r : PackageRelease Version)
          → lookup name selected ≡ some r
          → IsVerified external index policy name r

    Inv-empty :
        (constraints : Constraints Requirement)
        → add_dependencies external root_origin roots [] ≡ ok constraints
        → Inv [] constraints
    unfolding lookup
    Inv-empty constraints h = record {
      roots_demanded = λ name text e.
          add_dependencies-Demands external root_origin roots [] constraints name text h e;
      dependencies_demanded = λ name r needed text e. absurd (cc);
      verified = λ name r e. absurd (cc);
    }

    Inv-insert :
        (selected : Selected Version) (constraints constraints' : Constraints Requirement)
        (name : String) (r : PackageRelease Version)
        → Inv selected constraints
        → IsVerified external index policy name r
        → add_dependencies external (release_origin external r) r.dependencies constraints
          ≡ ok constraints'
        → Inv (insert name r selected) constraints'
    Inv-insert selected constraints constraints' name r i v h =
        let grows =
          add_dependencies-Grows external (release_origin external r) r.dependencies constraints
            constraints' h in
        record {
          roots_demanded = λ n text e.
              Demands-Grows external constraints constraints' n text grows
                (i.roots_demanded n text e);
          dependencies_demanded = λ n s needed text e d.
              elim (lookup-insert-inv name n r s selected e) [
                | inl (same, found) ↦
                    add_dependencies-Demands external (release_origin external r) r.dependencies
                      constraints constraints' needed text h (simp found d)
                | inr old ↦
                    Demands-Grows external constraints constraints' needed text grows
                      (i.dependencies_demanded n s needed text old d)
              ];
          verified = λ n s e. elim (lookup-insert-inv name n r s selected e) [
            | inl (same, found) ↦ rw (sym same, sym found) v
            | inr old ↦ i.verified n s old
          ];
        }

    Inv-IsSolution :
        (selected : Selected Version) (constraints : Constraints Requirement)
        → Inv selected constraints
        → violated external constraints selected ≡ none
        → choose external index policy selected constraints ≡ none
        → IsSolution external index policy roots selected
    Inv-IsSolution selected constraints i v c =
        let met : (name text : String)
            → Demands external constraints name text
            → Met external selected name text =
          λ name text d.
            let (q, p, active, a, h) = d in
            let (r, e) = choose-none index policy selected constraints name active c a in
            (r, e, q, p, h r.version (violated-none constraints selected name r active v e a)) in
        record {
          roots_met = λ name text e. met name text (i.roots_demanded name text e);
          dependencies_met = λ name r needed text e d.
              met needed text (i.dependencies_demanded name r needed text e d);
          verified = i.verified;
        }

    -- What is required of a call of the search.
    abbrev Solves : Searched external → Type 0
    Solves (solved selected, failures) = IsSolution external index policy roots selected
    Solves (failed e, failures) = Unit
    Solves (out_of_fuel, failures) = Unit

    search-Solves :
        (fuel : ℕ) (selected : Selected Version) (constraints : Constraints Requirement)
        (failures : FailedStates Version)
        → Inv selected constraints
        → Solves (search external index policy fuel selected constraints failures)
    search-Solves fuel selected constraints failures i =
        search_induction external index policy Solves (λ _. Inv) (λ e failures. tt)
          (λ selected constraints failures i. tt)
          (λ fuel selected constraints failures i v c. Inv-IsSolution selected constraints i v c)
          (λ fuel selected constraints constraints' chosen r i v c candidate valid added.
            let safe = validate_release-IsSafe external r valid in
            Inv-insert selected constraints constraints' chosen.1 r i
              record { listed = candidate.0; intact = safe.0; safe = safe.1; at_hand = candidate.1 }
              added)
          fuel selected constraints failures i

    resolution_outcome-inv :
        (result : Searched external) (resolution : Resolution Version)
        → Solves result
        → resolution_outcome external result.0 ≡ solved resolution
        → (selected : Selected Version) × IsSolution external index policy roots selected
          × (resolution ≡ resolution_of external selected)
    unfolding resolution_outcome
    resolution_outcome-inv (solved selected, failures) resolution s h = (selected, s, cc)
    resolution_outcome-inv (failed e, failures) resolution s h = absurd (cc)
    resolution_outcome-inv (out_of_fuel, failures) resolution s h = absurd (cc)

    -- Where the resolver returns a resolution, it lists the packages of a solution: every requirement
    -- of the manifest and of a selected release is met by a selected release whose version it admits, and
    -- every selected release is one that the index lists under its name, with the digest of its
    -- content as checksum, archive paths of ordinary names only, and at hand when offline.
    pub resolve-IsSolution :
        (fuel : ℕ) (resolution : Resolution Version)
        → resolve external fuel roots index policy ≡ solved resolution
        → (selected : Selected Version) × IsSolution external index policy roots selected
          × (resolution ≡ resolution_of external selected)
    unfolding resolve
    resolve-IsSolution fuel resolution h =
        elim (Result-cases (add_dependencies external root_origin roots [])) [
          | inr (e, p) ↦ absurd (ground arith)
          | inl (constraints, p) ↦
              resolution_outcome-inv (search external index policy fuel [] constraints [])
                resolution (search-Solves fuel [] constraints [] (Inv-empty constraints p))
                (ground arith)
        ]
