-- ===== src/Package/Induction.antt =====
-- An induction principle for `search` of crates/syllog-package/src/resolver.rs: an invariant of its
-- arguments and the fuel, and what is to hold of its results.
use syllog.Prelude.{
  ℕ, zero, suc, String, List, [], ◌∷◌, Option, none, some, ok, ◌≡◌, All, Option-elim, Result-elim,
}
use syllog.Prelude.TreeMap.{insert, String-Key}
use syllog.Package.Release.{
  External, PackageRelease, PackageIndex, ResolvePolicy, ResolveError, conflict, validate_release,
  reject_ambiguous, sort_releases,
}
use syllog.Package.Constraint.{
  Constraint, Constraints, Selected, add_dependencies, release_origin, violated, choose, compatible,
  conflict_of,
}
use syllog.Package.Search.{
  solved, failed, out_of_fuel, SearchState, FailedStates, Searched, failure_of, after_conflict,
  try_releases, admitted, branch, search, state_fingerprint,
}
use syllog.Package.Sound.{Candidate, admitted-Candidate}

module _ {Version Requirement : Type 0} (external : External Version Requirement)
    (index : PackageIndex Version) (policy : ResolvePolicy) (P : Searched external → Type 0)
    (Inv : ℕ → Selected Version → Constraints Requirement → Type 0)
    (on_failure : (e : ResolveError Version) (failures : FailedStates Version)
      → P (failed e, failures)) where
  after_conflict_cases :
      (result : Searched external)
      (next : ResolveError Version → FailedStates Version → Searched external)
      → P result
      → ((e : ResolveError Version) (failures : FailedStates Version) → P (next e failures))
      → P (after_conflict external result next)
  unfolding after_conflict
  after_conflict_cases (failed (conflict name texts), failures) next h k =
      k (conflict name texts) failures
  after_conflict_cases (failed (ResolveError.invalid_requirement a b c), failures) next h k = h
  after_conflict_cases (failed (ResolveError.offline_unavailable a b), failures) next h k = h
  after_conflict_cases (failed (ResolveError.checksum_mismatch a b c d), failures) next h k = h
  after_conflict_cases (failed (ResolveError.unsafe_archive_path a b c), failures) next h k = h
  after_conflict_cases (failed (ResolveError.ambiguous_release a b), failures) next h k = h
  after_conflict_cases (solved selected, failures) next h k = h
  after_conflict_cases (out_of_fuel, failures) next h k = h

  module _
      (on_empty : (selected : Selected Version) (constraints : Constraints Requirement)
          (failures : FailedStates Version)
        → Inv zero selected constraints
        → P (out_of_fuel, failures))
      (on_solution : (fuel : ℕ) (selected : Selected Version)
          (constraints : Constraints Requirement) (failures : FailedStates Version)
        → Inv (suc fuel) selected constraints
        → violated external constraints selected ≡ none
        → choose external index policy selected constraints ≡ none
        → P (solved selected, failures))
      (on_release : (fuel : ℕ) (selected : Selected Version)
          (constraints constraints' : Constraints Requirement)
          (chosen : ℕ × String × List (Constraint Requirement)) (r : PackageRelease Version)
        → Inv (suc fuel) selected constraints
        → violated external constraints selected ≡ none
        → choose external index policy selected constraints ≡ some chosen
        → Candidate external index policy chosen.1 r
        → validate_release external r ≡ none
        → add_dependencies external (release_origin external r) r.dependencies constraints
          ≡ ok constraints'
        → Inv fuel (insert chosen.1 r selected) constraints') where
    module _ (fuel : ℕ)
        (again : Selected Version
          → Constraints Requirement
          → FailedStates Version
          → Searched external)
        (again_holds : (selected : Selected Version) (constraints : Constraints Requirement)
            (failures : FailedStates Version)
          → Inv fuel selected constraints
          → P (again selected constraints failures))
        (state : SearchState Version) (selected : Selected Version)
        (constraints : Constraints Requirement) (i : Inv (suc fuel) selected constraints)
        (v : violated external constraints selected ≡ none) where
      module _ (chosen : ℕ × String × List (Constraint Requirement))
          (c : choose external index policy selected constraints ≡ some chosen) where
        try_releases_cases :
            (last : Option (ResolveError Version)) (rs : List (PackageRelease Version))
            (failures : FailedStates Version)
            → All (Candidate external index policy chosen.1) rs
            → P (
                try_releases external again state chosen.1 chosen.2 selected constraints last rs
                  failures)
        unfolding try_releases
        try_releases_cases last [] failures cs = on_failure _ _
        try_releases_cases last (r ∷ rs) failures cs =
            Option-elim P (validate_release external r)
              (λ p.
                Result-elim P
                  (add_dependencies external (release_origin external r) r.dependencies constraints)
                  (λ constraints' q.
                    after_conflict_cases (again (insert chosen.1 r selected) constraints' failures)
                      _
                      (again_holds (insert chosen.1 r selected) constraints' failures
                        (on_release fuel selected constraints constraints' chosen r i v c cs.0 p q))
                      (λ e failures'. try_releases_cases (some e) rs failures' cs.1))
                  (λ e q. on_failure e failures))
              (λ e p. on_failure e failures)

        loop_cases :
            (failures : FailedStates Version) (rs : List (PackageRelease Version))
            → All (Candidate external index policy chosen.1) rs
            → P (elim rs [
              | [] ↦ (failed (conflict_of external chosen.1 chosen.2), failures)
              | r ∷ rest ↦
                  try_releases external again state chosen.1 chosen.2 selected constraints none
                    (r ∷ rest)
                    failures
            ])
        loop_cases failures [] cs = on_failure _ failures
        loop_cases failures (r ∷ rs) cs = try_releases_cases none (r ∷ rs) failures cs

      branch_cases :
          (failures : FailedStates Version)
          → P (branch external index policy again state selected constraints failures)
      unfolding branch
      branch_cases failures =
          Option-elim P (choose external index policy selected constraints)
            (λ c. on_solution fuel selected constraints failures i v c)
            (λ chosen c.
              let releases = sort_releases external (index chosen.1) in
              Option-elim P (reject_ambiguous external chosen.1 releases)
                (λ a.
                  Result-elim P
                    (admitted external policy chosen.1 chosen.2
                      (compatible external chosen.2 releases))
                    (λ rs b.
                      loop_cases chosen c failures rs
                        (admitted-Candidate external index policy chosen.1 chosen.2 rs b))
                    (λ e b. on_failure e failures))
                (λ e a. on_failure e failures))

    pub search_induction :
        (fuel : ℕ) (selected : Selected Version) (constraints : Constraints Requirement)
        (failures : FailedStates Version)
        → Inv fuel selected constraints
        → P (search external index policy fuel selected constraints failures)
    unfolding search
    search_induction zero selected constraints failures i = on_empty selected constraints failures i
    search_induction (suc fuel) selected constraints failures i =
        let state = state_fingerprint external selected constraints in
        Option-elim P (failure_of external state failures)
          (λ p.
            Option-elim P (violated external constraints selected)
              (λ q.
                branch_cases fuel (search external index policy fuel) (search_induction fuel) state
                  selected constraints i q failures)
              (λ found q. on_failure _ _))
          (λ e p. on_failure e failures)
