-- ===== src/Package/Search.antt =====
-- crates/syllog-package/src/resolver.rs: the backtracking search, its record of failed states, and
-- `resolve`. The search runs on fuel, with an outcome of its own for fuel that runs out.
use text.Mathlib.Text.{is_lt, ◌==◌ as string_eq}
use Prim.Native.String
use syllog.Prelude.{
  ℕ, zero, suc, String, Bool, not, ◌&&◌, ◌||◌, List, [], ◌∷◌, Option, none, some, if◌then◌else◌,
  Result, ok, err, map,
}
use syllog.Prelude.TreeMap.{TreeMap, lookup, insert, String-Key}
use syllog.Package.Release.{
  External, PackageRelease, PackageIndex, ResolvePolicy, ResolveError, conflict,
  offline_unavailable, list_eq, pair_eq, reject_ambiguous, validate_release, sort_releases,
}
use syllog.Package.Constraint.{
  Constraint, Constraints, Selected, add_dependencies, root_origin, release_origin, compatible,
  available, conflict_of, violated, choose,
}

pub record SearchState (Version : Type 0) : Type 0 where
  pub selected : List (String × Version × String)
  pub constraints : List (String × List (String × String))

-- `failed_states`, whose order is not observed: a later entry hides an earlier one.
abbrev pub FailedStates : Type 0 → Type 0
FailedStates Version = List (SearchState Version × ResolveError Version)

pub data Outcome (Version A : Type 0) : Type 0 where
  solved : A → Outcome Version A
  failed : ResolveError Version → Outcome Version A
  out_of_fuel : Outcome Version A

pub record LockedPackage (Version : Type 0) : Type 0 where
  pub name : String
  pub version : Version
  pub checksum : String
  pub dependencies : TreeMap String Version

pub record Resolution (Version : Type 0) : Type 0 where
  pub format : ℕ
  pub packages : List (LockedPackage Version)

-- `requirements.sort()`
pair_lt : String × String → String × String → Bool
pair_lt a b =
    is_lt (String.compare a.0 b.0) || (string_eq a.0 b.0 && is_lt (String.compare a.1 b.1))

unfoldable pub insert_pair : String × String → List (String × String) → List (String × String)
unfolding pair_lt
insert_pair a [] = a ∷ []
insert_pair a (b ∷ rest) =
    let later = insert_pair a rest in if pair_lt b a then b ∷ later else a ∷ b ∷ rest

unfoldable pub sort_pairs : List (String × String) → List (String × String)
sort_pairs [] = []
sort_pairs (a ∷ rest) = insert_pair a (sort_pairs rest)

module _ {Version Requirement : Type 0} (external : External Version Requirement) where
  unfoldable pub selected_key : String × PackageRelease Version → String × Version × String
  selected_key (name, r) = (name, r.version, r.checksum)

  unfoldable pub constraint_key :
      String × List (Constraint Requirement) → String × List (String × String)
  constraint_key (name, active) = (name, sort_pairs (map (λ c. (c.text, c.origin)) active))

  unfoldable pub state_fingerprint :
      Selected Version → Constraints Requirement → SearchState Version
  state_fingerprint selected constraints = record {
    selected = map selected_key selected;
    constraints = map constraint_key constraints;
  }

  selected_eq : String × Version × String → String × Version × String → Bool
  selected_eq a b = string_eq a.0 b.0 && external.version_eq a.1 b.1 && string_eq a.2 b.2

  constraints_eq : String × List (String × String) → String × List (String × String) → Bool
  constraints_eq a b = string_eq a.0 b.0 && list_eq pair_eq a.1 b.1

  unfoldable pub state_eq : SearchState Version → SearchState Version → Bool
  unfolding selected_eq constraints_eq
  state_eq a b =
      list_eq selected_eq a.selected b.selected
      && list_eq constraints_eq a.constraints b.constraints

  -- `failed_states.get(&state)`
  unfoldable pub failure_of :
      SearchState Version → FailedStates Version → Option (ResolveError Version)
  failure_of state [] = none
  failure_of state ((s, e) ∷ failures) =
      let rest = failure_of state failures in if state_eq s state then some e else rest

  -- The result of a call of `search`, with the record of failures that it leaves.
  abbrev pub Searched : Type 0
  Searched = Outcome Version (Selected Version) × FailedStates Version

  -- `Err(error @ Conflict)` goes on to the next release, all else returns.
  unfoldable pub after_conflict :
      Searched → (ResolveError Version → FailedStates Version → Searched) → Searched
  after_conflict (failed (conflict name texts), failures) next = next (conflict name texts) failures
  after_conflict other next = other

  -- `last_conflict.unwrap_or_else(..)`
  unfoldable pub last_or :
      Option (ResolveError Version) → ResolveError Version → ResolveError Version
  last_or none e = e
  last_or (some e) _ = e

  module _ (again : Selected Version → Constraints Requirement → FailedStates Version → Searched)
      (state : SearchState Version) (name : String) (active : List (Constraint Requirement))
      (selected : Selected Version) (constraints : Constraints Requirement) where
    -- The loop over the compatible releases, `again` being the recursive call.
    unfoldable pub try_releases :
        Option (ResolveError Version)
        → List (PackageRelease Version)
        → FailedStates Version
        → Searched
    try_releases last [] failures =
        let e = last_or last (conflict_of external name active) in (failed e, (state, e) ∷ failures)
    try_releases last (r ∷ rs) failures = elim (validate_release external r) [
      | some e ↦ (failed e, failures)
      | none ↦
          elim (add_dependencies external (release_origin external r) r.dependencies constraints) [
            | err e ↦ (failed e, failures)
            | ok constraints' ↦
                after_conflict (again (insert name r selected) constraints' failures)
                  (λ e failures'. try_releases (some e) rs failures')
          ]
    ]

  -- The compatible releases that the policy admits. Offline, where none of some is at hand, the
  -- first of them is reported.
  unfoldable pub admitted :
      ResolvePolicy
      → String
      → List (Constraint Requirement)
      → List (PackageRelease Version)
      → Result (List (PackageRelease Version)) (ResolveError Version)
  admitted policy name active releases =
      if not policy.offline then ok releases else elim (available external releases) [
        | r ∷ rs ↦ ok (r ∷ rs)
        | [] ↦ elim releases [ [] ↦ ok [] | r ∷ rs ↦ err (offline_unavailable name r.version) ]
      ]

  module _ (index : PackageIndex Version) (policy : ResolvePolicy) where
    -- From the choice of a package on.
    unfoldable pub branch :
        (Selected Version → Constraints Requirement → FailedStates Version → Searched)
        → SearchState Version
        → Selected Version
        → Constraints Requirement
        → FailedStates Version
        → Searched
    branch again state selected constraints failures =
        elim (choose external index policy selected constraints) [
          | none ↦ (solved selected, failures)
          | some (count, name, active) ↦
              let releases = sort_releases external (index name) in
              elim (reject_ambiguous external name releases) [
                | some e ↦ (failed e, failures)
                | none ↦ elim (admitted policy name active (compatible external active releases)) [
                  | err e ↦ (failed e, failures)
                  | ok [] ↦ (failed (conflict_of external name active), failures)
                  | ok (r ∷ rs) ↦
                      try_releases again state name active selected constraints none (r ∷ rs)
                        failures
                ]
              ]
        ]

    unfoldable pub search :
        ℕ → Selected Version → Constraints Requirement → FailedStates Version → Searched
    search zero selected constraints failures = (out_of_fuel, failures)
    search (suc fuel) selected constraints failures =
        let state = state_fingerprint selected constraints in
        elim (failure_of state failures) [
          | some e ↦ (failed e, failures)
          | none ↦ elim (violated external constraints selected) [
            | some (name, active) ↦
                let e = conflict_of external name active in (failed e, (state, e) ∷ failures)
            | none ↦ branch (search fuel) state selected constraints failures
          ]
        ]

  -- The versions of the dependencies that are selected.
  unfoldable pub locked_dependencies :
      Selected Version → TreeMap String String → TreeMap String Version
  locked_dependencies selected [] = []
  locked_dependencies selected ((name, text) ∷ rest) = elim (lookup name selected) [
    | none ↦ locked_dependencies selected rest
    | some r ↦ (name, r.version) ∷ locked_dependencies selected rest
  ]

  unfoldable pub locked_package : Selected Version → PackageRelease Version → LockedPackage Version
  locked_package selected r = record {
    name = r.name;
    version = r.version;
    checksum = r.checksum;
    dependencies = locked_dependencies selected r.dependencies;
  }

  unfoldable pub resolution_of : Selected Version → Resolution Version
  resolution_of selected = record {
    format = 1;
    packages =
        map (λ (entry : String × PackageRelease Version). locked_package selected entry.1) selected;
  }

  unfoldable pub resolution_outcome :
      Outcome Version (Selected Version) → Outcome Version (Resolution Version)
  resolution_outcome (solved selected) = solved (resolution_of selected)
  resolution_outcome (failed e) = failed e
  resolution_outcome out_of_fuel = out_of_fuel

  -- `dependencies` is the manifest's map from a name to the text of its requirement.
  unfoldable pub resolve :
      ℕ
      → TreeMap String String
      → PackageIndex Version
      → ResolvePolicy
      → Outcome Version (Resolution Version)
  resolve fuel dependencies index policy =
      elim (add_dependencies external root_origin dependencies []) [
        | err e ↦ failed e
        | ok constraints ↦ resolution_outcome (search index policy fuel [] constraints []).0
      ]
