-- ===== src/Package/Constraint.antt =====
-- crates/syllog-package/src/resolver.rs: constraints, conflicts and the choice of a package.

use syllog.Prelude.{
  ℕ, suc, String, Bool, true, false, not, ◌&&◌, ◌||◌, List, [], ◌∷◌, ◌++◌, Option, none, some, leb,
  if◌then◌else◌, Result, ok, err,
}
use syllog.Prelude.Text.{◌<>◌, trimmed_starts_with}
use syllog.Prelude.TreeMap.{TreeMap, TreeSet, lookup, insert, add, String-Key}
use syllog.Package.Release.{
  External, PackageRelease, PackageIndex, ResolvePolicy, ResolveError, invalid_requirement,
  conflict,
}

pub record Constraint (Requirement : Type 0) : Type 0 where
  pub requirement : Requirement
  pub text : String
  pub origin : String
  pub exact : Bool

abbrev pub Constraints : Type 0 → Type 0
Constraints Requirement = TreeMap String (List (Constraint Requirement))

abbrev pub Selected : Type 0 → Type 0
Selected Version = TreeMap String (PackageRelease Version)

-- `entry(name).or_default()`
unfoldable pub active_of :
    {Requirement : Type 0} → String → Constraints Requirement → List (Constraint Requirement)
active_of name constraints = elim (lookup name constraints) [ none ↦ [] | some active ↦ active ]

unfoldable pub root_origin : String → String → String
root_origin name text = "root requires " <> name <> " " <> text

module _ {Version Requirement : Type 0} (external : External Version Requirement) where
  unfoldable pub constraint : Requirement → String → String → Constraint Requirement
  constraint requirement text origin = record {
    requirement = requirement;
    text = text;
    origin = origin;
    exact = trimmed_starts_with b'=' text;
  }

  unfoldable pub add_constraint :
      Constraints Requirement
      → String
      → String
      → String
      → Result (Constraints Requirement) (ResolveError Version)
  add_constraint constraints name text origin = elim (external.parse text) [
    | err reason ↦ err (invalid_requirement name text reason)
    | ok requirement ↦ ok (
        insert name (active_of name constraints ++ constraint requirement text origin ∷ [])
          constraints)
  ]

  -- A constraint for each dependency, in the order of their names.
  unfoldable pub add_dependencies :
      (String → String → String)
      → TreeMap String String
      → Constraints Requirement
      → Result (Constraints Requirement) (ResolveError Version)
  add_dependencies origin [] constraints = ok constraints
  add_dependencies origin ((name, text) ∷ rest) constraints =
      elim (add_constraint constraints name text (origin name text)) [
        | err e ↦ err e
        | ok constraints' ↦ add_dependencies origin rest constraints'
      ]

  unfoldable pub release_origin : PackageRelease Version → String → String → String
  release_origin r name text =
      r.name <> " " <> external.display r.version <> " requires " <> name <> " " <> text

  unfoldable pub all_match : List (Constraint Requirement) → Version → Bool
  all_match [] version = true
  all_match (c ∷ active) version =
      external.matches c.requirement version && all_match active version

  unfoldable pub exact_match : List (Constraint Requirement) → Version → Bool
  exact_match [] version = false
  exact_match (c ∷ active) version =
      (c.exact && external.matches c.requirement version) || exact_match active version

  unfoldable pub is_compatible : List (Constraint Requirement) → PackageRelease Version → Bool
  is_compatible active r =
      all_match active r.version && (not r.yanked || exact_match active r.version)

  unfoldable pub compatible :
      List (Constraint Requirement) → List (PackageRelease Version) → List (PackageRelease Version)
  compatible active [] = []
  compatible active (r ∷ rs) =
      let rest = compatible active rs in if is_compatible active r then r ∷ rest else rest

  -- `retain(|release| release.available_offline)`
  unfoldable pub available : List (PackageRelease Version) → List (PackageRelease Version)
  available [] = []
  available (r ∷ rs) = let rest = available rs in if r.available_offline then r ∷ rest else rest

  unfoldable pub count_candidates :
      Bool → List (Constraint Requirement) → List (PackageRelease Version) → ℕ
  count_candidates offline active [] = 0
  count_candidates offline active (r ∷ rs) =
      let rest = count_candidates offline active rs in
      if is_compatible active r && (not offline || r.available_offline) then suc rest else rest

  unfoldable pub candidate_count :
      PackageIndex Version → String → List (Constraint Requirement) → ResolvePolicy → ℕ
  candidate_count index name active policy = count_candidates policy.offline active (index name)

  unfoldable pub requirement_texts : List (Constraint Requirement) → TreeSet String
  requirement_texts [] = []
  requirement_texts (c ∷ active) =
      add (c.origin <> " (" <> c.text <> ")") (requirement_texts active)

  unfoldable pub conflict_of : String → List (Constraint Requirement) → ResolveError Version
  conflict_of name active = conflict name (requirement_texts active)

  -- A selected package whose release fails a constraint, with the constraints of the package.
  unfoldable pub violated :
      Constraints Requirement → Selected Version → Option (String × List (Constraint Requirement))
  violated constraints [] = none
  violated constraints ((name, r) ∷ rest) =
      let later = violated constraints rest in
      elim (lookup name constraints) [
        | none ↦ later
        | some active ↦ if all_match active r.version then later else some (name, active)
      ]

  -- The package that is not selected and has the fewest candidates. The names ascend, so the first
  -- of those with equally many is the least.
  unfoldable pub fewer :
      ℕ
      → String
      → List (Constraint Requirement)
      → Option (ℕ × String × List (Constraint Requirement))
      → Option (ℕ × String × List (Constraint Requirement))
  fewer count name active none = some (count, name, active)
  fewer count name active (some (other_count, other_name, others)) =
      if leb count other_count
      then some (count, name, active)
      else some (other_count, other_name, others)

  unfoldable pub choose :
      PackageIndex Version
      → ResolvePolicy
      → Selected Version
      → Constraints Requirement
      → Option (ℕ × String × List (Constraint Requirement))
  choose index policy selected [] = none
  choose index policy selected ((name, active) ∷ rest) =
      let later = choose index policy selected rest in
      elim (lookup name selected) [
        | some _ ↦ later
        | none ↦ fewer (candidate_count index name active policy) name active later
      ]
