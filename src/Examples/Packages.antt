-- ===== src/Examples/Packages.antt =====
-- A small registry: runs of crates/syllog-package/src/resolver.rs on it, and the theorems there.
use mathlib.Core.List.{Memᴰ}
use text.Mathlib.Text.{◌==◌ as string_eq}
use syllog.Prelude.{
  ℕ, String, true, false, List, [], ◌∷◌, Option, none, some, ok, err, ◌≡◌, ◌≢◌, refl, subst, sym,
  arith, All, ◌==◌, ltb, if◌then◌else◌,
}
use syllog.Prelude.TreeMap.{TreeMap, lookup, insert, add, String-Key}
use syllog.Prelude.Text.{is_whitespace, trimmed_starts_with}
use syllog.Package.Release.{
  External, PackageRelease, PackageIndex, ResolvePolicy, normal, list_eq, is_normal, all_normal,
  is_safe, unsafe_path, release_eq, reject_ambiguous, path_error, validate_release, precedes,
  insert_sorted, sort_releases,
}
use syllog.Package.Constraint.{
  active_of, constraint, add_constraint, add_dependencies, root_origin, release_origin, all_match,
  exact_match, is_compatible, compatible, available, count_candidates, candidate_count,
  requirement_texts, conflict_of, violated, fewer, choose,
}
use syllog.Package.Search.{
  solved, out_of_fuel, Resolution, LockedPackage, insert_pair, sort_pairs, selected_key,
  constraint_key, state_fingerprint, state_eq, failure_of, after_conflict, last_or, try_releases,
  admitted, branch, search, locked_dependencies, locked_package, resolution_of, resolution_outcome,
  resolve,
}
use syllog.Package.Solution.{IsSolution}
use syllog.Package.Sound.Runs.{resolve-IsSolution}
use syllog.Package.Ends.{resolve-ne-out_of_fuel}

-- Versions are numbers, a requirement is one of them or `*`, and the digest tells whether there is
-- any content.
abbrev numbers : External ℕ (Option ℕ)
numbers = record {
  parse = λ text.
      if string_eq text "*"
      then ok none
      else if string_eq text "=1"
      then ok (some 1)
      else if string_eq text "=2"
      then ok (some 2)
      else err "unknown";
  matches = λ q v. elim q [ none ↦ true | some n ↦ n == v ];
  version_lt = ltb;
  version_eq = ◌==◌;
  display = λ v. if v == 1 then "1" else "2";
  digest = λ content. elim content [ [] ↦ "e0" | _ ∷ _ ↦ "f1" ];
}

abbrev release : String → ℕ → TreeMap String String → PackageRelease ℕ
release name version dependencies = record {
  name = name;
  version = version;
  dependencies = dependencies;
  checksum = "f1";
  content = 7 ∷ [];
  yanked = false;
  available_offline = true;
  archive_paths = (normal "src" ∷ normal "lib.syl" ∷ []) ∷ [];
}

-- The newest `app` wants the first `lib`, and `ui` rules the newest `app` out.
abbrev registry : PackageIndex ℕ
registry name =
    if string_eq name "app"
    then release "app" 1 (("lib", "*") ∷ []) ∷ release "app" 2 (("lib", "=1") ∷ []) ∷ []
    else if string_eq name "lib"
    then release "lib" 1 [] ∷ release "lib" 2 [] ∷ []
    else if string_eq name "ui"
    then release "ui" 2 (("lib", "=2") ∷ []) ∷ []
    else []

abbrev roots : TreeMap String String
roots = ("app", "*") ∷ ("ui", "*") ∷ []

abbrev online : ResolvePolicy
online = record { offline = false }

abbrev locked : String → ℕ → TreeMap String ℕ → LockedPackage ℕ
locked name version dependencies = record {
  name = name;
  version = version;
  checksum = "f1";
  dependencies = dependencies;
}

abbrev solution : Resolution ℕ
solution = record {
  format = 1;
  packages =
      locked "app" 1 (("lib", 2) ∷ []) ∷ locked "lib" 2 [] ∷ locked "ui" 2 (("lib", 2) ∷ []) ∷ [];
}

-- The search backs out of the newest `app`.
registry_solved : resolve numbers 4 roots registry online ≡ solved solution
unfolding String-Key lookup insert add is_whitespace trimmed_starts_with list_eq is_normal
    all_normal is_safe unsafe_path release_eq reject_ambiguous path_error validate_release precedes
    insert_sorted sort_releases active_of constraint add_constraint add_dependencies root_origin
    release_origin all_match exact_match is_compatible compatible available count_candidates
    candidate_count requirement_texts conflict_of violated fewer choose insert_pair sort_pairs
    selected_key constraint_key state_fingerprint state_eq failure_of after_conflict last_or
    try_releases admitted branch search locked_dependencies locked_package resolution_of
    resolution_outcome resolve
registry_solved = refl

resolve-IsSolution_example :
    (selected : TreeMap String (PackageRelease ℕ)) × IsSolution numbers registry online roots
      selected
    × (solution ≡ resolution_of numbers selected)
resolve-IsSolution_example =
    resolve-IsSolution numbers registry online roots 4 solution registry_solved

abbrev names : List String
names = "app" ∷ "lib" ∷ "ui" ∷ []

abbrev WithinNames : TreeMap String String → Type 0
WithinNames m = All (λ (e : String × String). Memᴰ e.0 names) m

of_releases :
    (rs : List (PackageRelease ℕ)) (r : PackageRelease ℕ)
    → All (λ s. WithinNames s.dependencies) rs
    → Memᴰ r rs
    → WithinNames r.dependencies
of_releases (s ∷ rs) r h (Memᴰ.head e) = subst (λ t. WithinNames t.dependencies) (sym e) h.0
of_releases (s ∷ rs) r h (Memᴰ.tail m) = of_releases rs r h.1 m
of_releases [] r h m = elim m [ ]

lib_name : Memᴰ "lib" names
lib_name = Memᴰ.tail (Memᴰ.head refl)

registry_closed :
    (name : String) (r : PackageRelease ℕ)
    → Memᴰ name names
    → Memᴰ r (registry name)
    → WithinNames r.dependencies
registry_closed name r (Memᴰ.head e) m =
    of_releases (registry "app") r ((lib_name, tt), ((lib_name, tt), tt))
      (subst (λ n. Memᴰ r (registry n)) e m)
registry_closed name r (Memᴰ.tail (Memᴰ.head e)) m =
    of_releases (registry "lib") r (tt, (tt, tt)) (subst (λ n. Memᴰ r (registry n)) e m)
registry_closed name r (Memᴰ.tail (Memᴰ.tail (Memᴰ.head e))) m =
    of_releases (registry "ui") r ((lib_name, tt), tt) (subst (λ n. Memᴰ r (registry n)) e m)
registry_closed name r (Memᴰ.tail (Memᴰ.tail (Memᴰ.tail h))) m = elim h [ ]

resolve-ne-out_of_fuel_example : resolve numbers 4 roots registry online ≢ out_of_fuel
resolve-ne-out_of_fuel_example =
    resolve-ne-out_of_fuel numbers registry online names registry_closed 4 roots
      (Memᴰ.head refl, (Memᴰ.tail (Memᴰ.tail (Memᴰ.head refl)), tt)) (omega arith)
