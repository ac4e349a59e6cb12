-- ===== src/Package/Sound.antt =====
-- Proofs about crates/syllog-package/src/resolver.rs: what a successful search has checked.
pub mod Runs
use text.Mathlib.Text.{◌==◌ as string_eq}
use text.Mathlib.TextEquality.{eq_iff}
use mathlib.Core.List.{Memᴰ}
use syllog.Prelude.{
  All-members, ℕ, zero, suc, String, Bool, true, false, not, ◌&&◌, List, [], ◌∷◌, Option, none,
  some, Result, ok, err, ◌≡◌, refl, ap, sym, ◌∙◌, inl, inr, arith, All, All-map, Bool-cases,
  Option-cases, Result-cases, if-cases, if◌then◌else◌,
}
use syllog.Prelude.TreeMap.{TreeMap, lookup, insert, lookup-insert, String-Key}
use syllog.Package.Release.{
  External, Component, normal, offline_unavailable, FilePath, PackageRelease, PackageIndex,
  ResolvePolicy, is_normal, all_normal, is_safe, unsafe_path, path_error, validate_release,
  insert_sorted, sort_releases, precedes, reject_ambiguous,
}
use syllog.Package.Constraint.{
  Constraint, Constraints, Selected, add_dependencies, release_origin, all_match, is_compatible,
  compatible, available, violated, fewer, choose, candidate_count,
}
use syllog.Package.Search.{Outcome, solved, failed, admitted}
use syllog.Package.Solution.{
  IsNormal, IsSafe, IsVerified, IsSolution, Met, Demands, Grows, Demands-Grows,
  add_dependencies-Grows, add_dependencies-Demands,
}

all_normal-All : (path : FilePath) → all_normal path ≡ true → All IsNormal path
unfolding all_normal is_normal
all_normal-All [] h = tt
all_normal-All (normal name ∷ path) h = ((name, refl), all_normal-All path h)
all_normal-All (Component.prefix name ∷ path) h = absurd (cc)
all_normal-All (Component.root_dir ∷ path) h = absurd (cc)
all_normal-All (Component.cur_dir ∷ path) h = absurd (cc)
all_normal-All (Component.parent_dir ∷ path) h = absurd (cc)

is_safe-IsSafe : (path : FilePath) → is_safe path ≡ true → IsSafe path
unfolding is_safe
is_safe-IsSafe [] h = absurd (cc)
is_safe-IsSafe (c ∷ path) h = (λ e. absurd (cc), all_normal-All (c ∷ path) h)

unsafe_path-All : (paths : List FilePath) → unsafe_path paths ≡ none → All IsSafe paths
unfolding unsafe_path
unsafe_path-All [] h = tt
unsafe_path-All (path ∷ paths) h =
    (is_safe-IsSafe path (ground arith), unsafe_path-All paths (ground arith))

module _ {Version Requirement : Type 0} (external : External Version Requirement) where
  path_error-All :
      (r : PackageRelease Version) → path_error external r ≡ none → All IsSafe r.archive_paths
  unfolding path_error
  path_error-All r h = elim (Option-cases (unsafe_path r.archive_paths)) [
    | inl e ↦ unsafe_path-All r.archive_paths e
    | inr (path, e) ↦ absurd (ground arith)
  ]

  pub validate_release-IsSafe :
      (r : PackageRelease Version)
      → validate_release external r ≡ none
      → (external.digest r.content ≡ r.checksum) × All IsSafe r.archive_paths
  unfolding validate_release
  validate_release-IsSafe r h = (
    (eq_iff (external.digest r.content) r.checksum).0 (ground arith),
    path_error-All r (ground arith),
  )

  module _ (P : PackageRelease Version → Type 0) where
    insert_sorted-All :
        (r : PackageRelease Version) (rs : List (PackageRelease Version))
        → P r
        → All P rs
        → All P (insert_sorted external r rs)
    unfolding insert_sorted
    insert_sorted-All r [] p h = (p, tt)
    insert_sorted-All r (x ∷ rs) p h =
        if-cases (All P) (precedes external x r) (λ e. (h.0, insert_sorted-All r rs p h.1))
          (λ e. (p, h))

    sort_releases-All :
        (rs : List (PackageRelease Version)) → All P rs → All P (sort_releases external rs)
    unfolding sort_releases
    sort_releases-All [] h = tt
    sort_releases-All (r ∷ rs) h =
        insert_sorted-All r (sort_releases external rs) h.0 (sort_releases-All rs h.1)

    compatible-All :
        (active : List (Constraint Requirement)) (rs : List (PackageRelease Version))
        → All P rs
        → All P (compatible external active rs)
    unfolding compatible
    compatible-All active [] h = tt
    compatible-All active (r ∷ rs) h =
        if-cases (All P) (is_compatible external active r)
          (λ e. (h.0, compatible-All active rs h.1)) (λ e. compatible-All active rs h.1)

    available-All :
        (rs : List (PackageRelease Version))
        → All P rs
        → All (λ r. P r × (r.available_offline ≡ true)) (available external rs)
    unfolding available
    available-All [] h = tt
    available-All (r ∷ rs) h =
        if-cases (All (λ r. P r × (r.available_offline ≡ true))) r.available_offline
          (λ e. ((h.0, e), available-All rs h.1)) (λ e. available-All rs h.1)

    admitted-offline :
        (offline : Bool) (name : String)
        (releases some_available admissible : List (PackageRelease Version))
        → offline ≡ true
        → All (λ r. P r × (r.available_offline ≡ true)) some_available
        → (elim some_available [
          | r ∷ rs ↦ ok (r ∷ rs)
          | [] ↦ elim releases [ [] ↦ ok [] | r ∷ rs ↦ err (offline_unavailable name r.version) ]
        ])
          ≡ ok admissible
        → All (λ r. P r × (offline ≡ true → r.available_offline ≡ true)) admissible
    admitted-offline offline name releases (r ∷ rs) admissible on h e =
        let same : r ∷ rs ≡ admissible = cc in
        rw (sym same) (All-map (r ∷ rs) (λ r p. (p.0, λ on. p.1)) h)
    admitted-offline offline name [] [] admissible on h e =
        let same : [] ≡ admissible = cc in rw (sym same) tt
    admitted-offline offline name (r ∷ rs) [] admissible on h e = absurd (cc)

    -- Where the policy admits releases, offline each of them is at hand.
    admitted-All :
        (policy : ResolvePolicy) (name : String) (active : List (Constraint Requirement))
        (rs admissible : List (PackageRelease Version))
        → All P rs
        → admitted external policy name active rs ≡ ok admissible
        → All (λ r. P r × (policy.offline ≡ true → r.available_offline ≡ true)) admissible
    unfolding admitted
    admitted-All policy name active rs admissible h e = elim (Bool-cases policy.offline) [
      | inl on ↦
          admitted-offline policy.offline name rs (available external rs) admissible on
            (available-All rs h) (ground arith)
      | inr off ↦
          let same : rs ≡ admissible = ground arith in
          rw (sym same) (All-map rs (λ r p. (p, λ on. absurd (cc))) h)
    ]

  -- The candidates of the loop.
  abbrev pub Candidate :
      PackageIndex Version → ResolvePolicy → String → PackageRelease Version → Type 0
  Candidate index policy name r =
      Memᴰ r (index name) × (policy.offline ≡ true → r.available_offline ≡ true)

  pub admitted-Candidate :
      (index : PackageIndex Version) (policy : ResolvePolicy) (name : String)
      (active : List (Constraint Requirement)) (admissible : List (PackageRelease Version))
      → admitted external policy name active
          (compatible external active (sort_releases external (index name)))
        ≡ ok admissible
      → All (Candidate index policy name) admissible
  admitted-Candidate index policy name active admissible e =
      let listed : PackageRelease Version → Type 0 = λ r. Memᴰ r (index name) in
      admitted-All listed policy name active
        (compatible external active (sort_releases external (index name))) admissible
        (compatible-All listed active (sort_releases external (index name))
          (sort_releases-All listed (index name) (All-members (index name))))
        e
