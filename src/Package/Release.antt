-- ===== src/Package/Release.antt =====
-- crates/syllog-package/src/resolver.rs: releases, errors, and the checks of one release. Semantic
-- versions and SHA-256 come from other packages and are operations of the interface `External`.
use syllog.Prelude.{
  ℕ, String, Bool, true, false, not, ◌&&◌, List, [], ◌∷◌, Option, none, some, ◌==◌, if◌then◌else◌,
  Result,
}
use Prim.Native.String
use text.Mathlib.Text.{is_lt, ◌==◌ as string_eq}
use syllog.Prelude.TreeMap.{TreeMap}

-- `semver::Version` and `semver::VersionReq`, and the lowercase hexadecimal SHA-256 digest.
pub record External (Version Requirement : Type 0) : Type 0 where
  pub parse : String → Result Requirement String
  pub matches : Requirement → Version → Bool
  pub version_lt : Version → Version → Bool
  pub version_eq : Version → Version → Bool
  pub display : Version → String
  pub digest : List ℕ → String

-- `std::path::Component`. A path is the list of its components.
pub data Component : Type 0 where
  normal : String → Component
  prefix : String → Component
  root_dir cur_dir parent_dir : Component

abbrev pub FilePath : Type 0
FilePath = List Component

pub record PackageRelease (Version : Type 0) : Type 0 where
  pub name : String
  pub version : Version
  pub dependencies : TreeMap String String
  pub checksum : String
  pub content : List ℕ
  pub yanked : Bool
  pub available_offline : Bool
  pub archive_paths : List FilePath

-- `PackageIndex::releases`.
abbrev pub PackageIndex : Type 0 → Type 0
PackageIndex Version = String → List (PackageRelease Version)

pub record ResolvePolicy : Type 0 where
  pub offline : Bool

pub data ResolveError (Version : Type 0) : Type 0 where
  invalid_requirement : String → String → String → ResolveError Version
  conflict : String → List String → ResolveError Version
  offline_unavailable : String → Version → ResolveError Version
  checksum_mismatch : String → Version → String → String → ResolveError Version
  unsafe_archive_path : String → Version → FilePath → ResolveError Version
  ambiguous_release : String → Version → ResolveError Version

-- The equalities that Rust derives.
unfoldable pub list_eq : {A : Type 0} → (A → A → Bool) → List A → List A → Bool
list_eq eq [] [] = true
list_eq eq (x ∷ xs) (y ∷ ys) = eq x y && list_eq eq xs ys
list_eq eq _ _ = false

abbrev pub pair_eq : String × String → String × String → Bool
pair_eq a b = string_eq a.0 b.0 && string_eq a.1 b.1

same_bool : Bool → Bool → Bool
same_bool true b = b
same_bool false b = not b

component_eq : Component → Component → Bool
component_eq (Component.normal s) (Component.normal t) = string_eq s t
component_eq (Component.prefix s) (Component.prefix t) = string_eq s t
component_eq Component.root_dir Component.root_dir = true
component_eq Component.cur_dir Component.cur_dir = true
component_eq Component.parent_dir Component.parent_dir = true
component_eq _ _ = false

-- `matches!(component, Component::Normal(_))`
unfoldable pub is_normal : Component → Bool
is_normal (Component.normal s) = true
is_normal _ = false

unfoldable pub all_normal : List Component → Bool
all_normal [] = true
all_normal (c ∷ path) = is_normal c && all_normal path

-- A path without components is the empty one.
unfoldable pub is_safe : FilePath → Bool
is_safe [] = false
is_safe (c ∷ path) = all_normal (c ∷ path)

unfoldable pub unsafe_path : List FilePath → Option FilePath
unsafe_path [] = none
unsafe_path (path ∷ paths) =
    let rest = unsafe_path paths in if is_safe path then rest else some path

module _ {Version Requirement : Type 0} (external : External Version Requirement) where
  unfoldable pub release_eq : PackageRelease Version → PackageRelease Version → Bool
  unfolding component_eq same_bool
  release_eq a b =
      string_eq a.name b.name
      && external.version_eq a.version b.version
      && list_eq pair_eq a.dependencies b.dependencies
      && string_eq a.checksum b.checksum
      && list_eq ◌==◌ a.content b.content
      && same_bool a.yanked b.yanked
      && same_bool a.available_offline b.available_offline
      && list_eq (list_eq component_eq) a.archive_paths b.archive_paths

  -- Two neighbours of one version that differ.
  unfoldable pub reject_ambiguous :
      String → List (PackageRelease Version) → Option (ResolveError Version)
  reject_ambiguous name [] = none
  reject_ambiguous name (a ∷ []) = none
  reject_ambiguous name (a ∷ b ∷ rest) =
      let later = reject_ambiguous name (b ∷ rest) in
      if external.version_eq a.version b.version && not (release_eq a b)
      then some (ambiguous_release name a.version)
      else later

  unfoldable pub path_error : PackageRelease Version → Option (ResolveError Version)
  path_error r = elim (unsafe_path r.archive_paths) [
    | none ↦ none
    | some path ↦ some (unsafe_archive_path r.name r.version path)
  ]

  unfoldable pub validate_release : PackageRelease Version → Option (ResolveError Version)
  validate_release r =
      let actual = external.digest r.content in
      if not (string_eq actual r.checksum)
      then some (checksum_mismatch r.name r.version r.checksum actual)
      else path_error r

  -- `sort_by`: descending versions, then ascending checksums.
  unfoldable pub precedes : PackageRelease Version → PackageRelease Version → Bool
  precedes a b =
      if external.version_lt b.version a.version
      then true
      else external.version_eq a.version b.version && is_lt (String.compare a.checksum b.checksum)

  -- The sort is stable: a release stands before those that it does not have to follow.
  unfoldable pub insert_sorted :
      PackageRelease Version → List (PackageRelease Version) → List (PackageRelease Version)
  insert_sorted r [] = r ∷ []
  insert_sorted r (x ∷ xs) =
      let rest = insert_sorted r xs in if precedes x r then x ∷ rest else r ∷ x ∷ xs

  unfoldable pub sort_releases : List (PackageRelease Version) → List (PackageRelease Version)
  sort_releases [] = []
  sort_releases (r ∷ rs) = insert_sorted r (sort_releases rs)
