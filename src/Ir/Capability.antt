-- ===== src/Ir/Capability.antt =====
-- crates/syllog-ir/src/lib.rs: effects and the capability manifest of an artifact.
use Prim.Native.String.{String}
use text.Mathlib.Text.{◌==◌ as str_eq}
use text.Mathlib.TextEquality.{eq_iff}
use syllog.Prelude.{
  ℕ, List, [], Option, none, some, ◌≡◌, ◌↔◌, refl, if◌then◌else◌, Bool-cases, ◌⊎◌, inl, inr, ap,
  ◌∙◌,
}

pub data Effect : Type 0 where
  alloc async io network provider : Effect

unfoldable pub from_source : String → Option Effect
from_source name =
    if str_eq name "alloc"
    then some alloc
    else if str_eq name "async"
    then some async
    else if str_eq name "io"
    then some io
    else if str_eq name "network"
    then some network
    else if str_eq name "provider"
    then some provider
    else none

unfoldable pub as_str : Effect → String
as_str alloc = "alloc"
as_str async = "async"
as_str io = "io"
as_str network = "network"
as_str provider = "provider"

-- `required` is the content of a `BTreeSet`.
pub record CapabilityManifest : Type 0 where
  pub format_version : ℕ
  pub required : List Effect

unfoldable pub default_manifest : CapabilityManifest
default_manifest = record { format_version = 1; required = [] }

-- A source spelling names an effect exactly when it is the spelling that `as_str` prints for it.
pub from_source_iff : (name : String) (e : Effect) → (from_source name ≡ some e) ↔ (name ≡ as_str e)
unfolding from_source as_str
from_source_iff name e = (sound, λ h. rw h (printed e))
  where
    printed : (e : Effect) → from_source (as_str e) ≡ some e
    printed alloc = refl
    printed async = refl
    printed io = refl
    printed network = refl
    printed provider = refl

    named :
        (e' : Effect) (rest : Option Effect)
        → (if str_eq name (as_str e') then some e' else rest) ≡ some e
        → (name ≡ as_str e) ⊎ (rest ≡ some e)
    named e' rest h = elim (Bool-cases (str_eq name (as_str e'))) [
      | inl same_text ↦
          let same : e' ≡ e = cc (rw same_text at h) in
          inl ((eq_iff name (as_str e')).0 same_text ∙ ap as_str same)
      | inr other ↦ inr (rw other at h)
    ]

    sound : from_source name ≡ some e → name ≡ as_str e
    sound h = elim (named alloc _ h) [
      | inl p ↦ p
      | inr h₁ ↦ elim (named async _ h₁) [
        | inl p ↦ p
        | inr h₂ ↦ elim (named io _ h₂) [
          | inl p ↦ p
          | inr h₃ ↦ elim (named network _ h₃) [
            | inl p ↦ p
            | inr h₄ ↦ elim (named provider _ h₄) [ inl p ↦ p | inr h₅ ↦ absurd (cc h₅) ]
          ]
        ]
      ]
    ]
