-- ===== src/Proxy/Registry.antt =====
-- crates/syllog-proxy/src/registry.rs: providers and the negotiation of their ABI. An adapter is a
-- value of the host, of which the registry reads the descriptor.
use syllog.Prelude.{
  ℕ, String, Bool, true, false, not, ◌&&◌, ◌||◌, List, [], ◌∷◌, Option, none, some, Result, ok, err,
  ◌≡◌, ap, inl, inr, arith, ltb, ◌==◌, if◌then◌else◌, Bool-cases, Option-cases, ◌≤◌, ◌↔◌, if-cases,
}
use syllog.Prelude.TreeMap.{TreeMap, lookup, insert, lookup-insert, String-Key}
use syllog.Proxy.Router.{ModelRoute}

pub record ProviderAbiVersion : Type 0 where
  pub major : ℕ
  pub minor : ℕ

pub data CredentialKind : Type 0 where
  no_credential bearer_token local_capability : CredentialKind

pub record ProviderDescriptor : Type 0 where
  pub name : String
  pub abi : ProviderAbiVersion
  pub credentials : CredentialKind

pub data ProviderLookupError : Type 0 where
  abi_mismatch : String → ProviderAbiVersion → ProviderAbiVersion → ProviderLookupError
  duplicate : String → ProviderLookupError
  unknown : String → ProviderLookupError

same-lookup :
    {A : Type 0} (own name : String) (m : TreeMap String A)
    → String-Key.eq own name ≡ true
    → lookup own m ≡ lookup name m
same-lookup own name m h = ap (λ n. lookup n m) ((String-Key.eq_iff own name).0 h)

module _ {Adapter : Type 0} (descriptor : Adapter → ProviderDescriptor) where
  unfoldable pub is_mismatch : ProviderAbiVersion → Adapter → Bool
  is_mismatch supported adapter =
      not ((descriptor adapter).abi.major == supported.major)
      || ltb supported.minor (descriptor adapter).abi.minor

  -- The registry after a registration, and its error.
  unfoldable pub register :
      ProviderAbiVersion
      → Adapter
      → TreeMap String Adapter
      → TreeMap String Adapter × Option ProviderLookupError
  register supported adapter adapters =
      if is_mismatch supported adapter
      then (
        adapters,
        some (abi_mismatch (descriptor adapter).name (descriptor adapter).abi supported),
      )
      else elim (lookup (descriptor adapter).name adapters) [
        | some _ ↦ (adapters, some (duplicate (descriptor adapter).name))
        | none ↦ (insert (descriptor adapter).name adapter adapters, none)
      ]

  -- `ProviderRegistrySnapshot::resolve`
  unfoldable pub resolve : ModelRoute → TreeMap String Adapter → Result Adapter ProviderLookupError
  resolve route adapters = elim (lookup route.provider adapters) [
    | some adapter ↦ ok adapter
    | none ↦ err (unknown route.provider)
  ]

  unfoldable pub register_all :
      ProviderAbiVersion → List Adapter → TreeMap String Adapter → TreeMap String Adapter
  register_all supported [] adapters = adapters
  register_all supported (adapter ∷ rest) adapters =
      register_all supported rest (register supported adapter adapters).0

  -- A provider's ABI has the runtime's major version and no later minor version.
  abbrev pub Compatible : ProviderAbiVersion → Adapter → Type 0
  Compatible supported adapter =
      ((descriptor adapter).abi.major ≡ supported.major)
      × ((descriptor adapter).abi.minor ≤ supported.minor)

  -- The first adapter of a list that has a name and is compatible.
  pub data FirstNamed (supported : ProviderAbiVersion) (name : String)
      : List Adapter → Option Adapter → Type 0 where
    exhausted : FirstNamed supported name [] none
    matched :
        (adapter : Adapter) (rest : List Adapter)
        → (descriptor adapter).name ≡ name
        → Compatible supported adapter
        → FirstNamed supported name (adapter ∷ rest) (some adapter)
    passed_over :
        (adapter : Adapter) {rest : List Adapter} {result : Option Adapter}
        → ¬ (((descriptor adapter).name ≡ name) × Compatible supported adapter)
        → FirstNamed supported name rest result
        → FirstNamed supported name (adapter ∷ rest) result

  abbrev first_named : ProviderAbiVersion → String → List Adapter → Option Adapter
  first_named supported name [] = none
  first_named supported name (adapter ∷ rest) =
      if not (is_mismatch supported adapter) && String-Key.eq (descriptor adapter).name name
      then some adapter
      else first_named supported name rest

  abbrev or_else : Option Adapter → Option Adapter → Option Adapter
  or_else (some a) later = some a
  or_else none later = later

  lookup-register :
      (supported : ProviderAbiVersion) (adapter : Adapter) (adapters : TreeMap String Adapter)
      (name : String)
      → lookup name (register supported adapter adapters).0
        ≡ or_else (lookup name adapters) (
            if not (is_mismatch supported adapter) && String-Key.eq (descriptor adapter).name name
            then some adapter
            else none)
  unfolding register
  lookup-register supported adapter adapters name =
      elim (Bool-cases (is_mismatch supported adapter)) [
        | inl bad ↦ ground arith
        | inr good ↦
            let own = (descriptor adapter).name in
            elim (Option-cases (lookup own adapters)) [
              | inl absent ↦
                  ground
                    (arith, lookup-insert own name adapter adapters, same-lookup own name adapters)
              | inr (other, found) ↦ ground (arith, same-lookup own name adapters)
            ]
      ]

  lookup-register_all :
      (supported : ProviderAbiVersion) (all : List Adapter) (adapters : TreeMap String Adapter)
      (name : String)
      → lookup name (register_all supported all adapters)
        ≡ or_else (lookup name adapters) (first_named supported name all)
  unfolding register_all
  lookup-register_all supported [] adapters name = ground arith
  lookup-register_all supported (adapter ∷ rest) adapters name = ground (
    arith,
    lookup-register_all supported rest (register supported adapter adapters).0 name,
    lookup-register supported adapter adapters name,
  )

  is_mismatch_iff :
      (supported : ProviderAbiVersion) (adapter : Adapter)
      → (is_mismatch supported adapter ≡ false) ↔ Compatible supported adapter
  unfolding is_mismatch
  is_mismatch_iff supported adapter = ground arith

  first_named-FirstNamed :
      (supported : ProviderAbiVersion) (name : String) (all : List Adapter)
      → FirstNamed supported name all (first_named supported name all)
  first_named-FirstNamed supported name [] = exhausted
  first_named-FirstNamed supported name (adapter ∷ rest) =
      let is_named = String-Key.eq_iff (descriptor adapter).name name in
      if-cases (FirstNamed supported name (adapter ∷ rest))
        (not (is_mismatch supported adapter) && String-Key.eq (descriptor adapter).name name)
        (λ yes.
          matched adapter rest (is_named.0 (ground arith))
            ((is_mismatch_iff supported adapter).0 (ground arith)))
        (λ no.
          passed_over adapter
            (λ (e, fits).
              let same = is_named.1 e in
              let fine = (is_mismatch_iff supported adapter).1 fits in absurd (ground arith))
            (first_named-FirstNamed supported name rest))

  -- After any registrations on a new registry, a route resolves to the first registered adapter that
  -- has the name of the route's provider, the supported major version, and a minor version that is
  -- not above the supported one, whatever was registered before and after it; where there is none,
  -- the provider is unknown.
  pub resolve-register_all :
      (supported : ProviderAbiVersion) (all : List Adapter) (route : ModelRoute)
      → (result : Option Adapter) × FirstNamed supported route.provider all result
        × (resolve route (register_all supported all [])
            ≡ (elim result [ some adapter ↦ ok adapter | none ↦ err (unknown route.provider) ]))
  unfolding resolve lookup
  resolve-register_all supported all route = (
    first_named supported route.provider all,
    first_named-FirstNamed supported route.provider all,
    ap (λ found. elim found [ some adapter ↦ ok adapter | none ↦ err (unknown route.provider) ])
        (lookup-register_all supported all [] route.provider),
  )
