-- ===== src/Examples/Routes.antt =====
-- Routes and providers: crates/syllog-proxy/src/router.rs and registry.rs on small tables.
use syllog.Prelude.{ℕ, Option, String, List, [], ◌∷◌, some, none, ok, err, ◌≡◌}
use syllog.Proxy.Router.{
  ModelRoute, RouterOp, tripped, restored, new, apply_all, select, first_closed, select-apply_all,
}
use syllog.Proxy.Registry.{
  ProviderAbiVersion, no_credential, ProviderDescriptor, unknown, register_all, resolve, FirstNamed,
  resolve-register_all,
}

abbrev route : String → ModelRoute
route name = record { name = name; provider = "test"; model = name }

abbrev two_routes : List ModelRoute
two_routes = route "primary" ∷ route "fallback" ∷ []

abbrev ops : List RouterOp
ops = tripped "primary" ∷ tripped "fallback" ∷ restored "fallback" ∷ []

select-apply_all_example : select (apply_all ops (new two_routes)) ≡ first_closed ops two_routes
select-apply_all_example = select-apply_all ops two_routes

abbrev abi : ℕ → ℕ → ProviderAbiVersion
abi major minor = record { major = major; minor = minor }

abbrev provider : String → ProviderAbiVersion → ProviderDescriptor
provider name version = record { name = name; abi = version; credentials = no_credential }

-- The first needs a newer runtime, the third has a name that is taken.
abbrev providers : List ProviderDescriptor
providers = provider "test" (abi 1 9) ∷ provider "test" (abi 1 2) ∷ provider "test" (abi 1 0) ∷ []

resolve-register_all_example :
    (result : Option ProviderDescriptor) × FirstNamed
      (λ (d : ProviderDescriptor). d)
      (abi 1 3)
      "test"
      providers
      result
    × (resolve
          (λ (d : ProviderDescriptor). d)
          (route "primary")
          (register_all (λ (d : ProviderDescriptor). d) (abi 1 3) providers [])
        ≡ (elim result [ some adapter ↦ ok adapter | none ↦ err (unknown "test") ]))
resolve-register_all_example =
    resolve-register_all (λ (d : ProviderDescriptor). d) (abi 1 3) providers (route "primary")
