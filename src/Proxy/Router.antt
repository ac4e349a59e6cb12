-- ===== src/Proxy/Router.antt =====
-- crates/syllog-proxy/src/router.rs: the ordered routing table. The names in the set of unavailable
-- routes are a list, as their order is not observed.
use syllog.Prelude.{
  String, Bool, false, not, ◌&&◌, ◌||◌, List, [], ◌∷◌, Option, none, some, ◌≡◌, refl, ap, ◌∙◌,
  arith, if◌then◌else◌,
}
use syllog.Prelude.TreeMap.{TreeSet, member, add, member-add, String-Key}

pub record ModelRoute : Type 0 where
  pub name : String
  pub provider : String
  pub model : String

pub record Router : Type 0 where
  pub routes : List ModelRoute
  pub unavailable : TreeSet String

unfoldable pub new : List ModelRoute → Router
new routes = record { routes = routes; unavailable = [] }

unfoldable pub without : String → TreeSet String → TreeSet String
without name [] = []
without name (x ∷ names) =
    let rest = without name names in if String-Key.eq x name then rest else x ∷ rest

unfoldable pub trip : String → Router → Router
trip name router = record { routes = router.routes; unavailable = add name router.unavailable }

unfoldable pub restore : String → Router → Router
restore name router = record {
  routes = router.routes;
  unavailable = without name router.unavailable;
}

-- The first route that is not unavailable.
unfoldable pub first_available : TreeSet String → List ModelRoute → Option ModelRoute
first_available unavailable [] = none
first_available unavailable (route ∷ routes) =
    let later = first_available unavailable routes in
    if not (member unavailable route.name) then some route else later

unfoldable pub select : Router → Option ModelRoute
select router = first_available router.unavailable router.routes

-- A caller's operations.
pub data RouterOp : Type 0 where
  tripped : String → RouterOp
  restored : String → RouterOp

unfoldable pub apply_all : List RouterOp → Router → Router
apply_all [] router = router
apply_all (tripped name ∷ ops) router = apply_all ops (trip name router)
apply_all (restored name ∷ ops) router = apply_all ops (restore name router)

-- The state of a route: open after the last of its operations was a trip.
abbrev pub is_open : Bool → List RouterOp → String → Bool
is_open open_before [] name = open_before
is_open open_before (tripped other ∷ ops) name =
    is_open (String-Key.eq other name || open_before) ops name
is_open open_before (restored other ∷ ops) name =
    is_open (not (String-Key.eq other name) && open_before) ops name

abbrev pub first_closed : List RouterOp → List ModelRoute → Option ModelRoute
first_closed ops [] = none
first_closed ops (route ∷ routes) =
    if not (is_open false ops route.name) then some route else first_closed ops routes

member-without :
    (name other : String) (names : TreeSet String)
    → member (without name names) other ≡ (not (String-Key.eq name other) && member names other)
unfolding member without
member-without name other [] = ground arith
member-without name other (x ∷ names) = ground (
  arith,
  member-without name other names,
  String-Key.eq_iff x name,
  String-Key.eq_iff x other,
  String-Key.eq_iff name other,
)

member-apply_all :
    (ops : List RouterOp) (router : Router) (name : String)
    → member (apply_all ops router).unavailable name
      ≡ is_open (member router.unavailable name) ops name
unfolding apply_all trip restore
member-apply_all [] router name = refl
member-apply_all (tripped other ∷ ops) router name =
    member-apply_all ops (trip other router) name
    ∙ ap (λ b. is_open b ops name) (member-add other name router.unavailable)
member-apply_all (restored other ∷ ops) router name =
    member-apply_all ops (restore other router) name
    ∙ ap (λ b. is_open b ops name) (member-without other name router.unavailable)

apply_all-routes :
    (ops : List RouterOp) (router : Router) → (apply_all ops router).routes ≡ router.routes
unfolding apply_all trip restore
apply_all-routes [] router = refl
apply_all-routes (tripped other ∷ ops) router = apply_all-routes ops (trip other router)
apply_all-routes (restored other ∷ ops) router = apply_all-routes ops (restore other router)

new-closed : (all : List ModelRoute) (name : String) → member (new all).unavailable name ≡ false
unfolding new member
new-closed all name = refl

first_available-closed :
    (ops : List RouterOp) (all routes : List ModelRoute)
    → first_available (apply_all ops (new all)).unavailable routes ≡ first_closed ops routes
unfolding first_available
first_available-closed ops all [] = refl
first_available-closed ops all (route ∷ routes) =
    let state : member (apply_all ops (new all)).unavailable route.name
        ≡ is_open false ops route.name =
      member-apply_all ops (new all) route.name
      ∙ ap (λ b. is_open b ops route.name) (new-closed all route.name) in
    ground (arith, first_available-closed ops all routes)

-- After any operations, a router selects the first of its routes that was never tripped or was restored
-- since it was last tripped, and nothing where there is none.
pub select-apply_all :
    (ops : List RouterOp) (routes : List ModelRoute)
    → select (apply_all ops (new routes)) ≡ first_closed ops routes
unfolding select new
select-apply_all ops routes =
    ap (first_available (apply_all ops (new routes)).unavailable)
      (apply_all-routes ops (new routes))
    ∙ first_available-closed ops routes routes
