-- ===== src/References/Updates.antt =====
-- What a look-up of a reference changes, and whom it tells.
use kubvernor.Prelude.{
  Bool, true, ◌&&◌, Option, none, some, List, [], ◌∷◌, any, if◌then◌else◌, ◌≡◌, refl, arith, not,
}
use kubvernor.Prelude.Maps.{Map, is_some, keys, get-insert, get-remove}
use kubvernor.Prelude.Maps
use kubvernor.Prelude.Sets
use kubvernor.Prelude.Sets.{contains-union, same as same_key}
use kubvernor.Prelude.Distinct.{Distinct, test_found}
use kubvernor.Keys.{ResourceKey, ResourceKey-discrete}
use kubvernor.References.Resolver.{
  References, Resolver, GatewayToRouteReferenceMapping, get_reference,
}
use kubvernor.References.Watch.{
  updated_gateways, updated_routes, refers, concerned, changed_routes, check_reference,
  store_answer,
}

abbrev dec : Discrete ResourceKey
dec = ResourceKey-discrete

contains-concerned :
    (g key : ResourceKey) (m : GatewayToRouteReferenceMapping)
    → Distinct dec m
    → Sets.contains dec g (concerned key m) ≡ test_found (refers key) (Maps.get dec g m)
unfolding concerned Maps.get Sets.contains
contains-concerned g key [] d = refl
contains-concerned g key ((j, routes) ∷ m) (new, d) = ground (arith, contains-concerned g key m d)

contains-changed_routes :
    (q key : ResourceKey) (m : GatewayToRouteReferenceMapping)
    → Sets.contains dec q (changed_routes key m)
      ≡ any (λ e. refers key e.1 && Sets.contains dec q (keys e.1)) m
unfolding changed_routes Sets.contains
contains-changed_routes q key [] = refl
contains-changed_routes q key ((j, routes) ∷ m) = ground (
  arith,
  contains-changed_routes q key m,
  contains-union dec q (changed_routes key m) (keys routes),
)

-- What is stored for a key after an answer: nothing after an error, the old object if it equals the
-- new one but for its metadata, and else the new one.
abbrev pub answered : {R : Type 0} → (R → R → Bool) → Option R → Option R → Option R
answered same none old = none
answered same (some x) none = some x
answered same (some x) (some f) = if same f x then some f else some x

-- Whether that differs from what was stored.
abbrev pub differs : {R : Type 0} → (R → R → Bool) → Option R → Option R → Bool
differs same none old = is_some old
differs same (some x) none = true
differs same (some x) (some f) = not (same f x)

store_answer_lem :
    {R : Type 0} (same : R → R → Bool) (key q : ResourceKey) (answer : Option R) (r : References R)
    → let old = Maps.get dec key r.resolved_references in
      let (r', changed) = store_answer same key answer r in
      (Maps.get dec q r'.resolved_references ≡ (elim (dec q key) [
        | yes _ ↦ answered same answer old
        | no _ ↦ Maps.get dec q r.resolved_references
      ]))
      × (r'.parents ≡ r.parents)
      × (changed ≡ differs same answer old)
unfolding store_answer
store_answer_lem same key q none r = ground (arith, get-remove dec q key r.resolved_references)
store_answer_lem same key q (some x) r =
    ground (arith, get-insert dec q key x r.resolved_references)

module _ {R : Type 0} (same : R → R → Bool) (key : ResourceKey) (answer : Option R) (r : Resolver R)
    (d : Distinct dec r.gateway_route_reference_mapping) where
  open r use {gateway_route_reference_mapping as before}

  -- A look-up of a reference stores the answer for its key alone, leaves the counters and the mapping
  -- as they are, and sends requests exactly if what is stored for the key changed by more than
  -- metadata: one names the gateways with a route that refers to the key, the other all routes of
  -- those gateways.
  pub check_reference_lem :
      let (r', requests) = check_reference same key answer r in
      let old = get_reference key r in
      ((q : ResourceKey)
        → get_reference q r'
          ≡ (elim (dec q key) [ yes _ ↦ answered same answer old | no _ ↦ get_reference q r ]))
      × (r'.gateway_route_reference_mapping ≡ before)
      × (r'.references.parents ≡ r.references.parents)
      × ((gateways : List ResourceKey) × (routes : List ResourceKey) × (requests ≡ (
            if differs same answer old
            then updated_gateways key gateways ∷ updated_routes key routes ∷ []
            else []))
          × ((g : ResourceKey)
              → Sets.contains dec g gateways ≡ test_found (refers key) (Maps.get dec g before))
          × ((q : ResourceKey)
              → Sets.contains dec q routes
                ≡ any (λ e. refers key e.1 && Sets.contains dec q (keys e.1)) before))
  unfolding check_reference get_reference
  check_reference_lem = (
    λ q. (store_answer_lem same key q answer r.references).0,
    refl,
    (store_answer_lem same key key answer r.references).1,
    (
      concerned key before,
      changed_routes key before,
      rw (store_answer_lem same key key answer r.references).2,
      λ g. contains-concerned g key before d,
      λ q. contains-changed_routes q key before,
    ),
  )
