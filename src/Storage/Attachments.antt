-- ===== src/Storage/Attachments.antt =====
-- What the reads of the attached routes find.
use mathlib.Core.List.{Memᴰ}
use kubvernor.Prelude.{
  Bool, true, false≢true, ◌&&◌, ◌||◌, Option, none, some, List, [], ◌∷◌, ◌≡◌, ◌↔◌, refl, arith,
  filter_map, any, any_iff, unwrap_or,
}
use kubvernor.Prelude.Maps.{Map, is_some}
use kubvernor.Prelude.Maps
use kubvernor.Prelude.Sets
use kubvernor.Prelude.Sets.{same, contains-insert}
use kubvernor.Prelude.Distinct.{mem-filter_map_iff, mem-contains_iff, any_at_key, test_found}
use kubvernor.Keys.{ResourceKey, ResourceKey-discrete}
use kubvernor.Storage.Locks.{KubeTypes, State, ok}
use kubvernor.Storage.Attached.{
  get_http_routes_attached_to_gateway, get_grpc_routes_attached_to_gateway, owned_from,
  get_gateways_with_http_routes,
}
use kubvernor.Storage.Spec.{view, holds}
use kubvernor.Storage.Refinement.{IsHealthy}
use kubvernor.Storage.WellFormed.{IsWellFormed}

abbrev dec : Discrete ResourceKey
dec = ResourceKey-discrete

-- The objects that a set of keys, if there is one, leads to.
abbrev stored : {V : Type 0} → Map ResourceKey V → Option (List ResourceKey) → Option (List V)
stored m none = none
stored m (some keys) = some (filter_map (λ k. Maps.get dec k m) keys)

mem-stored_iff :
    {V : Type 0} (m : Map ResourceKey V) (o : Option (List ResourceKey)) (x : V)
    → Memᴰ x (unwrap_or (stored m o) [])
      ↔ ((k : ResourceKey) × (holds k o ≡ true) × (Maps.get dec k m ≡ some x))
mem-stored_iff m none x = (λ h. elim h [ ], λ (k, h, _). absurd (cc))
mem-stored_iff m (some keys) x =
    let (to, from) = mem-filter_map_iff (λ k. Maps.get dec k m) x keys in
    (
      λ h. let (k, held, e) = to h in (k, (mem-contains_iff dec k keys).0 held, e),
      λ (k, held, e). from (k, (mem-contains_iff dec k keys).1 held, e),
    )

is_some-stored :
    {V : Type 0} (m : Map ResourceKey V) (o : Option (List ResourceKey))
    → is_some (stored m o) ≡ is_some o
is_some-stored m none = refl
is_some-stored m (some keys) = refl

module _ {O : KubeTypes} (s : State O) (h : IsHealthy s) (gateway : ResourceKey) where
  -- With no lock poisoned, `get_http_routes_attached_to_gateway` finds nothing exactly if the gateway
  -- has no set of routes, and else the stored HTTP routes whose keys are attached to the gateway: all of
  -- them, and no others.
  pub get_http_routes_attached_iff :
      (found : Option (List O.HttpRoute)) × (get_http_routes_attached_to_gateway O gateway s
        ≡ ok found)
      × (is_some found ≡ (view s).listed gateway)
      × ((x : O.HttpRoute)
          → Memᴰ x (unwrap_or found []) ↔ (
              (k : ResourceKey) × ((view s).attached gateway k ≡ true)
              × ((view s).http_route k ≡ some x)))
  unfolding get_http_routes_attached_to_gateway
  get_http_routes_attached_iff =
      let o = Maps.get dec gateway s.gateways_with_routes.value in
      let m = s.http_routes.value in
      (stored m o, ground (arith, h), is_some-stored m o, mem-stored_iff m o)

  -- With no lock poisoned, `get_grpc_routes_attached_to_gateway` finds nothing exactly if the gateway
  -- has no set of routes, and else the stored gRPC routes whose keys are attached to the gateway.
  pub get_grpc_routes_attached_iff :
      (found : Option (List O.GrpcRoute)) × (get_grpc_routes_attached_to_gateway O gateway s
        ≡ ok found)
      × (is_some found ≡ (view s).listed gateway)
      × ((x : O.GrpcRoute)
          → Memᴰ x (unwrap_or found []) ↔ (
              (k : ResourceKey) × ((view s).attached gateway k ≡ true)
              × ((view s).grpc_route k ≡ some x)))
  unfolding get_grpc_routes_attached_to_gateway
  get_grpc_routes_attached_iff =
      let o = Maps.get dec gateway s.gateways_with_routes.value in
      let m = s.grpc_routes.value in
      (stored m o, ground (arith, h), is_some-stored m o, mem-stored_iff m o)

abbrev shares : List ResourceKey → List ResourceKey → Bool
shares routes stored_routes = any (λ r. Sets.contains dec r routes) stored_routes

contains-owned_from :
    (g : ResourceKey) (routes owned : List ResourceKey) (m : Map ResourceKey (List ResourceKey))
    → Sets.contains dec g (owned_from routes owned m)
      ≡ (Sets.contains dec g owned || any (λ e. same dec g e.0 && shares routes e.1) m)
unfolding owned_from
contains-owned_from g routes owned [] = ground arith
contains-owned_from g routes owned ((k, stored_routes) ∷ m) = ground (
  arith,
  contains-owned_from g routes (Sets.insert dec k owned) m,
  contains-owned_from g routes owned m,
  contains-insert dec g k owned,
)

holds_shared_iff :
    (routes : List ResourceKey) (o : Option (List ResourceKey))
    → (test_found (shares routes) o ≡ true)
      ↔ ((r : ResourceKey) × (holds r o ≡ true) × (Sets.contains dec r routes ≡ true))
holds_shared_iff routes none = (λ e. absurd (false≢true e), λ (r, e, _). e)
holds_shared_iff routes (some stored_routes) =
    let (to, from) = any_iff (λ r. Sets.contains dec r routes) stored_routes in
    (
      λ e. let (r, m, shared) = to e in (r, (mem-contains_iff dec r stored_routes).0 m, shared),
      λ (r, m, shared). from (r, (mem-contains_iff dec r stored_routes).1 m, shared),
    )

-- In a well-formed state with no lock poisoned, `get_gateways_with_http_routes` succeeds, and finds a
-- gateway exactly if one of the given routes is attached to it.
pub get_gateways_with_http_routes_iff :
    {O : KubeTypes} (s : State O)
    → IsHealthy s
    → IsWellFormed s
    → (routes : List ResourceKey)
    → (found : List ResourceKey) × (get_gateways_with_http_routes O routes s ≡ ok found)
      × ((g : ResourceKey)
          → (Sets.contains dec g found ≡ true) ↔ (
              (r : ResourceKey) × ((view s).attached g r ≡ true)
              × (Sets.contains dec r routes ≡ true)))
unfolding get_gateways_with_http_routes Sets.contains
get_gateways_with_http_routes_iff s h w routes =
    let table = s.gateways_with_routes.value in
    (
      owned_from routes [] table,
      ground (arith, h),
      λ g.
          rw
            (
              contains-owned_from g routes [] table,
              any_at_key dec g (shares routes) table w.attached_distinct,
            )
            (holds_shared_iff routes (Maps.get dec g table)),
    )
