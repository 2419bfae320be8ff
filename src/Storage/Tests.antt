-- ===== src/Storage/Tests.antt =====
-- The state, run on a gateway with two routes and an inference pool.
use kubvernor.Prelude.{ℕ, true, List, [], ◌∷◌, ◌≡◌, ◌↔◌, refl, arith}
use kubvernor.Prelude.Maps.{is_some}
use kubvernor.Prelude.Maps
use kubvernor.Prelude.Sets
use kubvernor.Keys.{ResourceKey, ResourceKey-discrete, new_key}
use kubvernor.Storage.Locks.{KubeTypes, State, ok, unlocked}
use kubvernor.Storage.Pools.{pools_of, find_gateways_by_route_and_inference_pool}
use kubvernor.Storage.Commands.{exec, attach_inference_pool}
use kubvernor.Storage.Spec.{view, spec, Agrees}
use kubvernor.Storage.WellFormed.{IsWellFormed}
use kubvernor.Storage.Refinement.{IsHealthy, exec-refines}
use kubvernor.Storage.Searches.{Names}
use kubvernor.Storage.Sharing.{find_gateways_by_route_and_inference_pool_iff}

abbrev dec : Discrete ResourceKey
dec = ResourceKey-discrete

abbrev numbers : KubeTypes
numbers = record { GatewayClass = ℕ; Gateway = ℕ; HttpRoute = ℕ; GrpcRoute = ℕ; InferencePool = ℕ }

abbrev gateway : ResourceKey
gateway = new_key "gateway"

abbrev route : ResourceKey
route = new_key "route"

abbrev pool : ResourceKey
pool = new_key "pool"

abbrev one_gateway : State numbers
one_gateway = record {
  gateway_classes = unlocked [];
  gateways = unlocked ((gateway, 1) ∷ []);
  http_routes = unlocked ((route, 2) ∷ []);
  grpc_routes = unlocked [];
  gateways_with_routes = unlocked ((gateway, route ∷ []) ∷ []);
  inference_pools = unlocked ((pool, 3) ∷ []);
  gateways_with_routes_with_inference_pools =
      unlocked ((gateway, record { route_id = route; inference_pool_ids = pool ∷ [] } ∷ []) ∷ []);
  gateway_implementation_types = unlocked [];
}

one_gateway-IsHealthy : IsHealthy one_gateway
one_gateway-IsHealthy = record {
  gateway_classes_healthy = refl;
  gateways_healthy = refl;
  http_routes_healthy = refl;
  grpc_routes_healthy = refl;
  gateways_with_routes_healthy = refl;
  inference_pools_healthy = refl;
  gateways_with_routes_with_inference_pools_healthy = refl;
  gateway_implementation_types_healthy = refl;
}

one_gateway-IsWellFormed : IsWellFormed one_gateway
unfolding Maps.get Sets.contains pools_of
one_gateway-IsWellFormed = ground arith

-- A second attachment of a route with another pool leaves the first pool in place.
exec-refines_example :
    (s' : State numbers) × (exec (attach_inference_pool gateway route (gateway ∷ [])) one_gateway
      ≡ ok s')
    × IsHealthy s'
    × ((q r : ResourceKey)
        → Agrees q r
            (view s')
            (spec (attach_inference_pool gateway route (gateway ∷ [])) (view one_gateway)))
exec-refines_example =
    exec-refines (attach_inference_pool gateway route (gateway ∷ [])) one_gateway
      one_gateway-IsHealthy

find_gateways_by_route_and_inference_pool_example :
    (found : List ResourceKey) × (find_gateways_by_route_and_inference_pool numbers route
        one_gateway
      ≡ ok found)
    × ((g : ResourceKey)
        → (Sets.contains dec g found ≡ true) ↔ (
            (pool : ResourceKey) × ((h : ResourceKey) × Names pool
                ((view one_gateway).pools h route))
            × ((r : ResourceKey) × Names pool ((view one_gateway).pools g r))))
find_gateways_by_route_and_inference_pool_example =
    find_gateways_by_route_and_inference_pool_iff one_gateway one_gateway-IsHealthy
      one_gateway-IsWellFormed route
