-- ===== src/Storage/Attached.antt =====
-- Which routes are attached to which gateway: the table `gateways_with_routes`, which HTTP routes and
-- gRPC routes share (kubvernor-state/src/inmemory.rs).
use kubvernor.Prelude.{Option, none, some, List, [], ◌∷◌, filter_map, any, if◌then◌else◌}
use kubvernor.Prelude.Maps.{Map}
use kubvernor.Prelude.Maps
use kubvernor.Prelude.Sets
use kubvernor.Keys.{ResourceKey, ResourceKey-discrete}
use kubvernor.Storage.Locks.{Result, ok, ◌>>=◌, lock, write, KubeTypes, State}

abbrev dec : Discrete ResourceKey
dec = ResourceKey-discrete

-- The new entry of a gateway: its set with the route added, or a set of the route alone.
unfoldable pub attached_set : ResourceKey → Option (List ResourceKey) → List ResourceKey
attached_set route_id (some routes) = Sets.insert dec route_id routes
attached_set route_id none = route_id ∷ []

-- The table after a route was taken from the set of a gateway, if the gateway has one.
unfoldable pub detached_table :
    ResourceKey
    → ResourceKey
    → Option (List ResourceKey)
    → Map ResourceKey (List ResourceKey)
    → Map ResourceKey (List ResourceKey)
detached_table gateway_id route_id (some routes) table =
    Maps.insert dec gateway_id (Sets.remove dec route_id routes) table
detached_table gateway_id route_id none table = table

-- The loop of `get_gateways_with_http_routes`; `owned` is `owned_gateways`.
unfoldable pub owned_from :
    List ResourceKey → List ResourceKey → Map ResourceKey (List ResourceKey) → List ResourceKey
owned_from routes owned [] = owned
owned_from routes owned ((gateway_id, stored_routes) ∷ table) =
    owned_from routes
      (if any (λ r. Sets.contains dec r routes) stored_routes
        then Sets.insert dec gateway_id owned
        else owned)
      table

module _ (O : KubeTypes) where
  open O use {HttpRoute, GrpcRoute}

  unfoldable pub attach_http_route_to_gateway :
      ResourceKey → ResourceKey → State O → Result (Unit {0} × State O)
  unfolding attached_set
  attach_http_route_to_gateway gateway_id route_id s = do
    table ← lock s.gateways_with_routes
    let routes = attached_set route_id (Maps.get dec gateway_id table)
    let table' = Maps.insert dec gateway_id routes table
    ok (tt, record s { gateways_with_routes = write s.gateways_with_routes table' })

  unfoldable pub attach_grpc_route_to_gateway :
      ResourceKey → ResourceKey → State O → Result (Unit {0} × State O)
  unfolding attached_set
  attach_grpc_route_to_gateway gateway_id route_id s = do
    table ← lock s.gateways_with_routes
    let routes = attached_set route_id (Maps.get dec gateway_id table)
    let table' = Maps.insert dec gateway_id routes table
    ok (tt, record s { gateways_with_routes = write s.gateways_with_routes table' })

  unfoldable pub detach_http_route_from_gateway :
      ResourceKey → ResourceKey → State O → Result (Unit {0} × State O)
  unfolding detached_table
  detach_http_route_from_gateway gateway_id route_id s = do
    table ← lock s.gateways_with_routes
    let table' = detached_table gateway_id route_id (Maps.get dec gateway_id table) table
    ok (tt, record s { gateways_with_routes = write s.gateways_with_routes table' })

  unfoldable pub detach_grpc_route_from_gateway :
      ResourceKey → ResourceKey → State O → Result (Unit {0} × State O)
  unfolding detached_table
  detach_grpc_route_from_gateway gateway_id route_id s = do
    table ← lock s.gateways_with_routes
    let table' = detached_table gateway_id route_id (Maps.get dec gateway_id table) table
    ok (tt, record s { gateways_with_routes = write s.gateways_with_routes table' })

  unfoldable pub get_http_routes_attached_to_gateway :
      ResourceKey → State O → Result (Option (List HttpRoute))
  get_http_routes_attached_to_gateway gateway_key s = do
    table ← lock s.gateways_with_routes
    http_routes ← lock s.http_routes
    ok (elim (Maps.get dec gateway_key table) [
      | none ↦ none
      | some routes ↦ some (filter_map (λ k. Maps.get dec k http_routes) routes)
    ])

  unfoldable pub get_grpc_routes_attached_to_gateway :
      ResourceKey → State O → Result (Option (List GrpcRoute))
  get_grpc_routes_attached_to_gateway gateway_key s = do
    table ← lock s.gateways_with_routes
    grpc_routes ← lock s.grpc_routes
    ok (elim (Maps.get dec gateway_key table) [
      | none ↦ none
      | some routes ↦ some (filter_map (λ k. Maps.get dec k grpc_routes) routes)
    ])

  unfoldable pub gateways_with_routes : State O → Result (Map ResourceKey (List ResourceKey))
  gateways_with_routes s = lock s.gateways_with_routes

  unfoldable pub get_gateways_with_http_routes :
      List ResourceKey → State O → Result (List ResourceKey)
  unfolding owned_from
  get_gateways_with_http_routes routes s = do
    table ← lock s.gateways_with_routes
    ok (owned_from routes [] table)
