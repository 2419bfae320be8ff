-- ===== src/Storage/Pools.antt =====
-- Which inference pools the routes of a gateway name: the table
-- `gateways_with_routes_with_inference_pools` (kubvernor-state/src/inmemory.rs). A set of
-- `RouteToInferencePool` compares its elements by their routes.
use kubvernor.Prelude.{Option, none, some, List, [], ◌∷◌, if◌then◌else◌}
use kubvernor.Prelude.Maps.{Map}
use kubvernor.Prelude.Maps
use kubvernor.Prelude.Sets
use kubvernor.Keys.{ResourceKey, ResourceKey-discrete}
use kubvernor.Storage.Locks.{Result, ok, ◌>>=◌, lock, write, KubeTypes, State, RouteToInferencePool}

abbrev dec : Discrete ResourceKey
dec = ResourceKey-discrete

-- `HashSet::get`, by the route
unfoldable pub pools_of : ResourceKey → List RouteToInferencePool → Option (List ResourceKey)
pools_of route_id [] = none
pools_of route_id (e ∷ es) = elim (dec route_id e.route_id) [
  | yes _ ↦ some e.inference_pool_ids
  | no _ ↦ pools_of route_id es
]

-- `HashSet::insert`: an element that is there already stays.
unfoldable pub insert_pools :
    ResourceKey → List ResourceKey → List RouteToInferencePool → List RouteToInferencePool
insert_pools route_id ids [] = record { route_id = route_id; inference_pool_ids = ids } ∷ []
insert_pools route_id ids (e ∷ es) = elim (dec route_id e.route_id) [
  | yes _ ↦ e ∷ es
  | no _ ↦ e ∷ insert_pools route_id ids es
]

-- What `HashSet::take` leaves.
unfoldable pub drop_pools : ResourceKey → List RouteToInferencePool → List RouteToInferencePool
drop_pools route_id [] = []
drop_pools route_id (e ∷ es) =
    let rest = drop_pools route_id es in
    elim (dec route_id e.route_id) [ yes _ ↦ rest | no _ ↦ e ∷ rest ]

unfoldable pub pooled_set :
    ResourceKey → List ResourceKey → Option (List RouteToInferencePool) → List RouteToInferencePool
unfolding insert_pools
pooled_set route_id ids (some routes) = insert_pools route_id ids routes
pooled_set route_id ids none = insert_pools route_id ids []

-- `if let Some(routes_with_pools) = … && let Some(inference_pools) = …take(…)`
unfoldable pub taken : ResourceKey → Option (List RouteToInferencePool) → Option (List ResourceKey)
taken route_id none = none
taken route_id (some routes) = pools_of route_id routes

unfoldable pub left_over :
    ResourceKey → Option (List RouteToInferencePool) → List RouteToInferencePool
left_over route_id none = []
left_over route_id (some routes) = drop_pools route_id routes

-- The loop over the routes of one gateway in `find_gateways_by_inference_pool`.
unfoldable pub found_from :
    ResourceKey → List RouteToInferencePool → ResourceKey → List ResourceKey → List ResourceKey
found_from gateway [] pool found = found
found_from gateway (e ∷ es) pool found =
    found_from gateway es pool
      (if Sets.contains dec pool e.inference_pool_ids then Sets.insert dec gateway found else found)

-- The loop over the gateways.
unfoldable pub gateways_by_pool :
    Map ResourceKey (List RouteToInferencePool) → ResourceKey → List ResourceKey → List ResourceKey
unfolding found_from
gateways_by_pool [] pool found = found
gateways_by_pool ((gateway, routes) ∷ table) pool found =
    gateways_by_pool table pool (found_from gateway routes pool found)

-- `.values().filter_map(|p| p.get(…)).flatten().collect::<BTreeSet<_>>()`
unfoldable pub pools_by_route :
    ResourceKey → Map ResourceKey (List RouteToInferencePool) → List ResourceKey
pools_by_route route_id [] = []
pools_by_route route_id ((gateway, routes) ∷ table) = elim (pools_of route_id routes) [
  | none ↦ pools_by_route route_id table
  | some ids ↦ Sets.union dec ids (pools_by_route route_id table)
]

-- The two inner loops of `find_gateways_by_route_and_inference_pool`.
unfoldable pub shared_from :
    ResourceKey → List ResourceKey → RouteToInferencePool → List ResourceKey → List ResourceKey
shared_from gateway [] e found = found
shared_from gateway (pool ∷ pools) e found =
    shared_from gateway pools e
      (if Sets.contains dec pool e.inference_pool_ids then Sets.insert dec gateway found else found)

unfoldable pub sharing_from :
    ResourceKey → List ResourceKey → List RouteToInferencePool → List ResourceKey → List ResourceKey
unfolding shared_from
sharing_from gateway pools [] found = found
sharing_from gateway pools (e ∷ es) found =
    sharing_from gateway pools es (shared_from gateway pools e found)

unfoldable pub gateways_by_pools :
    Map ResourceKey (List RouteToInferencePool)
    → List ResourceKey
    → List ResourceKey
    → List ResourceKey
unfolding sharing_from
gateways_by_pools [] pools found = found
gateways_by_pools ((gateway, routes) ∷ table) pools found =
    gateways_by_pools table pools (sharing_from gateway pools routes found)

module _ (O : KubeTypes) where
  unfoldable pub attach_inference_pool_to_gateway :
      ResourceKey → ResourceKey → List ResourceKey → State O → Result (Unit {0} × State O)
  unfolding pooled_set
  attach_inference_pool_to_gateway gateway_id route_id inference_pool_ids s = do
    table ← lock s.gateways_with_routes_with_inference_pools
    let routes = pooled_set route_id inference_pool_ids (Maps.get dec gateway_id table)
    let table' = Maps.insert dec gateway_id routes table
    ok (
      tt,
      record s {
        gateways_with_routes_with_inference_pools =
            write s.gateways_with_routes_with_inference_pools table';
      },
    )

  unfoldable pub detach_infererence_pool_from_gateway :
      ResourceKey → ResourceKey → State O → Result (List ResourceKey × State O)
  unfolding taken left_over
  detach_infererence_pool_from_gateway gateway_id route_id s = do
    table ← lock s.gateways_with_routes_with_inference_pools
    let routes = Maps.get dec gateway_id table
    let table' = Maps.insert dec gateway_id (left_over route_id routes) table
    ok (elim (taken route_id routes) [
      | none ↦ ([], s)
      | some ids ↦ (
        ids,
        record s {
          gateways_with_routes_with_inference_pools =
              write s.gateways_with_routes_with_inference_pools table';
        },
      )
    ])

  unfoldable pub find_gateways_by_inference_pool : ResourceKey → State O → Result (List ResourceKey)
  unfolding gateways_by_pool
  find_gateways_by_inference_pool pool s = do
    table ← lock s.gateways_with_routes_with_inference_pools
    ok (gateways_by_pool table pool [])

  unfoldable pub find_gateways_by_route_and_inference_pool :
      ResourceKey → State O → Result (List ResourceKey)
  unfolding pools_by_route gateways_by_pools
  find_gateways_by_route_and_inference_pool route_id s = do
    table ← lock s.gateways_with_routes_with_inference_pools
    ok (gateways_by_pools table (pools_by_route route_id table) [])
