-- ===== src/Resolution/Resolver.antt =====
-- `RouteResolver::resolve` and `RoutesResolver::validate`
-- (kubvernor-controller/src/controllers/utils/routes_resolver.rs), and `find_linked_routes`
-- (kubvernor-controller/src/controllers/utils/mod.rs). The routes of a gateway are resolved one after the
-- other, where the code joins their futures.
use kubvernor.Prelude.{
  String, String-discrete, Bool, true, false, not, Option, none, some, List, [], ◌∷◌, ◌++◌,
  filter_by, filter_map, unwrap_or,
}
use kubvernor.Prelude.Maps.{Map}
use kubvernor.Prelude.Maps
use kubvernor.Keys.{ResourceKey, ResourceKey-discrete}
use kubvernor.Routes.{
  Backend, BackendType, Route, RouteType, RoutingRule, RouteMatch, GrpcRouteMatch, ResolutionStatus,
  not_resolved, backend_type,
}
use kubvernor.Storage.Locks.{KubeTypes, State, Result, ok, ◌>>=◌}
use kubvernor.Storage.Attached.{
  get_http_routes_attached_to_gateway, get_grpc_routes_attached_to_gateway,
}
use kubvernor.Grants.Resolver.{GrantsResolver}
use kubvernor.Listeners.Convert.{GatewayListener, Listener, update_routes}
use kubvernor.Listeners.Gateways.{Gateway, KubeGateway}
use kubvernor.Matching.Matcher.{Labels, RouteToListenersMapping, filter_matching_routes}
use kubvernor.Statuses.Kube.{KubeRoute, with_objects}
use kubvernor.Resolution.Backends.{Lookups, process_service_backend, process_inference_pool_backend}

-- The test by which `process_backends` parts the backends.
unfoldable pub is_service : Backend → Bool
is_service b = elim (backend_type b) [
  | BackendType.service _ ↦ true
  | BackendType.invalid_type _ ↦ true
  | BackendType.inference_pool _ ↦ false
]

-- The status after one more: the last one that is not `Resolved`.
unfoldable pub later : ResolutionStatus → ResolutionStatus → ResolutionStatus
later status ResolutionStatus.resolved = status
later status (not_resolved reason) = not_resolved reason

abbrev pub Processed : Type 0
Processed = List Backend × ResolutionStatus

unfoldable pub is_resolved : ResolutionStatus → Bool
is_resolved ResolutionStatus.resolved = true
is_resolved (not_resolved _) = false

-- A route that is added to an ordered set keeps the element that is equal.
unfoldable pub insert_route : Route → List Route → List Route
insert_route r [] = r ∷ []
insert_route r (q ∷ qs) = elim (ResourceKey-discrete r.resource_key q.resource_key) [
  | yes _ ↦ q ∷ qs
  | no _ ↦ q ∷ insert_route r qs
]

abbrev pub add_route : Option (List Route) → Route → List Route
add_route none r = insert_route r []
add_route (some routes) r = insert_route r routes

abbrev pub attach_once : Route → GatewayListener → Map String (List Route) → Map String (List Route)
attach_once r l attached =
    Maps.insert String-discrete l.name (add_route (Maps.get String-discrete l.name attached) r)
      attached

unfoldable pub attach_to :
    Route → List GatewayListener → Map String (List Route) → Map String (List Route)
attach_to r [] attached = attached
attach_to r (l ∷ ls) attached = attach_to r ls (attach_once r l attached)

unfoldable pub attach_all :
    List RouteToListenersMapping → Map String (List Route) → Map String (List Route)
attach_all [] attached = attached
attach_all (m ∷ ms) attached = attach_all ms (attach_to m.route m.listeners attached)

unfoldable pub calculate_attached_routes : List RouteToListenersMapping → Map String (List Route)
calculate_attached_routes mapped_routes = attach_all mapped_routes []

abbrev pub resolved_routes : List Route → List Route
resolved_routes rs = filter_by (λ r. is_resolved r.resolution_status) rs

abbrev pub unresolved_routes : List Route → List Route
unresolved_routes rs = filter_by (λ r. not (is_resolved r.resolution_status)) rs

-- `listener_mut`, where a listener of the name is changed.
unfoldable pub update_listener : String → List Route → Map String Listener → Map String Listener
update_listener name rs listeners = elim (Maps.get String-discrete name listeners) [
  | none ↦ listeners
  | some l ↦
      Maps.insert String-discrete name (update_routes (resolved_routes rs) (unresolved_routes rs) l)
        listeners
]

unfoldable pub update_listeners :
    Map String (List Route) → Map String Listener → Map String Listener
update_listeners [] listeners = listeners
update_listeners ((name, rs) ∷ attached) listeners =
    update_listeners attached (update_listener name rs listeners)

unfoldable pub replace_route : Route → List Route → List Route
replace_route r [] = r ∷ []
replace_route r (q ∷ qs) = elim (ResourceKey-discrete r.resource_key q.resource_key) [
  | yes _ ↦ r ∷ qs
  | no _ ↦ q ∷ replace_route r qs
]

-- `BTreeSet::from_iter`, for routes: of routes with one key the last one is kept.
unfoldable pub route_set : List Route → List Route → List Route
unfolding replace_route
route_set [] found = found
route_set (r ∷ rs) found = route_set rs (replace_route r found)

module _ (l : Lookups) (grants : GrantsResolver) (gateway_key : ResourceKey) where
  unfoldable pub process_services : ResourceKey → List Backend → Processed → Processed
  process_services route_key [] done = done
  process_services route_key (b ∷ bs) (new_backends, status) =
      let (new_backend, resolution_status) =
        process_service_backend l grants gateway_key route_key b in
      process_services route_key bs
        (new_backends ++ new_backend ∷ [], later status resolution_status)

  module _ (O : KubeTypes) (controller_name : String) where
    unfoldable pub process_pools :
        ResourceKey
        → List Backend
        → Processed
        → State (with_objects O)
        → Result (Processed × State (with_objects O))
    process_pools route_key [] done s = ok (done, s)
    process_pools route_key (b ∷ bs) (new_backends, status) s = do
      ((new_backend, resolution_status), s') ←
          process_inference_pool_backend l grants gateway_key O controller_name route_key b s
      process_pools route_key bs (new_backends ++ new_backend ∷ [], later status resolution_status)
          s'

    unfoldable pub process_backends :
        ResourceKey
        → List Backend
        → State (with_objects O)
        → Result (Processed × State (with_objects O))
    process_backends route_key backends s =
        process_pools route_key (filter_by (λ b. not (is_service b)) backends)
          (process_services route_key (filter_by is_service backends)
            ([], ResolutionStatus.resolved))
          s

    abbrev pub Rules : Type 0 → Type 0
    Rules M = (List (RoutingRule M) × ResolutionStatus) × State (with_objects O)

    -- The loop over the rules of an HTTP route.
    unfoldable pub resolve_http :
        ResourceKey
        → List (RoutingRule RouteMatch)
        → ResolutionStatus
        → State (with_objects O)
        → Result (Rules RouteMatch)
    resolve_http route_key [] status s = ok (([], status), s)
    resolve_http route_key (rule ∷ rules) status s = do
      ((bs, st), s') ← process_backends route_key rule.backends s
      ((fs, ft), s'') ← process_backends route_key rule.filter_backends s'
      ((rest, status'), s''') ← resolve_http route_key rules (later (later status st) ft) s''
      ok ((record rule { backends = bs; filter_backends = fs } ∷ rest, status'), s''')

    -- The loop over the rules of a gRPC route, which leaves the backends of filters as they are.
    unfoldable pub resolve_grpc :
        ResourceKey
        → List (RoutingRule GrpcRouteMatch)
        → ResolutionStatus
        → State (with_objects O)
        → Result (Rules GrpcRouteMatch)
    resolve_grpc route_key [] status s = ok (([], status), s)
    resolve_grpc route_key (rule ∷ rules) status s = do
      ((bs, st), s') ← process_backends route_key rule.backends s
      ((rest, status'), s'') ← resolve_grpc route_key rules (later status st) s'
      ok ((record rule { backends = bs } ∷ rest, status'), s'')

    abbrev resolve_type :
        ResourceKey
        → RouteType
        → State (with_objects O)
        → Result ((RouteType × ResolutionStatus) × State (with_objects O))
    resolve_type route_key (RouteType.http rules) s = do
      ((new, status), s') ← resolve_http route_key rules ResolutionStatus.resolved s
      ok ((RouteType.http new, status), s')
    resolve_type route_key (RouteType.grpc rules) s = do
      ((new, status), s') ← resolve_grpc route_key rules ResolutionStatus.resolved s
      ok ((RouteType.grpc new, status), s')

    -- `RouteResolver::resolve`
    unfoldable pub resolve :
        Route → State (with_objects O) → Result (Route × State (with_objects O))
    resolve route s = do
      ((new, status), s') ← resolve_type route.resource_key route.route_type s
      ok (record route { route_type = new; resolution_status = status }, s')

    unfoldable pub resolve_all :
        List Route → State (with_objects O) → Result (List Route × State (with_objects O))
    resolve_all [] s = ok ([], s)
    resolve_all (route ∷ rs) s = do
      (r, s') ← resolve route s
      (rest, s'') ← resolve_all rs s'
      ok (r ∷ rest, s'')

-- The routes that are attached to a gateway and convert; the conversions are parameters.
module _ (O : KubeTypes) (http_route grpc_route : KubeRoute → Option Route) where
  unfoldable pub find_linked_routes : ResourceKey → State (with_objects O) → Result (List Route)
  find_linked_routes gateway_id s = do
    https ← get_http_routes_attached_to_gateway (with_objects O) gateway_id s
    grpcs ← get_grpc_routes_attached_to_gateway (with_objects O) gateway_id s
    ok (filter_map http_route (unwrap_or https []) ++ filter_map grpc_route (unwrap_or grpcs []))

  -- `RoutesResolver::validate`
  unfoldable pub validate :
      {Uuid : Type 0}
      → (String → Option (String → Bool))
      → Lookups
      → GrantsResolver
      → String
      → KubeGateway
      → Map String Labels
      → Gateway Uuid
      → State (with_objects O)
      → Result (Gateway Uuid × State (with_objects O))
  validate pattern l grants controller_name kube_gateway resolved_namespaces g s = do
    linked ← find_linked_routes g.resource_key s
    (routes, s') ← resolve_all l grants g.resource_key O controller_name linked s
    let (mapping, unmatched) =
        filter_matching_routes pattern kube_gateway resolved_namespaces routes
    ok (
      record g {
        listeners = update_listeners (calculate_attached_routes mapping) g.listeners;
        orphaned_routes = route_set unmatched [];
      },
      s',
    )
