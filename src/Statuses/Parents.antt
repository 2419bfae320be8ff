-- ===== src/Statuses/Parents.antt =====
-- The parents in the status of a route: `update_http_route_parents` and `update_grpc_route_parents`
-- (kubvernor-controller/src/services/gateway_deployer/gateway_processed_handler.rs). An error of the
-- state is the panic of `expect`.
use kubvernor.Prelude.{
  String, str_eq, Bool, false, not, ◌&&◌, Option, none, some, List, [], ◌∷◌, ◌++◌, map, filter_by,
  if◌then◌else◌, unwrap_or,
}
use kubvernor.Keys.{ResourceKey, ParentReference}
use kubvernor.Routes.{Route}
use kubvernor.Storage.Locks.{KubeTypes, State, Result, ok, ◌>>=◌}
use kubvernor.Storage.Attached.{
  get_http_routes_attached_to_gateway, get_grpc_routes_attached_to_gateway,
}
use kubvernor.Statuses.Kube.{Condition, ParentRouteStatus, KubeRoute, with_objects}

abbrev opt_eq : Option String → String → Bool
opt_eq none s = false
opt_eq (some t) s = str_eq t s

-- whether the object has the route's name and namespace
unfoldable pub is_route : Route → KubeRoute → Bool
is_route route f =
    opt_eq f.metadata.name route.resource_key.name
    && opt_eq f.metadata.namespace route.resource_key.namespace

unfoldable pub find : (KubeRoute → Bool) → List KubeRoute → Option KubeRoute
find p [] = none
find p (r ∷ rs) = let rest = find p rs in if p r then some r else rest

unfoldable pub parent_status : String → List Condition → ParentReference → ParentRouteStatus
parent_status controller_name conditions kube_parent = record {
  conditions = conditions;
  controller_name = controller_name;
  parent_ref = kube_parent;
}

abbrev pub observed : KubeRoute → List Condition → List Condition
observed r conditions =
    map {A = Condition} (λ f. record f { observed_generation = r.metadata.generation }) conditions

abbrev pub parents_of : KubeRoute → List ParentRouteStatus
parents_of r = elim r.status [ none ↦ [] | some status ↦ status.parents ]

module _ (controller_name : String) (gateway_id : ResourceKey) where
  -- The closure of `retain`, negated: whether the entry is the controller's for the gateway.
  unfoldable pub is_own : ParentRouteStatus → Bool
  is_own p = elim p.parent_ref.namespace [
    | some namespace ↦
        str_eq p.controller_name controller_name
        && str_eq namespace gateway_id.namespace
        && str_eq gateway_id.name p.parent_ref.name
    | none ↦ str_eq p.controller_name controller_name && str_eq gateway_id.name p.parent_ref.name
  ]

  -- The route that the handler writes back.
  unfoldable pub with_parents : List Condition → KubeRoute → KubeRoute
  with_parents new_conditions r = record r {
    status = some (record {
      parents =
          filter_by (λ p. not (is_own p)) (parents_of r)
          ++ map (parent_status controller_name (observed r new_conditions))
              (unwrap_or r.parent_refs []);
    });
    metadata = record (r.metadata) { managed_fields = none };
  }

  abbrev pub updated : List Condition → Route → Option (List KubeRoute) → Option KubeRoute
  updated new_conditions route none = none
  updated new_conditions route (some kube_routes) = elim (find (is_route route) kube_routes) [
    | none ↦ none
    | some kube_route ↦ some (with_parents new_conditions kube_route)
  ]

  module _ (O : KubeTypes) where
    unfoldable pub update_http_route_parents :
        Route → List Condition → State (with_objects O) → Result (Option KubeRoute)
    update_http_route_parents route new_conditions s = do
      kube_routes ← get_http_routes_attached_to_gateway (with_objects O) gateway_id s
      ok (updated new_conditions route kube_routes)

    unfoldable pub update_grpc_route_parents :
        Route → List Condition → State (with_objects O) → Result (Option KubeRoute)
    update_grpc_route_parents route new_conditions s = do
      kube_routes ← get_grpc_routes_attached_to_gateway (with_objects O) gateway_id s
      ok (updated new_conditions route kube_routes)
