-- ===== src/Statuses/Handler.antt =====
-- `GatewayProcessedHandler` (kubvernor-controller/src/services/gateway_deployer/
-- gateway_processed_handler.rs): the status of a gateway that its backend has deployed, and the patches
-- of its routes' statuses. A patch is the message to the patcher, whose answer the handler only logs.
-- `Gateway::routes` is of kubvernor-controller/src/common/gateway.rs.
use kubvernor.Prelude.{
  ℕ, String, str_eq, Bool, true, false, not, Option, none, some, List, [], ◌∷◌, ◌++◌, map,
  filter_by, unwrap_or,
}
use kubvernor.Prelude.Maps.{values}
use kubvernor.Keys.{ResourceKey, ResourceKey-discrete, Meta, http_route_key, grpc_route_key}
use kubvernor.Routes.{Route, RouteType}
use kubvernor.Storage.Locks.{KubeTypes, State, Result, ok, ◌>>=◌}
use kubvernor.Listeners.Convert.{Listener}
use kubvernor.Listeners.Gateways.{Gateway, GatewayAddress}
use kubvernor.Statuses.Kube.{
  Condition, Constants, KubeRoute, GatewayObject, GatewayStatus, GatewayStatusAddress, key_meta,
  with_objects,
}
use kubvernor.Statuses.Conditions.{
  attached_conditions, unresolved_conditions, non_attached_conditions,
}
use kubvernor.Statuses.Parents.{update_http_route_parents, update_grpc_route_parents}

unfoldable pub only_http_routes : Route → Bool
only_http_routes r = elim r.route_type [ RouteType.http _ ↦ true | RouteType.grpc _ ↦ false ]

unfoldable pub only_grpc_routes : Route → Bool
only_grpc_routes r = elim r.route_type [ RouteType.http _ ↦ false | RouteType.grpc _ ↦ true ]

-- Routes are equal if their keys are; a route that is added replaces its equal.
unfoldable pub put : Route → List Route → List Route
put r [] = r ∷ []
put r (q ∷ qs) = elim (ResourceKey-discrete r.resource_key q.resource_key) [
  | yes _ ↦ r ∷ qs
  | no _ ↦ q ∷ put r qs
]

-- `BTreeSet::append`
unfoldable pub append : List Route → List Route → List Route
append into [] = into
append into (r ∷ rs) = append (put r into) rs

unfoldable pub collect_routes : (Listener → List Route) → List Listener → List Route → List Route
collect_routes routes_of [] found = found
collect_routes routes_of (l ∷ ls) found = collect_routes routes_of ls (append found (routes_of l))

-- `Gateway::routes`
unfoldable pub routes : {Uuid : Type 0} → Gateway Uuid → List Route × List Route
routes g = (
  collect_routes (λ l. l.content.resolved_routes) (values g.listeners) [],
  collect_routes (λ l. l.content.unresolved_routes) (values g.listeners) [],
)

pub record PatchContext : Type 0 where
  pub resource_key : ResourceKey
  pub resource : KubeRoute
  pub controller_name : String

abbrev pub patch :
    (Meta → ResourceKey) → String → Option KubeRoute → List PatchContext → List PatchContext
patch key_of controller_name none rest = rest
patch key_of controller_name (some r) rest =
    record {
      resource_key = key_of (key_meta r.metadata);
      resource = r;
      controller_name = controller_name;
    }
    ∷ rest

-- One of the loops over routes: each route's status is computed and sent to the patcher.
unfoldable pub patch_each :
    (Meta → ResourceKey)
    → String
    → (Route → Result (Option KubeRoute))
    → List Route
    → Result (List PatchContext)
patch_each key_of controller_name update [] = ok []
patch_each key_of controller_name update (route ∷ rs) = do
  updated ← update route
  rest ← patch_each key_of controller_name update rs
  ok (patch key_of controller_name updated rest)

module _ {Uuid : Type 0} (c : Constants) (O : KubeTypes) (controller_name : String)
    (effective_gateway : Gateway Uuid) where
  unfoldable pub update_http_attached_route_parents :
      Route → State (with_objects O) → Result (Option KubeRoute)
  update_http_attached_route_parents route s =
      update_http_route_parents controller_name effective_gateway.resource_key O route
        attached_conditions s

  unfoldable pub update_grpc_attached_route_parents :
      Route → State (with_objects O) → Result (Option KubeRoute)
  update_grpc_attached_route_parents route s =
      update_grpc_route_parents controller_name effective_gateway.resource_key O route
        attached_conditions s

  unfoldable pub update_http_unresolved_route_parents :
      Route → State (with_objects O) → Result (Option KubeRoute)
  update_http_unresolved_route_parents route s =
      update_http_route_parents controller_name effective_gateway.resource_key O route
        (unresolved_conditions c route.resolution_status) s

  unfoldable pub update_grpc_unresolved_route_parents :
      Route → State (with_objects O) → Result (Option KubeRoute)
  update_grpc_unresolved_route_parents route s =
      update_grpc_route_parents controller_name effective_gateway.resource_key O route
        (unresolved_conditions c route.resolution_status) s

  unfoldable pub update_http_non_attached_route_parents :
      Route → State (with_objects O) → Result (Option KubeRoute)
  update_http_non_attached_route_parents route s =
      update_http_route_parents controller_name effective_gateway.resource_key O route
        (non_attached_conditions c route.resolution_status) s

  unfoldable pub update_grpc_non_attached_route_parents :
      Route → State (with_objects O) → Result (Option KubeRoute)
  update_grpc_non_attached_route_parents route s =
      update_grpc_route_parents controller_name effective_gateway.resource_key O route
        (non_attached_conditions c route.resolution_status) s

  -- The patches that are sent, in their order.
  unfoldable pub update_http_routes : State (with_objects O) → Result (List PatchContext)
  update_http_routes s = do
    let (resolved, unresolved) = routes effective_gateway
    attached ←
        patch_each http_route_key controller_name (λ r. update_http_attached_route_parents r s)
          (filter_by only_http_routes resolved)
    rejected ←
        patch_each http_route_key controller_name (λ r. update_http_unresolved_route_parents r s)
          (filter_by only_http_routes unresolved)
    orphaned ←
        patch_each http_route_key controller_name (λ r. update_http_non_attached_route_parents r s)
          effective_gateway.orphaned_routes
    ok (attached ++ rejected ++ orphaned)

  unfoldable pub update_grpc_routes : State (with_objects O) → Result (List PatchContext)
  update_grpc_routes s = do
    let (resolved, unresolved) = routes effective_gateway
    attached ←
        patch_each grpc_route_key controller_name (λ r. update_grpc_attached_route_parents r s)
          (filter_by only_grpc_routes resolved)
    rejected ←
        patch_each grpc_route_key controller_name (λ r. update_grpc_unresolved_route_parents r s)
          (filter_by only_grpc_routes unresolved)
    orphaned ←
        patch_each grpc_route_key controller_name (λ r. update_grpc_non_attached_route_parents r s)
          effective_gateway.orphaned_routes
    ok (attached ++ rejected ++ orphaned)

  abbrev address : GatewayAddress → GatewayStatusAddress
  address (GatewayAddress.hostname hostname) = record { type_ = none; value = hostname }
  address (GatewayAddress.ip_address ip_addr) = record { type_ = none; value = ip_addr }
  address (GatewayAddress.named_address addr) = record { type_ = none; value = addr }

  abbrev default_status : GatewayStatus
  default_status = record { addresses = none; conditions = none; listeners = none }

  unfoldable pub update_gateway_status_addresses : GatewayObject → GatewayObject
  update_gateway_status_addresses g = record g {
    status = some (record (unwrap_or g.status default_status) {
      addresses = some (map address effective_gateway.addresses);
    });
  }

  -- The conditions of the gateway that are not `Ready`, all made true, and then `Ready`.
  unfoldable pub ready_conditions : Option ℕ → List Condition → List Condition
  ready_conditions observed_generation conditions =
      map {A = Condition}
        (λ f. record f {
          observed_generation = observed_generation;
          status = "True";
          reason = c.ready_reason;
        })
        (filter_by (λ (f : Condition). not (str_eq f.type_ c.ready)) conditions)
      ++ record {
        message = "Gateway status updated by controller";
        observed_generation = observed_generation;
        reason = c.ready_reason;
        status = "True";
        type_ = c.ready;
      }
        ∷ []

  unfoldable pub update_gateway_status_conditions : GatewayObject → GatewayObject
  update_gateway_status_conditions g =
      let status = unwrap_or g.status default_status in
      record g {
        status = some (record status {
          conditions =
              some (ready_conditions g.metadata.generation (unwrap_or status.conditions []));
        });
      }

  unfoldable pub clear_meta : GatewayObject → GatewayObject
  clear_meta g = record g { metadata = record (g.metadata) { managed_fields = none } }

  unfoldable pub update_gateway_resource : GatewayObject → GatewayObject
  update_gateway_resource g =
      clear_meta (update_gateway_status_conditions (update_gateway_status_addresses g))

  -- The gateway with its new status, and the patches of its HTTP routes and of its gRPC routes.
  unfoldable pub deploy_gateway :
      GatewayObject
      → State (with_objects O)
      → Result (GatewayObject × List PatchContext × List PatchContext)
  deploy_gateway g s = do
    http ← update_http_routes s
    grpc ← update_grpc_routes s
    ok (update_gateway_resource g, http, grpc)
