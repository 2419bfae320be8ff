-- ===== src/Lifecycle/Routes.antt =====
-- `CommonRouteHandler` (kubvernor-controller/src/controllers/route/routes_common.rs), and the handlers of
-- HTTP routes and of gRPC routes that call it (http_route.rs and grpc_route.rs). The conversion of a route
-- and the name of a gateway class are parameters; the patcher's answers are only logged.
use kubvernor.Prelude.{
  ℕ, String, str_eq, Bool, true, false, Option, none, some, List, [], ◌∷◌, map, any, filter_map,
  if◌then◌else◌, unwrap_or,
}
use kubvernor.Prelude.Sets
use kubvernor.Keys.{
  ResourceKey, ResourceKey-discrete, ParentReference, route_ref_key, inference_pool_key,
}
use kubvernor.Routes.{Route, Backend, BackendType, type_key, backend_type, backends}
use kubvernor.Storage.Locks.{KubeTypes, envoy}
use kubvernor.Storage.Objects.{
  get_gateway, get_gateway_classes, get_gateway_type, get_inference_pool, maybe_save_inference_pool,
  delete_http_route, save_http_route, save_grpc_route,
}
use kubvernor.Storage.Attached.{attach_http_route_to_gateway, detach_http_route_from_gateway}
use kubvernor.Storage.Pools.{
  attach_inference_pool_to_gateway, detach_infererence_pool_from_gateway,
  find_gateways_by_route_and_inference_pool,
}
use kubvernor.Listeners.Gateways.{Gateway, gateway_of}
use kubvernor.Listeners.Gateways
use kubvernor.Matching.Matcher.{filter_matching_gateways}
use kubvernor.Statuses.Kube.{
  ParentRouteStatus, RouteStatus, KubeRoute, GatewayObject, kube_gateway, key_meta, with_objects,
}
use kubvernor.Resolution.Pools.{update_inference_pool_parents}
use kubvernor.Lifecycle.Effects.{
  ControllerError, invalid_payload, unknown_gateway_class, unknown_gateway_type, Message, Effect,
  ◌>>=◌, pure, fail, panic, send, ask, change, delete_route, add_route, add_gateway,
  patch_finalizer, patch_pool_status,
}
use kubvernor.Lifecycle.Effects

abbrev unknown_status : String → Option ℕ → ParentReference → ParentRouteStatus
unknown_status controller_name generation gateway = record {
  conditions =
      record {
        message = "Route updated by controller";
        observed_generation = generation;
        reason = "BackendNotFound";
        status = "False";
        type_ = "ResolvedRefs";
      }
      ∷ [];
  controller_name = controller_name;
  parent_ref = gateway;
}

unfoldable pub generate_status_for_unknown_gateways :
    String → List ParentReference → Option ℕ → List ParentRouteStatus
generate_status_for_unknown_gateways controller_name gateways generation =
    map (unknown_status controller_name generation) gateways

-- The loop of `extract_references`.
unfoldable pub references_from : List Backend → List ResourceKey → List ResourceKey
references_from [] found = found
references_from (Backend.maybe t ∷ bs) found =
    references_from bs (Sets.insert ResourceKey-discrete (type_key t) found)
references_from (Backend.resolved t ∷ bs) found = references_from bs found
references_from (Backend.unresolved t ∷ bs) found = references_from bs found
references_from (Backend.not_allowed t ∷ bs) found = references_from bs found
references_from (Backend.invalid t ∷ bs) found = references_from bs found

unfoldable pub extract_references : Route → List ResourceKey
extract_references route = references_from (backends route) []

abbrev pool_key : Backend → Option ResourceKey
pool_key b = elim (backend_type b) [
  | BackendType.inference_pool c ↦ some c.resource_key
  | BackendType.service _ ↦ none
  | BackendType.invalid_type _ ↦ none
]

-- The keys of the inference pools among the backends of a route.
unfoldable pub pools_of_route : Route → List ResourceKey
pools_of_route route = filter_map pool_key (backends route)

unfoldable pub parent_keys : ResourceKey → List ParentReference → List ResourceKey
parent_keys route_key refs =
    map (λ (p : ParentReference). (route_ref_key p route_key.namespace).resource_key) refs

-- `collect::<BTreeSet<_>>()`, for keys
unfoldable pub key_set : List ResourceKey → List ResourceKey → List ResourceKey
key_set [] found = found
key_set (k ∷ ks) found = key_set ks (Sets.insert ResourceKey-discrete k found)

abbrev is_named : String → Option String → Bool
is_named name none = false
is_named name (some n) = str_eq n name

module _ {Uuid : Type 0} {O : KubeTypes} where
  -- The parents whose gateways are stored, with these, and the others.
  unfoldable pub verify_parents :
      ResourceKey
      → List ParentReference
      → Effect Uuid O (List (ParentReference × Option GatewayObject) × List ParentReference)
  verify_parents route_key [] = pure ([], [])
  verify_parents route_key (p ∷ ps) = do
    g ← ask (get_gateway (with_objects O) (route_ref_key p route_key.namespace).resource_key)
    (resolved, unknown) ← verify_parents route_key ps
    pure (elim g [ none ↦ (resolved, p ∷ unknown) | some x ↦ ((p, some x) ∷ resolved, unknown) ])

  unfoldable pub attach_all :
      ResourceKey → List ResourceKey → List ResourceKey → Effect Uuid O (Unit {0})
  attach_all route_key inference_pools [] = pure tt
  attach_all route_key inference_pools (k ∷ ks) = do
    _ ← change (attach_http_route_to_gateway (with_objects O) k route_key)
    _ ← change (attach_inference_pool_to_gateway (with_objects O) k route_key inference_pools)
    attach_all route_key inference_pools ks

  unfoldable pub detach_all : ResourceKey → List ResourceKey → Effect Uuid O (Unit {0})
  detach_all route_key [] = pure tt
  detach_all route_key (k ∷ ks) = do
    _ ← change (detach_http_route_from_gateway (with_objects O) k route_key)
    _ ← change (detach_infererence_pool_from_gateway (with_objects O) k route_key)
    detach_all route_key ks

  unfoldable pub add_finalizer : ResourceKey → String → KubeRoute → Effect Uuid O (Unit {0})
  add_finalizer key controller_name resource =
      if any (λ f. str_eq f controller_name) (unwrap_or resource.metadata.finalizers [])
      then pure tt
      else send (
          patch_finalizer (record {
            resource_key = key;
            controller_name = controller_name;
            finalizer_name = controller_name;
          }))

  module _ (parse_uuid : String → Option Uuid) (class_name : O.GatewayClass → Option String) where
    -- The loop over the matching gateways.
    unfoldable pub announce : List GatewayObject → Effect Uuid O (Unit {0})
    announce [] = pure tt
    announce (g ∷ gs) = do
      classes ← ask (get_gateway_classes (with_objects O))
      if any (λ gc. is_named g.gateway_class_name (class_name gc)) classes
          then elim (gateway_of parse_uuid (kube_gateway g) envoy) [
            | Gateways.err _ ↦ panic
            | Gateways.ok gateway ↦ do
              found ← ask (get_gateway_type (with_objects O) gateway.resource_key)
              elim found [
                | none ↦ fail unknown_gateway_type
                | some gateway_type ↦ do
                  let gateway' = record gateway { backend_type = gateway_type }
                  _ ← send (add_gateway gateway' g g.gateway_class_name)
                  announce gs
              ]
          ]
          else fail (unknown_gateway_class g.gateway_class_name)

  -- The loop over the inference pools of a deleted route.
  unfoldable pub update_pools :
      String → List ResourceKey → List ResourceKey → Effect Uuid O (Unit {0})
  update_pools controller_name gateway_ids [] = pure tt
  update_pools controller_name gateway_ids (k ∷ ks) = do
    found ← ask (get_inference_pool (with_objects O) k)
    _ ← elim found [
      | none ↦ pure tt
      | some p ↦ do
        let updated = update_inference_pool_parents controller_name gateway_ids p true
        let clean = record updated {
          metadata = record (updated.metadata) { managed_fields = none };
        }
        let key = inference_pool_key (key_meta clean.metadata)
        _ ← change (maybe_save_inference_pool (with_objects O) key clean)
        send (patch_pool_status key clean)
    ]
    update_pools controller_name gateway_ids ks

  -- The pools are updated if there is a sender for their patches.
  unfoldable pub update_inference_pools :
      Bool → String → Route → List ResourceKey → Effect Uuid O (Unit {0})
  update_inference_pools has_patcher controller_name route gateway_ids =
      if has_patcher
      then update_pools controller_name gateway_ids (pools_of_route route)
      else pure tt

  module _ (to_route : KubeRoute → Option Route) (controller_name : String) where
    -- `CommonRouteHandler::on_deleted`, which works on the tables of HTTP routes.
    unfoldable pub on_deleted :
        Bool → KubeRoute → ResourceKey → List ParentReference → Effect Uuid O (Unit {0})
    on_deleted has_patcher resource route_key refs = do
      _ ← detach_all route_key (key_set (parent_keys route_key refs) [])
      gateway_ids ← ask (find_gateways_by_route_and_inference_pool (with_objects O) route_key)
      deleted ← change (delete_http_route (with_objects O) route_key)
      elim deleted [
        | none ↦ fail (invalid_payload "Route doesn't exist")
        | some stored ↦ elim (to_route stored) [
          | none ↦ fail (invalid_payload "Can't convert the route")
          | some route ↦ do
            _ ← update_inference_pools has_patcher controller_name route gateway_ids
            _ ← send (Effects.delete route_key resource)
            send (delete_route route_key (extract_references route))
        ]
      ]

    -- `on_deleted` of `HTTPRouteHandler` and of `GRPCRouteHandler`.
    unfoldable pub on_route_deleted : Bool → ResourceKey → KubeRoute → Effect Uuid O (Unit {0})
    on_route_deleted has_patcher route_key resource = elim (to_route resource) [
      | none ↦ fail (invalid_payload "Can't convert the route")
      | some _ ↦ elim resource.parent_refs [
        | none ↦ do
          _ ← send (Effects.delete route_key resource)
          fail (invalid_payload "Route with no parents")
        | some refs ↦ on_deleted has_patcher resource route_key refs
      ]
    ]

    module _ (parse_uuid : String → Option Uuid) (class_name : O.GatewayClass → Option String) where
      -- `CommonRouteHandler::on_new_or_changed`; `save` stores the route with its status.
      unfoldable pub on_new_or_changed :
          ResourceKey
          → KubeRoute
          → List ParentReference
          → (Option RouteStatus → Effect Uuid O (Unit {0}))
          → Effect Uuid O (Unit {0})
      on_new_or_changed route_key resource refs save = elim (to_route resource) [
        | none ↦ fail (invalid_payload "Can't convert the route")
        | some route ↦ do
          (resolved, unknown) ← verify_parents route_key refs
          _ ← attach_all route_key (pools_of_route route) (parent_keys route_key refs)
          matching ← ask (λ s.
              filter_matching_gateways (with_objects O) (λ (g : GatewayObject). key_meta g.metadata)
                s resolved)
          let status =
              generate_status_for_unknown_gateways controller_name unknown
                resource.metadata.generation
          _ ← save (some (record { parents = status }))
          _ ← add_finalizer route_key controller_name resource
          _ ← send (add_route route_key (extract_references route))
          announce parse_uuid class_name matching
      ]

      abbrev new_or_changed :
          (ResourceKey → KubeRoute → Effect Uuid O (Unit {0}))
          → ResourceKey
          → KubeRoute
          → Effect Uuid O (Unit {0})
      new_or_changed save route_key resource = elim resource.parent_refs [
        | none ↦ fail (invalid_payload "Route with no parents")
        | some refs ↦
            on_new_or_changed route_key resource refs
              (λ status. save route_key (record resource { status = status }))
      ]

      unfoldable pub on_http_new_or_changed : ResourceKey → KubeRoute → Effect Uuid O (Unit {0})
      on_http_new_or_changed =
          new_or_changed (λ key route. change (save_http_route (with_objects O) key route))

      unfoldable pub on_grpc_new_or_changed : ResourceKey → KubeRoute → Effect Uuid O (Unit {0})
      on_grpc_new_or_changed =
          new_or_changed (λ key route. change (save_grpc_route (with_objects O) key route))
