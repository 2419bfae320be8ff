-- ===== src/Deployer/Service.antt =====
-- `GatewayDeployerService` (kubvernor-controller/src/services/gateway_deployer/mod.rs) and
-- `GatewayDeployerServiceInternal` (gateway_deployer_internal.rs): what happens when a backend has
-- answered. What is sent to the patchers is a list of messages; the patcher's answer is a parameter.
use kubvernor.Prelude.{
  String, str_eq, Bool, true, false, Option, none, some, List, [], ◌∷◌, ◌++◌, map, any,
  if◌then◌else◌,
}
use kubvernor.Keys.{ResourceKey, new_key}
use kubvernor.Storage.Locks.{KubeTypes, State, Result, ok, ◌>>=◌}
use kubvernor.Storage.Objects.{save_gateway}
use kubvernor.Listeners.Gateways.{Gateway}
use kubvernor.Statuses.Kube.{Condition, Constants, GatewayObject, with_objects}
use kubvernor.Statuses.Handler.{PatchContext}
use kubvernor.Statuses.Handler

-- `FinalizerContext` of kubvernor-controller/src/services/patchers/patcher.rs
pub record FinalizerContext : Type 0 where
  pub resource_key : ResourceKey
  pub controller_name : String
  pub finalizer_name : String

-- `Operation`, with the patcher that it is sent to
pub data Message : Type 0 where
  http_route_status grpc_route_status : PatchContext → Message
  gateway_status : ResourceKey → GatewayObject → Message
  gateway_finalizer gateway_class_finalizer : FinalizerContext → Message

-- `RouteStatus` of kubvernor-controller/src/common/route/mod.rs
pub data RouteStatus : Type 0 where
  attached ignored : RouteStatus

pub data BackendGatewayResponse (Uuid : Type 0) : Type 0 where
  processed : Gateway Uuid → BackendGatewayResponse Uuid
  processed_with_context : Gateway Uuid → GatewayObject → String → BackendGatewayResponse Uuid
  processing_error : BackendGatewayResponse Uuid
  deleted : List RouteStatus → BackendGatewayResponse Uuid

abbrev gateway_class_finalizer_name : String
gateway_class_finalizer_name = "gateway-exists-finalizer.gateway.networking.k8s.io"

-- `add_finalizer`
unfoldable pub add_finalizer : ResourceKey → String → Message
add_finalizer gateway_id controller_name = gateway_finalizer (record {
  resource_key = gateway_id;
  controller_name = controller_name;
  finalizer_name = controller_name;
})

-- `add_finalizer_to_gateway_class`
unfoldable pub add_finalizer_to_gateway_class : String → String → Message
add_finalizer_to_gateway_class gateway_class_name controller_name =
    gateway_class_finalizer (record {
      resource_key = new_key gateway_class_name;
      controller_name = controller_name;
      finalizer_name = gateway_class_finalizer_name;
    })

module _ (c : Constants) (O : KubeTypes) (controller_name : String) where
  -- whether a condition of the gateway's status is `Ready`
  unfoldable pub is_ready : GatewayObject → Bool
  is_ready g = elim g.status [
    | none ↦ false
    | some status ↦ elim status.conditions [
      | none ↦ false
      | some conditions ↦ any (λ (q : Condition). str_eq q.type_ c.ready) conditions
    ]
  ]

  unfoldable pub has_finalizer : GatewayObject → Bool
  has_finalizer g = elim g.metadata.finalizers [
    | none ↦ false
    | some finalizers ↦ any (λ f. str_eq f controller_name) finalizers
  ]

  unfoldable pub on_version_not_changed :
      ResourceKey
      → String
      → GatewayObject
      → State (with_objects O)
      → Result (List Message × State (with_objects O))
  on_version_not_changed gateway_id gateway_class_name resource s = elim (is_ready resource) [
    | true ↦ do
      (_, s') ← save_gateway (with_objects O) gateway_id resource s
      let class = add_finalizer_to_gateway_class gateway_class_name controller_name
      ok (
        if has_finalizer resource
            then class ∷ []
            else class ∷ add_finalizer gateway_id controller_name ∷ [],
        s',
      )
    | false ↦ ok ([], s)
  ]

  -- What follows on the answer of the patcher, if it has patched the gateway.
  abbrev pub patched :
      ResourceKey
      → String
      → Option GatewayObject
      → State (with_objects O)
      → Result (List Message × State (with_objects O))
  patched gateway_id gateway_class_name none s = ok ([], s)
  patched gateway_id gateway_class_name (some g) s = do
    (_, s') ← save_gateway (with_objects O) gateway_id g s
    on_version_not_changed gateway_id gateway_class_name g s'

  module _ {Uuid : Type 0} (answer : GatewayObject → Option GatewayObject) where
    -- The arm of the loop for `ProcessedWithContext`.
    unfoldable pub on_processed :
        Gateway Uuid
        → GatewayObject
        → String
        → State (with_objects O)
        → Result (List Message × State (with_objects O))
    on_processed gateway kube_gateway gateway_class_name s = do
      (updated, http, grpc) ← Handler.deploy_gateway c O controller_name gateway kube_gateway s
      (_, s') ← save_gateway (with_objects O) gateway.resource_key kube_gateway s
      (finalizers, s'') ← patched gateway.resource_key gateway_class_name (answer updated) s'
      ok (
        map http_route_status http
            ++ map grpc_route_status grpc
            ++ gateway_status gateway.resource_key updated ∷ finalizers,
        s'',
      )

    -- One turn of the loop, for an answer of a backend.
    unfoldable pub on_response :
        BackendGatewayResponse Uuid
        → State (with_objects O)
        → Result (List Message × State (with_objects O))
    on_response (processed _) s = ok ([], s)
    on_response (processed_with_context gateway kube_gateway gateway_class_name) s =
        on_processed gateway kube_gateway gateway_class_name s
    on_response processing_error s = ok ([], s)
    on_response (deleted _) s = ok ([], s)
