-- ===== src/Statuses/Samples.antt =====
-- A gateway with one HTTP route that names two gateways, for the tests.
use kubvernor.Prelude.{ℕ, String, none, some, [], ◌∷◌, refl}
use kubvernor.Keys.{ResourceKey, ParentReference, namespaced_key, http_route_key}
use kubvernor.Routes.{Route, RouteType, ResolutionStatus}
use kubvernor.Storage.Locks.{KubeTypes, State, unlocked, envoy}
use kubvernor.Storage.Refinement.{IsHealthy}
use kubvernor.Listeners.Conditions.{ConditionType, ConditionReason, ResolvedRefs, resolved_refs}
use kubvernor.Listeners.Convert.{Listener, ProtocolType}
use kubvernor.Listeners.Gateways.{Gateway, ip_address}
use kubvernor.Statuses.Kube.{
  Constants, KubeRoute, GatewayObject, ObjectMeta, key_meta, with_objects,
}

abbrev type_text : ConditionType → String
type_text ConditionType.resolved_refs = "ResolvedRefs"
type_text ConditionType.accepted = "Accepted"
type_text ConditionType.programmed = "Programmed"
type_text ConditionType.conflicted = "Conflicted"

abbrev reason_text : ConditionReason → String
reason_text ConditionReason.invalid_route_kinds = "InvalidRouteKinds"
reason_text ConditionReason.resolved_refs = "ResolvedRefs"
reason_text ConditionReason.invalid_certificate_ref = "InvalidCertificateRef"
reason_text ConditionReason.ref_not_permitted = "RefNotPermitted"
reason_text ConditionReason.accepted = "Accepted"
reason_text ConditionReason.programmed = "Programmed"
reason_text ConditionReason.invalid = "Invalid"

abbrev pub constants : Constants
constants = record {
  type_text = type_text;
  reason_text = reason_text;
  ready = "Ready";
  ready_reason = "Ready";
}

abbrev pub controller : String
controller = "kubvernor"

abbrev pub front : ResourceKey
front = namespaced_key "front" "shop"

abbrev pub back : ResourceKey
back = namespaced_key "back" "shop"

abbrev pub parent : String → ParentReference
parent name = record {
  group = none;
  kind = none;
  namespace = some "shop";
  name = name;
  section_name = none;
  port = none;
}

abbrev meta : String → ObjectMeta
meta name = record {
  name = some name;
  name_any = name;
  namespace = some "shop";
  generation = some 3;
  managed_fields = none;
  finalizers = none;
  uid = some name;
  resource_version = none;
  deletion_timestamp = none;
}

abbrev pub cart : KubeRoute
cart = record {
  metadata = meta "cart";
  parent_refs = some (parent "front" ∷ parent "back" ∷ []);
  status = none;
}

abbrev cart_route : ResolutionStatus → Route
cart_route status = record {
  resource_key = http_route_key (key_meta (cart.metadata));
  parents = cart.parent_refs;
  hostnames = [];
  resolution_status = status;
  route_type = RouteType.http [];
}

abbrev pub resolved_cart : Route
resolved_cart = cart_route ResolutionStatus.resolved

abbrev pub listener : Listener
listener = record {
  protocol = ProtocolType.http;
  content = record {
    config = record { name = "plain"; port = 80; hostname = none; tls_type = none };
    conditions = resolved_refs (ResolvedRefs.resolved ("HTTPRoute" ∷ [])) ∷ [];
    resolved_routes = resolved_cart ∷ [];
    unresolved_routes = [];
    attached_routes = 1;
  };
}

abbrev pub front_gateway : Gateway String
front_gateway = record {
  id = "id";
  resource_key = front;
  addresses = ip_address "10.0.0.1" ∷ [];
  listeners = ("plain", listener) ∷ [];
  orphaned_routes = [];
  backend_type = envoy;
}

abbrev pub front_object : GatewayObject
front_object = record {
  metadata = meta "front";
  gateway_class_name = "class";
  listeners = [];
  status = none;
}

abbrev pub kinds : KubeTypes
kinds = record { GatewayClass = ℕ; Gateway = ℕ; HttpRoute = ℕ; GrpcRoute = ℕ; InferencePool = ℕ }

abbrev pub cart_state : State (with_objects kinds)
cart_state = record {
  gateway_classes = unlocked [];
  gateways = unlocked ((front, front_object) ∷ []);
  http_routes = unlocked ((http_route_key (key_meta (cart.metadata)), cart) ∷ []);
  grpc_routes = unlocked [];
  gateways_with_routes = unlocked ((front, http_route_key (key_meta (cart.metadata)) ∷ []) ∷ []);
  inference_pools = unlocked [];
  gateways_with_routes_with_inference_pools = unlocked [];
  gateway_implementation_types = unlocked [];
}

pub cart_state-IsHealthy : IsHealthy cart_state
cart_state-IsHealthy = record {
  gateway_classes_healthy = refl;
  gateways_healthy = refl;
  http_routes_healthy = refl;
  grpc_routes_healthy = refl;
  gateways_with_routes_healthy = refl;
  inference_pools_healthy = refl;
  gateways_with_routes_with_inference_pools_healthy = refl;
  gateway_implementation_types_healthy = refl;
}
