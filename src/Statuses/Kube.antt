-- ===== src/Statuses/Kube.antt =====
-- The parts of the Gateway API's objects that the deployer of gateways reads and writes
-- (kubvernor-controller/src/services/gateway_deployer). The times of conditions, which the clock gives,
-- are left out; generations are only passed on.
use kubvernor.Prelude.{ℕ, String, Option, List}
use kubvernor.Keys.{Meta, ParentReference}
use kubvernor.Listeners.Conditions.{ConditionType, ConditionReason}
use kubvernor.Routes.{InferencePoolSpec}
use kubvernor.Listeners.Convert.{GatewayListener}
use kubvernor.Listeners.Gateways.{KubeGateway}
use kubvernor.Storage.Locks.{KubeTypes}

pub record Condition : Type 0 where
  pub message : String
  pub observed_generation : Option ℕ
  pub reason : String
  pub status : String
  pub type_ : String

pub record ParentRouteStatus : Type 0 where
  pub conditions : List Condition
  pub controller_name : String
  pub parent_ref : ParentReference

pub record RouteStatus : Type 0 where
  pub parents : List ParentRouteStatus

-- `managed_fields` are the managers of fields.
pub record ObjectMeta : Type 0 where
  pub name : Option String
  pub name_any : String
  pub namespace : Option String
  pub generation : Option ℕ
  pub managed_fields : Option (List String)
  pub finalizers : Option (List String)
  pub uid : Option String
  pub resource_version : Option String
  pub deletion_timestamp : Option String

-- what a resource key reads of the metadata
abbrev pub key_meta : ObjectMeta → Meta
key_meta m = record { namespace = m.namespace; name_any = m.name_any }

-- `HTTPRoute` and `GRPCRoute`
pub record KubeRoute : Type 0 where
  pub metadata : ObjectMeta
  pub parent_refs : Option (List ParentReference)
  pub status : Option RouteStatus

pub record Kind : Type 0 where
  pub group : Option String
  pub kind : String

pub record ListenerStatus : Type 0 where
  pub name : String
  pub attached_routes : ℕ
  pub conditions : List Condition
  pub supported_kinds : Option (List Kind)

pub record GatewayStatusAddress : Type 0 where
  pub type_ : Option String
  pub value : String

pub record GatewayStatus : Type 0 where
  pub addresses : Option (List GatewayStatusAddress)
  pub conditions : Option (List Condition)
  pub listeners : Option (List ListenerStatus)

-- `Gateway` of the Gateway API
pub record GatewayObject : Type 0 where
  pub metadata : ObjectMeta
  pub gateway_class_name : String
  pub listeners : List GatewayListener
  pub status : Option GatewayStatus

-- what the conversion of a gateway reads
abbrev pub kube_gateway : GatewayObject → KubeGateway
kube_gateway g = record {
  meta = key_meta g.metadata;
  uid = g.metadata.uid;
  listeners = g.listeners;
}

-- `Reference` of an inference pool's parent
pub record PoolReference : Type 0 where
  pub group : Option String
  pub kind : Option String
  pub name : String
  pub namespace : Option String

pub record InferencePoolStatusParents : Type 0 where
  pub conditions : Option (List Condition)
  pub parent_ref : PoolReference
  pub controller_name : Option String

pub record InferencePoolStatus : Type 0 where
  pub parents : Option (List InferencePoolStatusParents)

-- `InferencePool` of the Gateway API
pub record InferencePool : Type 0 where
  pub metadata : ObjectMeta
  pub spec : InferencePoolSpec
  pub status : Option InferencePoolStatus

-- The texts that the Gateway API's crate prints for its enumerations; `ready` and `ready_reason` are
-- the type and the reason of a gateway that is ready.
pub record Constants : Type 0 where
  pub type_text : ConditionType → String
  pub reason_text : ConditionReason → String
  pub ready : String
  pub ready_reason : String

-- The objects of a state whose gateways, routes and inference pools are those above.
abbrev pub with_objects : KubeTypes → KubeTypes
with_objects O = record O {
  Gateway = GatewayObject;
  HttpRoute = KubeRoute;
  GrpcRoute = KubeRoute;
  InferencePool = InferencePool;
}
