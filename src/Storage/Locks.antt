-- ===== src/Storage/Locks.antt =====
-- The tables of the state behind their locks: `StorageError`, the fields of `State`, and
-- `lock().map_err(|_| StorageError::LockingError)?`, which fails where the lock is poisoned.
-- The objects that are stored are the Gateway API's types, which the state only passes on.
use kubvernor.Prelude.{Bool, true, false, List, []}
use kubvernor.Prelude.Maps.{Map}
use kubvernor.Keys.{ResourceKey}

pub data StorageError : Type 0 where
  locking_error : StorageError

pub data Result {ℓ} (A : Type ℓ) : Type ℓ where
  ok : A → Result A
  err : StorageError → Result A

infixl 5 ◌>>=◌
abbrev pub ◌>>=◌ {ℓ κ} : {A : Type ℓ} {B : Type κ} → Result A → (A → Result B) → Result B
ok a >>= f = f a
err e >>= f = err e

pub record Mutex {ℓ} (A : Type ℓ) : Type ℓ where
  pub poisoned : Bool
  pub value : A

abbrev take_lock {ℓ} : {A : Type ℓ} → Bool → A → Result A
take_lock true v = err locking_error
take_lock false v = ok v

abbrev pub lock {ℓ} : {A : Type ℓ} → Mutex A → Result A
lock m = take_lock m.poisoned m.value

-- What the guard leaves behind when it is dropped after a write.
abbrev pub write {ℓ} : {A : Type ℓ} → Mutex A → A → Mutex A
write m v = record m { value = v }

abbrev pub unlocked {ℓ} : {A : Type ℓ} → A → Mutex A
unlocked v = record { poisoned = false; value = v }

-- The Gateway API's object types.
pub record KubeTypes : Type 1 where
  pub GatewayClass : Type 0
  pub Gateway : Type 0
  pub HttpRoute : Type 0
  pub GrpcRoute : Type 0
  pub InferencePool : Type 0

-- kubvernor-common/src/lib.rs
pub data GatewayImplementationType : Type 0 where
  envoy agentgateway orion : GatewayImplementationType

-- Two of these are one element of a set if their routes are equal.
pub record RouteToInferencePool : Type 0 where
  pub route_id : ResourceKey
  pub inference_pool_ids : List ResourceKey

pub record State (O : KubeTypes) : Type 0 where
  pub gateway_classes : Mutex (Map ResourceKey O.GatewayClass)
  pub gateways : Mutex (Map ResourceKey O.Gateway)
  pub http_routes : Mutex (Map ResourceKey O.HttpRoute)
  pub grpc_routes : Mutex (Map ResourceKey O.GrpcRoute)
  pub gateways_with_routes : Mutex (Map ResourceKey (List ResourceKey))
  pub inference_pools : Mutex (Map ResourceKey O.InferencePool)
  pub gateways_with_routes_with_inference_pools :
      Mutex (Map ResourceKey (List RouteToInferencePool))
  pub gateway_implementation_types : Mutex (Map ResourceKey GatewayImplementationType)

unfoldable pub new_state : (O : KubeTypes) → State O
new_state O = record {
  gateway_classes = unlocked [];
  gateways = unlocked [];
  http_routes = unlocked [];
  grpc_routes = unlocked [];
  gateways_with_routes = unlocked [];
  inference_pools = unlocked [];
  gateways_with_routes_with_inference_pools = unlocked [];
  gateway_implementation_types = unlocked [];
}
