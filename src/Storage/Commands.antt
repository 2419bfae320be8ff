-- ===== src/Storage/Commands.antt =====
-- The operations that change the state, as commands: `exec` runs the operation of
-- kubvernor-state/src/inmemory.rs that a command names and keeps the state that it leaves.
use kubvernor.Prelude.{Bool, List}
use kubvernor.Keys.{ResourceKey}
use kubvernor.Storage.Locks.{Result, ok, err, KubeTypes, State, GatewayImplementationType}
use kubvernor.Storage.Objects
use kubvernor.Storage.Attached
use kubvernor.Storage.Pools

pub data Command (O : KubeTypes) : Type 0 where
  save_gateway : ResourceKey → O.Gateway → Command O
  save_gateway_class : ResourceKey → O.GatewayClass → Command O
  save_gateway_type : ResourceKey → GatewayImplementationType → Command O
  save_http_route : ResourceKey → O.HttpRoute → Command O
  save_grpc_route : ResourceKey → O.GrpcRoute → Command O
  save_inference_pool : ResourceKey → O.InferencePool → Command O
  maybe_save_gateway : ResourceKey → O.Gateway → Command O
  maybe_save_http_route : ResourceKey → O.HttpRoute → Command O
  maybe_save_grpc_route : ResourceKey → O.GrpcRoute → Command O
  maybe_save_inference_pool : ResourceKey → O.InferencePool → Command O
  delete_gateway delete_gateway_class delete_gateway_type delete_http_route delete_grpc_route
        delete_inference_pool :
      ResourceKey → Command O
  attach_http_route attach_grpc_route : ResourceKey → ResourceKey → Command O
  detach_http_route detach_grpc_route : ResourceKey → ResourceKey → Command O
  attach_inference_pool : ResourceKey → ResourceKey → List ResourceKey → Command O
  detach_inference_pool : ResourceKey → ResourceKey → Command O

-- The state that an operation leaves, without its answer.
abbrev state_of {ℓ} : {O : KubeTypes} {A : Type ℓ} → Result (A × State O) → Result (State O)
state_of (ok (a, s)) = ok s
state_of (err e) = err e

module _ {O : KubeTypes} where
  unfoldable pub exec : Command O → State O → Result (State O)
  unfolding Objects.save_gateway Objects.save_gateway_class Objects.save_gateway_type
      Objects.save_http_route Objects.save_grpc_route Objects.save_inference_pool
      Objects.maybe_save_gateway Objects.maybe_save_http_route Objects.maybe_save_grpc_route
      Objects.maybe_save_inference_pool Objects.delete_gateway Objects.delete_gateway_class
      Objects.delete_gateway_type Objects.delete_http_route Objects.delete_grpc_route
      Objects.delete_inference_pool Attached.attach_http_route_to_gateway
      Attached.attach_grpc_route_to_gateway Attached.detach_http_route_from_gateway
      Attached.detach_grpc_route_from_gateway Pools.attach_inference_pool_to_gateway
      Pools.detach_infererence_pool_from_gateway
  exec (save_gateway id x) s = state_of (Objects.save_gateway O id x s)
  exec (save_gateway_class id x) s = state_of (Objects.save_gateway_class O id x s)
  exec (save_gateway_type id x) s = state_of (Objects.save_gateway_type O id x s)
  exec (save_http_route id x) s = state_of (Objects.save_http_route O id x s)
  exec (save_grpc_route id x) s = state_of (Objects.save_grpc_route O id x s)
  exec (save_inference_pool id x) s = state_of (Objects.save_inference_pool O id x s)
  exec (maybe_save_gateway id x) s = state_of (Objects.maybe_save_gateway O id x s)
  exec (maybe_save_http_route id x) s = state_of (Objects.maybe_save_http_route O id x s)
  exec (maybe_save_grpc_route id x) s = state_of (Objects.maybe_save_grpc_route O id x s)
  exec (maybe_save_inference_pool id x) s = state_of (Objects.maybe_save_inference_pool O id x s)
  exec (delete_gateway id) s = state_of (Objects.delete_gateway O id s)
  exec (delete_gateway_class id) s = state_of (Objects.delete_gateway_class O id s)
  exec (delete_gateway_type id) s = state_of (Objects.delete_gateway_type O id s)
  exec (delete_http_route id) s = state_of (Objects.delete_http_route O id s)
  exec (delete_grpc_route id) s = state_of (Objects.delete_grpc_route O id s)
  exec (delete_inference_pool id) s = state_of (Objects.delete_inference_pool O id s)
  exec (attach_http_route g r) s = state_of (Attached.attach_http_route_to_gateway O g r s)
  exec (attach_grpc_route g r) s = state_of (Attached.attach_grpc_route_to_gateway O g r s)
  exec (detach_http_route g r) s = state_of (Attached.detach_http_route_from_gateway O g r s)
  exec (detach_grpc_route g r) s = state_of (Attached.detach_grpc_route_from_gateway O g r s)
  exec (attach_inference_pool g r ids) s =
      state_of (Pools.attach_inference_pool_to_gateway O g r ids s)
  exec (detach_inference_pool g r) s = state_of (Pools.detach_infererence_pool_from_gateway O g r s)

  -- Whether the lock of the table that a command works on is poisoned.
  abbrev pub lock_poisoned : Command O → State O → Bool
  lock_poisoned (save_gateway _ _) s = s.gateways.poisoned
  lock_poisoned (save_gateway_class _ _) s = s.gateway_classes.poisoned
  lock_poisoned (save_gateway_type _ _) s = s.gateway_implementation_types.poisoned
  lock_poisoned (save_http_route _ _) s = s.http_routes.poisoned
  lock_poisoned (save_grpc_route _ _) s = s.grpc_routes.poisoned
  lock_poisoned (save_inference_pool _ _) s = s.inference_pools.poisoned
  lock_poisoned (maybe_save_gateway _ _) s = s.gateways.poisoned
  lock_poisoned (maybe_save_http_route _ _) s = s.http_routes.poisoned
  lock_poisoned (maybe_save_grpc_route _ _) s = s.grpc_routes.poisoned
  lock_poisoned (maybe_save_inference_pool _ _) s = s.inference_pools.poisoned
  lock_poisoned (delete_gateway _) s = s.gateways.poisoned
  lock_poisoned (delete_gateway_class _) s = s.gateway_classes.poisoned
  lock_poisoned (delete_gateway_type _) s = s.gateway_implementation_types.poisoned
  lock_poisoned (delete_http_route _) s = s.http_routes.poisoned
  lock_poisoned (delete_grpc_route _) s = s.grpc_routes.poisoned
  lock_poisoned (delete_inference_pool _) s = s.inference_pools.poisoned
  lock_poisoned (attach_http_route _ _) s = s.gateways_with_routes.poisoned
  lock_poisoned (attach_grpc_route _ _) s = s.gateways_with_routes.poisoned
  lock_poisoned (detach_http_route _ _) s = s.gateways_with_routes.poisoned
  lock_poisoned (detach_grpc_route _ _) s = s.gateways_with_routes.poisoned
  lock_poisoned (attach_inference_pool _ _ _) s =
      s.gateways_with_routes_with_inference_pools.poisoned
  lock_poisoned (detach_inference_pool _ _) s = s.gateways_with_routes_with_inference_pools.poisoned
