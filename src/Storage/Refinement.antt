-- ===== src/Storage/Refinement.antt =====
-- The state implements its specification.
use kubvernor.Prelude.{true, false, ◌≡◌, ◌↔◌, ◌⊎◌, inl, inr, refl, arith}
use kubvernor.Prelude.Maps
use kubvernor.Prelude.Maps.{Map, get-insert, get-remove}
use kubvernor.Prelude.Sets.{contains-remove}
use kubvernor.Keys.{ResourceKey, ResourceKey-discrete}
use kubvernor.Storage.Locks.{KubeTypes, State, Result, ok, err, locking_error}
use kubvernor.Storage.Attached.{attached_set}
use kubvernor.Storage.Tables.{
  pools_of-pooled_set, pools_of-left_over, contains-attached_set, get-detached_table, taken_set,
}
use kubvernor.Storage.Pools.{pooled_set, left_over}
use kubvernor.Storage.Spec.{view, spec, Agrees}
use kubvernor.Storage.Commands.{
  Command, exec, lock_poisoned, save_gateway, save_gateway_class, save_gateway_type,
  save_http_route, save_grpc_route, save_inference_pool, maybe_save_gateway, maybe_save_http_route,
  maybe_save_grpc_route, maybe_save_inference_pool, delete_gateway, delete_gateway_class,
  delete_gateway_type, delete_http_route, delete_grpc_route, delete_inference_pool,
  attach_http_route, attach_grpc_route, detach_http_route, detach_grpc_route, attach_inference_pool,
  detach_inference_pool,
}

abbrev dec : Discrete ResourceKey
dec = ResourceKey-discrete

Result-cases {ℓ} : {A : Type ℓ} (m : Result A) → ((a : A) × (m ≡ ok a)) ⊎ (m ≡ err locking_error)
Result-cases (ok a) = inl (a, refl)
Result-cases (err locking_error) = inr refl

-- No lock of the state is poisoned.
pub record IsHealthy {O : KubeTypes} (s : State O) : Type 0 where
  pub gateway_classes_healthy : s.gateway_classes.poisoned ≡ false
  pub gateways_healthy : s.gateways.poisoned ≡ false
  pub http_routes_healthy : s.http_routes.poisoned ≡ false
  pub grpc_routes_healthy : s.grpc_routes.poisoned ≡ false
  pub gateways_with_routes_healthy : s.gateways_with_routes.poisoned ≡ false
  pub inference_pools_healthy : s.inference_pools.poisoned ≡ false
  pub gateways_with_routes_with_inference_pools_healthy :
      s.gateways_with_routes_with_inference_pools.poisoned ≡ false
  pub gateway_implementation_types_healthy : s.gateway_implementation_types.poisoned ≡ false

module _ {O : KubeTypes} where
  -- An operation fails exactly if the lock of the table that it works on is poisoned.
  pub exec-eq-err_iff :
      (c : Command O) (s : State O) → (exec c s ≡ err locking_error) ↔ (lock_poisoned c s ≡ true)
  unfolding exec
  exec-eq-err_iff (save_gateway id x) s = ground arith
  exec-eq-err_iff (save_gateway_class id x) s = ground arith
  exec-eq-err_iff (save_gateway_type id x) s = ground arith
  exec-eq-err_iff (save_http_route id x) s = ground arith
  exec-eq-err_iff (save_grpc_route id x) s = ground arith
  exec-eq-err_iff (save_inference_pool id x) s = ground arith
  exec-eq-err_iff (maybe_save_gateway id x) s = ground arith
  exec-eq-err_iff (maybe_save_http_route id x) s = ground arith
  exec-eq-err_iff (maybe_save_grpc_route id x) s = ground arith
  exec-eq-err_iff (maybe_save_inference_pool id x) s = ground arith
  exec-eq-err_iff (delete_gateway id) s = ground arith
  exec-eq-err_iff (delete_gateway_class id) s = ground arith
  exec-eq-err_iff (delete_gateway_type id) s = ground arith
  exec-eq-err_iff (delete_http_route id) s = ground arith
  exec-eq-err_iff (delete_grpc_route id) s = ground arith
  exec-eq-err_iff (delete_inference_pool id) s = ground arith
  exec-eq-err_iff (attach_http_route g r) s = ground arith
  exec-eq-err_iff (attach_grpc_route g r) s = ground arith
  exec-eq-err_iff (detach_http_route g r) s = ground arith
  exec-eq-err_iff (detach_grpc_route g r) s = ground arith
  exec-eq-err_iff (attach_inference_pool g r ids) s = ground arith
  exec-eq-err_iff (detach_inference_pool g r) s = ground arith

  -- One command, seen at two keys.
  exec-Agrees :
      (c : Command O) (s s' : State O) (q r : ResourceKey)
      → exec c s ≡ ok s'
      → Agrees q r (view s') (spec c (view s))
  unfolding exec
  exec-Agrees (save_gateway id x) s s' q r e =
      ground (arith, get-insert dec q id x s.gateways.value)
  exec-Agrees (save_gateway_class id x) s s' q r e =
      ground (arith, get-insert dec q id x s.gateway_classes.value)
  exec-Agrees (save_gateway_type id x) s s' q r e =
      ground (arith, get-insert dec q id x s.gateway_implementation_types.value)
  exec-Agrees (save_http_route id x) s s' q r e =
      ground (arith, get-insert dec q id x s.http_routes.value)
  exec-Agrees (save_grpc_route id x) s s' q r e =
      ground (arith, get-insert dec q id x s.grpc_routes.value)
  exec-Agrees (save_inference_pool id x) s s' q r e =
      ground (arith, get-insert dec q id x s.inference_pools.value)
  exec-Agrees (maybe_save_gateway id x) s s' q r e =
      ground (arith, get-insert dec q id x s.gateways.value)
  exec-Agrees (maybe_save_http_route id x) s s' q r e =
      ground (arith, get-insert dec q id x s.http_routes.value)
  exec-Agrees (maybe_save_grpc_route id x) s s' q r e =
      ground (arith, get-insert dec q id x s.grpc_routes.value)
  exec-Agrees (maybe_save_inference_pool id x) s s' q r e =
      ground (arith, get-insert dec q id x s.inference_pools.value)
  exec-Agrees (delete_gateway id) s s' q r e = ground (arith, get-remove dec q id s.gateways.value)
  exec-Agrees (delete_gateway_class id) s s' q r e =
      ground (arith, get-remove dec q id s.gateway_classes.value)
  exec-Agrees (delete_gateway_type id) s s' q r e =
      ground (arith, get-remove dec q id s.gateway_implementation_types.value)
  exec-Agrees (delete_http_route id) s s' q r e =
      ground (arith, get-remove dec q id s.http_routes.value)
  exec-Agrees (delete_grpc_route id) s s' q r e =
      ground (arith, get-remove dec q id s.grpc_routes.value)
  exec-Agrees (attach_http_route id k) s s' q r e = ground (
    arith,
    contains-attached_set r k (Maps.get dec id s.gateways_with_routes.value),
    get-insert dec q id (attached_set k (Maps.get dec id s.gateways_with_routes.value))
        s.gateways_with_routes.value,
  )
  exec-Agrees (attach_grpc_route id k) s s' q r e = ground (
    arith,
    contains-attached_set r k (Maps.get dec id s.gateways_with_routes.value),
    get-insert dec q id (attached_set k (Maps.get dec id s.gateways_with_routes.value))
        s.gateways_with_routes.value,
  )
  exec-Agrees (detach_http_route id k) s s' q r e = ground (
    arith,
    get-detached_table q id k s.gateways_with_routes.value,
    contains-remove dec r k (taken_set (Maps.get dec id s.gateways_with_routes.value)),
  )
  exec-Agrees (detach_grpc_route id k) s s' q r e = ground (
    arith,
    get-detached_table q id k s.gateways_with_routes.value,
    contains-remove dec r k (taken_set (Maps.get dec id s.gateways_with_routes.value)),
  )
  exec-Agrees (attach_inference_pool id k ids) s s' q r e = ground (
    arith,
    pools_of-pooled_set r k ids (Maps.get dec id s.gateways_with_routes_with_inference_pools.value),
    get-insert dec q id
        (pooled_set k ids (Maps.get dec id s.gateways_with_routes_with_inference_pools.value))
        s.gateways_with_routes_with_inference_pools.value,
  )
  exec-Agrees (detach_inference_pool id k) s s' q r e = ground (
    arith,
    pools_of-left_over r k (Maps.get dec id s.gateways_with_routes_with_inference_pools.value),
    get-insert dec q id
        (left_over k (Maps.get dec id s.gateways_with_routes_with_inference_pools.value))
        s.gateways_with_routes_with_inference_pools.value,
  )
  exec-Agrees (delete_inference_pool id) s s' q r e =
      ground (arith, get-remove dec q id s.inference_pools.value)

  not_poisoned : (c : Command O) (s : State O) → IsHealthy s → lock_poisoned c s ≡ true → ⊥
  not_poisoned (save_gateway id x) s h e = ground arith
  not_poisoned (save_gateway_class id x) s h e = ground arith
  not_poisoned (save_gateway_type id x) s h e = ground arith
  not_poisoned (save_http_route id x) s h e = ground arith
  not_poisoned (save_grpc_route id x) s h e = ground arith
  not_poisoned (save_inference_pool id x) s h e = ground arith
  not_poisoned (maybe_save_gateway id x) s h e = ground arith
  not_poisoned (maybe_save_http_route id x) s h e = ground arith
  not_poisoned (maybe_save_grpc_route id x) s h e = ground arith
  not_poisoned (maybe_save_inference_pool id x) s h e = ground arith
  not_poisoned (delete_gateway id) s h e = ground arith
  not_poisoned (delete_gateway_class id) s h e = ground arith
  not_poisoned (delete_gateway_type id) s h e = ground arith
  not_poisoned (delete_http_route id) s h e = ground arith
  not_poisoned (delete_grpc_route id) s h e = ground arith
  not_poisoned (delete_inference_pool id) s h e = ground arith
  not_poisoned (attach_http_route g r) s h e = ground arith
  not_poisoned (attach_grpc_route g r) s h e = ground arith
  not_poisoned (detach_http_route g r) s h e = ground arith
  not_poisoned (detach_grpc_route g r) s h e = ground arith
  not_poisoned (attach_inference_pool g r ids) s h e = ground arith
  not_poisoned (detach_inference_pool g r) s h e = ground arith

  -- A command leaves every lock as it found it.
  exec-IsHealthy : (c : Command O) (s s' : State O) → exec c s ≡ ok s' → IsHealthy s → IsHealthy s'
  unfolding exec
  exec-IsHealthy (save_gateway id x) s s' e h = ground arith
  exec-IsHealthy (save_gateway_class id x) s s' e h = ground arith
  exec-IsHealthy (save_gateway_type id x) s s' e h = ground arith
  exec-IsHealthy (save_http_route id x) s s' e h = ground arith
  exec-IsHealthy (save_grpc_route id x) s s' e h = ground arith
  exec-IsHealthy (save_inference_pool id x) s s' e h = ground arith
  exec-IsHealthy (maybe_save_gateway id x) s s' e h = ground arith
  exec-IsHealthy (maybe_save_http_route id x) s s' e h = ground arith
  exec-IsHealthy (maybe_save_grpc_route id x) s s' e h = ground arith
  exec-IsHealthy (maybe_save_inference_pool id x) s s' e h = ground arith
  exec-IsHealthy (delete_gateway id) s s' e h = ground arith
  exec-IsHealthy (delete_gateway_class id) s s' e h = ground arith
  exec-IsHealthy (delete_gateway_type id) s s' e h = ground arith
  exec-IsHealthy (delete_http_route id) s s' e h = ground arith
  exec-IsHealthy (delete_grpc_route id) s s' e h = ground arith
  exec-IsHealthy (delete_inference_pool id) s s' e h = ground arith
  exec-IsHealthy (attach_http_route g r) s s' e h = ground arith
  exec-IsHealthy (attach_grpc_route g r) s s' e h = ground arith
  exec-IsHealthy (detach_http_route g r) s s' e h = ground arith
  exec-IsHealthy (detach_grpc_route g r) s s' e h = ground arith
  exec-IsHealthy (attach_inference_pool g r ids) s s' e h = ground arith
  exec-IsHealthy (detach_inference_pool g r) s s' e h = ground arith

  -- On a state with no poisoned lock every command succeeds, leaves no lock poisoned, and changes what
  -- the tables hold at every key in the way of its specification.
  pub exec-refines :
      (c : Command O) (s : State O)
      → IsHealthy s
      → (s' : State O) × (exec c s ≡ ok s')
        × IsHealthy s'
        × ((q r : ResourceKey) → Agrees q r (view s') (spec c (view s)))
  exec-refines c s h = elim (Result-cases (exec c s)) [
    | inl (s', e) ↦ (s', e, exec-IsHealthy c s s' e h, λ q r. exec-Agrees c s s' q r e)
    | inr e ↦ absurd (not_poisoned c s h ((exec-eq-err_iff c s).0 e))
  ]
