-- ===== src/Storage/Invariant.antt =====
-- The tables of every state that the commands lead to are well formed.
use kubvernor.Prelude.{subst, ◌≡◌, inl, inr, arith, Option-cases}
use kubvernor.Prelude.Maps.{Map}
use kubvernor.Prelude.Maps
use kubvernor.Prelude.Distinct.{insert-All, insert-Distinct, remove-Distinct, IsSetList}
use kubvernor.Keys.{ResourceKey, ResourceKey-discrete}
use kubvernor.Storage.Locks.{KubeTypes, State, ok, new_state}
use kubvernor.Storage.Attached.{attached_set, detached_table}
use kubvernor.Storage.Pools.{pooled_set, left_over, taken}
use kubvernor.Storage.WellFormed.{
  OneEach, IsWellFormed, attached_set-IsSetList, detached_table_keeps, pooled_set-OneEach,
  left_over-OneEach, with_attached, with_pools,
}
use kubvernor.Storage.Commands.{
  Command, exec, save_gateway, save_gateway_class, save_gateway_type, save_http_route,
  save_grpc_route, save_inference_pool, maybe_save_gateway, maybe_save_http_route,
  maybe_save_grpc_route, maybe_save_inference_pool, delete_gateway, delete_gateway_class,
  delete_gateway_type, delete_http_route, delete_grpc_route, delete_inference_pool,
  attach_http_route, attach_grpc_route, detach_http_route, detach_grpc_route, attach_inference_pool,
  detach_inference_pool,
}

abbrev dec : Discrete ResourceKey
dec = ResourceKey-discrete

-- The state that `State::new` builds is well formed.
pub new_state-IsWellFormed : (O : KubeTypes) → IsWellFormed (new_state O)
unfolding new_state
new_state-IsWellFormed O = ground arith

module _ {O : KubeTypes} where
  -- The lists that stand for hash maps and sets keep being so under every command: one entry for each key, no route twice in the set of
  -- a gateway, one list of inference pools for each route of a gateway.
  exec-IsWellFormed :
      (c : Command O) (s s' : State O) → exec c s ≡ ok s' → IsWellFormed s → IsWellFormed s'
  unfolding exec
  exec-IsWellFormed (save_gateway id x) s s' e w =
      ground (arith, insert-Distinct dec id x s.gateways.value)
  exec-IsWellFormed (save_gateway_class id x) s s' e w =
      ground (arith, insert-Distinct dec id x s.gateway_classes.value)
  exec-IsWellFormed (save_gateway_type id x) s s' e w =
      ground (arith, insert-Distinct dec id x s.gateway_implementation_types.value)
  exec-IsWellFormed (save_http_route id x) s s' e w =
      ground (arith, insert-Distinct dec id x s.http_routes.value)
  exec-IsWellFormed (save_grpc_route id x) s s' e w =
      ground (arith, insert-Distinct dec id x s.grpc_routes.value)
  exec-IsWellFormed (save_inference_pool id x) s s' e w =
      ground (arith, insert-Distinct dec id x s.inference_pools.value)
  exec-IsWellFormed (maybe_save_gateway id x) s s' e w =
      ground (arith, insert-Distinct dec id x s.gateways.value)
  exec-IsWellFormed (maybe_save_http_route id x) s s' e w =
      ground (arith, insert-Distinct dec id x s.http_routes.value)
  exec-IsWellFormed (maybe_save_grpc_route id x) s s' e w =
      ground (arith, insert-Distinct dec id x s.grpc_routes.value)
  exec-IsWellFormed (maybe_save_inference_pool id x) s s' e w =
      ground (arith, insert-Distinct dec id x s.inference_pools.value)
  exec-IsWellFormed (delete_gateway id) s s' e w =
      ground (arith, remove-Distinct dec id s.gateways.value)
  exec-IsWellFormed (delete_gateway_class id) s s' e w =
      ground (arith, remove-Distinct dec id s.gateway_classes.value)
  exec-IsWellFormed (delete_gateway_type id) s s' e w =
      ground (arith, remove-Distinct dec id s.gateway_implementation_types.value)
  exec-IsWellFormed (delete_http_route id) s s' e w =
      ground (arith, remove-Distinct dec id s.http_routes.value)
  exec-IsWellFormed (delete_grpc_route id) s s' e w =
      ground (arith, remove-Distinct dec id s.grpc_routes.value)
  exec-IsWellFormed (delete_inference_pool id) s s' e w =
      ground (arith, remove-Distinct dec id s.inference_pools.value)
  exec-IsWellFormed (attach_http_route id k) s s' e w =
      let t = s.gateways_with_routes.value in
      let routes = attached_set k (Maps.get dec id t) in
      let grown = attached_set-IsSetList id k t w.attached_sets in
      subst IsWellFormed (ground arith) (
        with_attached w (Maps.insert dec id routes t)
          (insert-Distinct dec id routes t w.attached_distinct)
          (insert-All dec (IsSetList dec) id routes t grown w.attached_sets))
  exec-IsWellFormed (attach_grpc_route id k) s s' e w =
      let t = s.gateways_with_routes.value in
      let routes = attached_set k (Maps.get dec id t) in
      let grown = attached_set-IsSetList id k t w.attached_sets in
      subst IsWellFormed (ground arith) (
        with_attached w (Maps.insert dec id routes t)
          (insert-Distinct dec id routes t w.attached_distinct)
          (insert-All dec (IsSetList dec) id routes t grown w.attached_sets))
  exec-IsWellFormed (detach_http_route id k) s s' e w =
      let t = s.gateways_with_routes.value in
      let (d, h) = detached_table_keeps id k t w.attached_distinct w.attached_sets in
      subst IsWellFormed (ground arith)
        (with_attached w (detached_table id k (Maps.get dec id t) t) d h)
  exec-IsWellFormed (detach_grpc_route id k) s s' e w =
      let t = s.gateways_with_routes.value in
      let (d, h) = detached_table_keeps id k t w.attached_distinct w.attached_sets in
      subst IsWellFormed (ground arith)
        (with_attached w (detached_table id k (Maps.get dec id t) t) d h)
  exec-IsWellFormed (attach_inference_pool id k ids) s s' e w =
      let t = s.gateways_with_routes_with_inference_pools.value in
      let routes = pooled_set k ids (Maps.get dec id t) in
      let grown = pooled_set-OneEach id k ids t w.pools_sets in
      subst IsWellFormed (ground arith) (
        with_pools w (Maps.insert dec id routes t)
          (insert-Distinct dec id routes t w.pools_distinct)
          (insert-All dec OneEach id routes t grown w.pools_sets))
  exec-IsWellFormed (detach_inference_pool id k) s s' e w =
      let t = s.gateways_with_routes_with_inference_pools.value in
      let routes = left_over k (Maps.get dec id t) in
      let left = left_over-OneEach id k t w.pools_sets in
      let changed =
        with_pools w (Maps.insert dec id routes t)
          (insert-Distinct dec id routes t w.pools_distinct)
          (insert-All dec OneEach id routes t left w.pools_sets) in
      elim (Option-cases (taken k (Maps.get dec id t))) [
        | inl none_taken ↦ subst IsWellFormed (ground arith) w
        | inr (ids, some_taken) ↦ subst IsWellFormed (ground arith) changed
      ]
