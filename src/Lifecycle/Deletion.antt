-- ===== src/Lifecycle/Deletion.antt =====
-- What a route leaves behind when it is deleted.
use kubvernor.Prelude.{String, Bool, Option, none, List, [], ◌≡◌, refl, sym, ◌∙◌, ap, arith}
use kubvernor.Prelude.Maps
use kubvernor.Prelude.Maps.{Map, get-remove}
use kubvernor.Keys.{ResourceKey, ResourceKey-discrete, ParentReference}
use kubvernor.Routes.{Route}
use kubvernor.Storage.Locks.{KubeTypes, State, ok, write}
use kubvernor.Storage.Objects.{delete_http_route}
use kubvernor.Storage.Pools.{
  gateways_by_pools, pools_by_route, find_gateways_by_route_and_inference_pool,
}
use kubvernor.Storage.Spec.{view}
use kubvernor.Storage.Refinement.{IsHealthy}
use kubvernor.Statuses.Kube.{KubeRoute, with_objects}
use kubvernor.Lifecycle.Effects.{
  ask, change, bind_done, change_ok, ask_ok, World, Ending, invalid_payload,
}
use kubvernor.Lifecycle.Routes.{detach_all, key_set, parent_keys, on_deleted}
use kubvernor.Lifecycle.Detached.{detach_all_lem}

abbrev dec : Discrete ResourceKey
dec = ResourceKey-discrete

module _ (O : KubeTypes) where
  pub find_lem :
      (r : ResourceKey) (s : State (with_objects O))
      → IsHealthy s
      → (gs : List ResourceKey) × (find_gateways_by_route_and_inference_pool (with_objects O) r s
          ≡ ok gs)
  unfolding find_gateways_by_route_and_inference_pool
  find_lem r s h =
      let table = s.gateways_with_routes_with_inference_pools.value in
      (
        gateways_by_pools table (pools_by_route r table) [],
        ground (arith, h.gateways_with_routes_with_inference_pools_healthy),
      )

  abbrev pub without_route : ResourceKey → State (with_objects O) → State (with_objects O)
  without_route r s = record s {
    http_routes = write s.http_routes (Maps.remove dec r s.http_routes.value);
  }

  pub delete_lem :
      (r : ResourceKey) (s : State (with_objects O)) (o : Option KubeRoute)
      → IsHealthy s
      → (view s).http_route r ≡ o
      → delete_http_route (with_objects O) r s ≡ ok (o, without_route r s)
  unfolding delete_http_route
  delete_lem r s o h e = ground (arith, h.http_routes_healthy, e)

  -- A route that is not there is not missed.
  removed_lem :
      (r q : ResourceKey) (s : State (with_objects O))
      → (view s).http_route r ≡ none
      → (view (without_route r s)).http_route q ≡ (view s).http_route q
  removed_lem r q s e = get-remove dec q r s.http_routes.value ∙ turn (dec q r)
    where
      turn :
          (d : Dec (q ≡ r))
          → (elim d [ yes _ ↦ none | no _ ↦ (view s).http_route q ]) ≡ (view s).http_route q
      turn (yes p) = sym (ap (λ k. (view s).http_route k) p ∙ e)
      turn (no _) = refl

module _ {Uuid : Type 0} (O : KubeTypes) where
  -- Where no lock is poisoned and no HTTP route is stored under a key, the deletion of a route of that
  -- key ends with the error that the route does not exist: nothing is sent, neither to drop the
  -- finalizer nor to release the references, and the HTTP and gRPC routes that are stored stay as they
  -- are, a gRPC route that is stored under that key among them.
  pub on_deleted-missing :
      (to_route : KubeRoute → Option Route) (controller_name : String) (has_patcher : Bool)
      (resource : KubeRoute) (r : ResourceKey) (refs : List ParentReference) (w : World Uuid O)
      → IsHealthy w.state
      → (view w.state).http_route r ≡ none
      → (w' : World Uuid O) × (on_deleted to_route controller_name has_patcher resource r refs w
          ≡ Ending.failed (invalid_payload "Route doesn't exist") w')
        × (w'.sent ≡ w.sent)
        × ((q : ResourceKey) → (view w'.state).http_route q ≡ (view w.state).http_route q)
        × ((q : ResourceKey) → (view w'.state).grpc_route q ≡ (view w.state).grpc_route q)
  unfolding on_deleted
  on_deleted-missing to_route controller_name has_patcher resource r refs w h missing =
      let (w', e, (h', a, b, _), sent, _) =
        detach_all_lem O r (key_set (parent_keys r refs) []) w h in
      let (gs, f) = find_lem O r w'.state h' in
      let absent = ap (λ m. Maps.get dec r (m.value)) a ∙ missing in
      let d = delete_lem O r w'.state none h' absent in
      (
        record w' { state = without_route O r w'.state },
        bind_done (detach_all r (key_set (parent_keys r refs) [])) _ w e
            ∙ bind_done (ask (find_gateways_by_route_and_inference_pool (with_objects O) r)) _ w'
                (ask_ok (find_gateways_by_route_and_inference_pool (with_objects O) r) w' f)
            ∙ bind_done (change (delete_http_route (with_objects O) r)) _ w'
                (change_ok (delete_http_route (with_objects O) r) w' d),
        sent,
        λ q. removed_lem O r q w'.state absent ∙ ap (λ m. Maps.get dec q (m.value)) a,
        λ q. ap (λ m. Maps.get dec q (m.value)) b,
      )
