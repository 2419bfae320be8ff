-- ===== src/Lifecycle/Detached.antt =====
-- How a route that is deleted is taken from its gateways: the loop over its parents in `on_deleted` of
-- kubvernor-controller/src/controllers/route/routes_common.rs.
use kubvernor.Prelude.{
  Option-cases, inl, inr, Bool, true, false, ◌&&◌, not, List, [], ◌∷◌, ◌≡◌, refl, ◌∙◌, ap, arith,
}
use kubvernor.Prelude.Maps
use kubvernor.Prelude.Maps.{Map, get-remove}
use kubvernor.Prelude.Sets.{contains, same}
use kubvernor.Keys.{ResourceKey, ResourceKey-discrete}
use kubvernor.Storage.Locks.{KubeTypes, State, ok, write, RouteToInferencePool}
use kubvernor.Storage.Attached.{detach_http_route_from_gateway, detached_table}
use kubvernor.Storage.Pools.{taken, left_over, detach_infererence_pool_from_gateway}
use kubvernor.Storage.Spec.{view, holds}
use kubvernor.Storage.Tables.{holds-detached_table}
use kubvernor.Storage.Refinement.{IsHealthy}
use kubvernor.Statuses.Kube.{with_objects}
use kubvernor.Lifecycle.Effects.{change, bind_done, change_ok, World, Ending}
use kubvernor.Lifecycle.Routes.{detach_all}

abbrev dec : Discrete ResourceKey
dec = ResourceKey-discrete

module _ (O : KubeTypes) where
  -- What a detachment keeps of the state.
  abbrev pub Kept : State (with_objects O) → State (with_objects O) → Type 0
  Kept s s' =
      IsHealthy s'
      × (s'.http_routes ≡ s.http_routes)
      × (s'.grpc_routes ≡ s.grpc_routes)
      × (s'.gateways ≡ s.gateways)

  abbrev with_routes :
      State (with_objects O) → Map ResourceKey (List ResourceKey) → State (with_objects O)
  with_routes s table = record s { gateways_with_routes = write s.gateways_with_routes table }

  abbrev with_pools :
      State (with_objects O) → Map ResourceKey (List RouteToInferencePool) → State (with_objects O)
  with_pools s table = record s {
    gateways_with_routes_with_inference_pools =
        write s.gateways_with_routes_with_inference_pools table;
  }

  with_routes-Kept :
      (s : State (with_objects O)) (table : Map ResourceKey (List ResourceKey))
      → IsHealthy s
      → Kept s (with_routes s table)
  with_routes-Kept s table h = (
    record {
      gateway_classes_healthy = h.gateway_classes_healthy;
      gateways_healthy = h.gateways_healthy;
      http_routes_healthy = h.http_routes_healthy;
      grpc_routes_healthy = h.grpc_routes_healthy;
      gateways_with_routes_healthy = h.gateways_with_routes_healthy;
      inference_pools_healthy = h.inference_pools_healthy;
      gateways_with_routes_with_inference_pools_healthy =
          h.gateways_with_routes_with_inference_pools_healthy;
      gateway_implementation_types_healthy = h.gateway_implementation_types_healthy;
    },
    refl,
    refl,
    refl,
  )

  with_pools-Kept :
      (s : State (with_objects O)) (table : Map ResourceKey (List RouteToInferencePool))
      → IsHealthy s
      → Kept s (with_pools s table)
  with_pools-Kept s table h = (
    record {
      gateway_classes_healthy = h.gateway_classes_healthy;
      gateways_healthy = h.gateways_healthy;
      http_routes_healthy = h.http_routes_healthy;
      grpc_routes_healthy = h.grpc_routes_healthy;
      gateways_with_routes_healthy = h.gateways_with_routes_healthy;
      inference_pools_healthy = h.inference_pools_healthy;
      gateways_with_routes_with_inference_pools_healthy =
          h.gateways_with_routes_with_inference_pools_healthy;
      gateway_implementation_types_healthy = h.gateway_implementation_types_healthy;
    },
    refl,
    refl,
    refl,
  )

  detach_http_route_lem :
      (k r : ResourceKey) (s : State (with_objects O))
      → IsHealthy s
      → (s' : State (with_objects O)) × (detach_http_route_from_gateway (with_objects O) k r s
          ≡ ok (tt, s'))
        × Kept s s'
        × ((g q : ResourceKey)
            → (view s').attached g q
              ≡ ((view s).attached g q && not (same dec q r && same dec g k)))
  unfolding detach_http_route_from_gateway
  detach_http_route_lem k r s h =
      let table =
        detached_table k r (Maps.get dec k s.gateways_with_routes.value)
          s.gateways_with_routes.value in
      (
        with_routes s table,
        ground (arith, h.gateways_with_routes_healthy),
        with_routes-Kept s table h,
        λ g q. holds-detached_table g q k r s.gateways_with_routes.value,
      )

  detach_pool_lem :
      (k r : ResourceKey) (s : State (with_objects O))
      → IsHealthy s
      → (ids : List ResourceKey) × (s' : State (with_objects O))
        × (detach_infererence_pool_from_gateway (with_objects O) k r s ≡ ok (ids, s'))
        × Kept s s'
        × (s'.gateways_with_routes ≡ s.gateways_with_routes)
  unfolding detach_infererence_pool_from_gateway
  detach_pool_lem k r s h =
      let m = s.gateways_with_routes_with_inference_pools.value in
      let table = Maps.insert dec k (left_over r (Maps.get dec k m)) m in
      elim (Option-cases (taken r (Maps.get dec k m))) [
        | inl e ↦ (
          [],
          s,
          ground (arith, h.gateways_with_routes_with_inference_pools_healthy, e),
          (h, refl, refl, refl),
          refl,
        )
        | inr (ids, e) ↦ (
          ids,
          with_pools s table,
          ground (arith, h.gateways_with_routes_with_inference_pools_healthy, e),
          with_pools-Kept s table h,
          refl,
        )
      ]

none_taken : (a b : Bool) → a ≡ (a && not (b && false))
none_taken a b = ground arith

both_taken :
    {A : Type 0} (a b : Bool) (d : Dec A) (c : Bool)
    → ((a && not (b && (elim d [ yes _ ↦ true | no _ ↦ false ]))) && not (b && c))
      ≡ (a && not (b && (elim d [ yes _ ↦ true | no _ ↦ c ])))
both_taken a b d c = ground arith

module _ {Uuid : Type 0} (O : KubeTypes) where
  pub detach_all_lem :
      (r : ResourceKey) (ks : List ResourceKey) (w : World Uuid O)
      → IsHealthy w.state
      → (w' : World Uuid O) × (detach_all r ks w ≡ Ending.done tt w')
        × Kept O w.state w'.state
        × (w'.sent ≡ w.sent)
        × ((g q : ResourceKey)
            → (view w'.state).attached g q
              ≡ ((view w.state).attached g q && not (same dec q r && contains dec g ks)))
  unfolding detach_all contains
  detach_all_lem r [] w h =
      (w, refl, (h, refl, refl, refl), refl, λ g q. none_taken ((view w.state).attached g q) _)
  detach_all_lem r (k ∷ ks) w h =
      let (s', e, (h', a, b, c), gone) = detach_http_route_lem O k r w.state h in
      let (ids, s'', f, (h'', a', b', c'), same_table) = detach_pool_lem O k r s' h' in
      let (w', g, (h''', a'', b'', c''), sent, rest) =
        detach_all_lem r ks (record w { state = s'' }) h'' in
      (
        w',
        bind_done (change (detach_http_route_from_gateway (with_objects O) k r)) _ w
              (change_ok (detach_http_route_from_gateway (with_objects O) k r) w e)
            ∙ bind_done (change (detach_infererence_pool_from_gateway (with_objects O) k r)) _
                (record w { state = s' })
                (change_ok (detach_infererence_pool_from_gateway (with_objects O) k r)
                  (record w { state = s' }) f)
            ∙ g,
        (h''', a'' ∙ a' ∙ a, b'' ∙ b' ∙ b, c'' ∙ c' ∙ c),
        sent,
        λ j q.
            rest j q
            ∙ ap
                (λ t. holds q (Maps.get dec j (t.value)) && not (same dec q r && contains dec j ks))
                same_table
            ∙ ap (λ b. b && not (same dec q r && contains dec j ks)) (gone j q)
            ∙ both_taken ((view w.state).attached j q) _ (dec j k) _,
      )
