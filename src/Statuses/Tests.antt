-- ===== src/Statuses/Tests.antt =====
-- The status of a route with two parents, and the patch that is sent for it.
use mathlib.Core.List.{Memᴰ}
use kubvernor.Prelude.{true, false, Option, none, some, List, ◌≡◌, ◌↔◌, refl}
use kubvernor.Keys.{ResourceKey, namespaced_key, http_route_key}
use kubvernor.Routes.{Route}
use kubvernor.Storage.Locks.{ok}
use kubvernor.Storage.Spec.{view}
use kubvernor.Statuses.Kube.{Condition, KubeRoute, key_meta}
use kubvernor.Statuses.Conditions.{attached_conditions}
use kubvernor.Statuses.Parents.{
  is_own, parent_status, with_parents, is_route, update_http_route_parents,
}
use kubvernor.Statuses.Handler.{PatchContext, only_http_routes, update_http_routes}
use kubvernor.Statuses.Entries.{entries, updates}
use kubvernor.Statuses.Patches.{update_http_route_parents_lem}
use kubvernor.Statuses.Sends.{Written, update_http_routes_iff}
use kubvernor.Statuses.Samples.{
  constants, controller, front, back, cart, resolved_cart, front_gateway, kinds, cart_state,
  cart_state-IsHealthy,
}

-- After three updates for one gateway, the other has three entries.
three_entries : entries controller back (updates controller 3 front attached_conditions cart) ≡ 3
unfolding is_own parent_status with_parents namespaced_key
three_entries = refl

update_http_route_parents_example :
    (o : Option KubeRoute) × (update_http_route_parents controller front kinds resolved_cart
        attached_conditions cart_state
      ≡ ok o)
    × ((y : KubeRoute)
        → o ≡ some y
        → (k : ResourceKey) × (x : KubeRoute) × ((view cart_state).attached front k ≡ true)
          × ((view cart_state).http_route k ≡ some x)
          × (is_route resolved_cart x ≡ true)
          × (y ≡ with_parents controller front attached_conditions x))
    × (o ≡ none
        → (k : ResourceKey) (x : KubeRoute) → (view cart_state).attached front k ≡ true
        → (view cart_state).http_route k ≡ some x
        → is_route resolved_cart x ≡ false)
update_http_route_parents_example =
    update_http_route_parents_lem controller front kinds resolved_cart attached_conditions
      cart_state cart_state-IsHealthy

update_http_routes_example :
    (ps : List PatchContext) × (update_http_routes constants kinds controller front_gateway
        cart_state
      ≡ ok ps)
    × ((p : PatchContext)
        → Memᴰ p ps ↔ (
            (r : Route) × (conditions : List Condition) × (y : KubeRoute) × Written constants kinds
              controller front_gateway only_http_routes r conditions
            × (update_http_route_parents controller front kinds r conditions cart_state
                ≡ ok (some y))
            × (p ≡ record {
              resource_key = http_route_key (key_meta y.metadata);
              resource = y;
              controller_name = controller;
            })))
update_http_routes_example =
    update_http_routes_iff constants kinds controller front_gateway cart_state cart_state-IsHealthy
