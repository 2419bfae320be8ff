-- ===== src/Lifecycle/Tests.antt =====
-- A gRPC route that is deleted, and a resource that is new.
use mathlib.Core.List.{Memᴰ}
use kubvernor.Prelude.{String, true, false, Option, none, some, List, [], ◌∷◌, ◌≡◌, ◌↔◌, refl}
use kubvernor.Prelude.Maps
use kubvernor.Prelude.Sets
use kubvernor.Keys.{
  ResourceKey, ResourceKey-discrete, ParentReference, namespaced_key, grpc_route_key,
  http_route_key,
}
use kubvernor.Routes.{Backend, BackendType, Route, RouteType, backends}
use kubvernor.Storage.Spec.{view}
use kubvernor.Statuses.Kube.{KubeRoute, key_meta}
use kubvernor.Statuses.Samples.{
  controller, cart, kinds, cart_state, cart_state-IsHealthy, resolved_cart, parent,
}
use kubvernor.Lifecycle.Effects.{World, Ending, invalid_payload}
use kubvernor.Lifecycle.Routes.{on_deleted, extract_references}
use kubvernor.Lifecycle.Deletion.{on_deleted-missing}
use kubvernor.Lifecycle.Decisions.{IsOpen, extract_references_iff}

abbrev world : World String kinds
world = record { state = cart_state; sent = [] }

abbrev to_route : KubeRoute → Option Route
to_route _ = some resolved_cart

abbrev grpc_key : ResourceKey
grpc_key = grpc_route_key (key_meta (cart.metadata))

abbrev cart_key : ResourceKey
cart_key = http_route_key (key_meta (cart.metadata))

not_stored : (view cart_state).http_route grpc_key ≡ none
unfolding Maps.get grpc_route_key http_route_key ResourceKey-discrete
not_stored = refl

abbrev no_parents : List ParentReference
no_parents = []

on_deleted-missing_example :
    (w' : World String kinds) × (on_deleted to_route controller false cart grpc_key no_parents world
      ≡ Ending.failed (invalid_payload "Route doesn't exist") w')
    × (w'.sent ≡ [])
    × ((q : ResourceKey) → (view w'.state).http_route q ≡ (view cart_state).http_route q)
    × ((q : ResourceKey) → (view w'.state).grpc_route q ≡ (view cart_state).grpc_route q)
on_deleted-missing_example =
    on_deleted-missing kinds to_route controller false cart grpc_key no_parents world
      cart_state-IsHealthy not_stored

-- The gateway that the route of the sample state is attached to.
abbrev front_parents : List ParentReference
front_parents = parent "front" ∷ []

abbrev service_key : ResourceKey
service_key = namespaced_key "service" "shop"

abbrev service_route : Route
service_route = record resolved_cart {
  route_type = RouteType.http (
      record {
        name = "shop-0";
        matching_rules = [];
        backends =
            Backend.maybe (
              BackendType.service (record {
                resource_key = service_key;
                endpoint = "service.shop";
                port = 80;
                effective_port = 80;
                weight = 1;
              }))
            ∷ [];
        filter_backends = [];
      }
      ∷ []);
}

extract_references_example :
    (Sets.contains ResourceKey-discrete service_key (extract_references service_route) ≡ true)
    ↔ ((b : Backend) × Memᴰ b (backends service_route) × IsOpen service_key b)
extract_references_example = extract_references_iff service_key service_route
