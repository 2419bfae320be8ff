-- ===== src/Resolution/Tests.antt =====
-- A route whose service lies in another namespace.
use mathlib.Core.List.{Memᴰ}
use kubvernor.Prelude.{
  String, String-discrete, true, Option, none, some, List, [], ◌∷◌, ◌≡◌, ◌↔◌, refl,
}
use kubvernor.Prelude.Maps
use kubvernor.Prelude.Sets
use kubvernor.Keys.{ResourceKey, namespaced_key}
use kubvernor.Routes.{
  Backend, BackendType, ServiceTypeConfig, Route, RouteType, unknown, not_resolved,
}
use kubvernor.Storage.Locks.{State, ok}
use kubvernor.Storage.Refinement.{IsHealthy}
use kubvernor.Grants.Resolver.{
  Grant, GrantsResolver, ReferenceGrantRef, is_allowed, resolve_internal,
}
use kubvernor.Listeners.Convert.{GatewayListener}
use kubvernor.Matching.Matcher.{RouteToListenersMapping}
use kubvernor.Statuses.Kube.{with_objects}
use kubvernor.Statuses.Samples.{controller, front, kinds, cart_state, cart_state-IsHealthy}
use kubvernor.Resolution.Backends.{
  Lookups, Service, int_port, backend_remap_port, remap, is_permitted, process_service_backend,
  resolve_service,
}
use kubvernor.Resolution.Resolver.{is_resolved, resolve, calculate_attached_routes}
use kubvernor.Resolution.Totals.{is_resolved_backend, all}
use kubvernor.Resolution.Routes.{counted, resolve_lem}
use kubvernor.Resolution.Permissions.{MayUse, processed, process_service_backend_iff}
use kubvernor.Resolution.Attached.{holds_route, calculate_attached_routes_iff}

abbrev headless : Service
headless = record {
  spec = some (record {
    cluster_ip = some "None";
    ports = some (
        record { port = 80; target_port = some (int_port 8080) }
        ∷ record { port = 80; target_port = none }
        ∷ []);
  });
}

abbrev lookups : Lookups
lookups = record {
  get_service_reference = λ _. some headless;
  get_inference_pool_reference = λ _. none;
  get_service = λ _ _. true;
  list_pods = λ _ _. none;
  patch_pool = λ _ _. true;
}

-- The first port of the number gives the target.
remapped : backend_remap_port 80 headless ≡ 8080
unfolding backend_remap_port remap
remapped = refl

abbrev no_grants : GrantsResolver
no_grants = record { references = []; resolved_reference_grants = [] }

abbrev no_grants_listed : ReferenceGrantRef → String → Option (List Grant)
no_grants_listed _ _ = none

abbrev vault_service : ServiceTypeConfig
vault_service = record {
  resource_key = namespaced_key "service" "vault";
  endpoint = "service.vault";
  port = 80;
  effective_port = 80;
  weight = 1;
}

abbrev outside : ResourceKey
outside = namespaced_key "cart" "elsewhere"

-- No grant permits it, and the namespaces all differ.
used_without_grant :
    is_resolved_backend (processed no_grants_listed lookups no_grants front outside vault_service)
    ≡ true
unfolding process_service_backend is_permitted namespaced_key resolve_service is_allowed
    Sets.contains resolve_internal
used_without_grant = refl

process_service_backend_example :
    let backend = processed no_grants_listed lookups no_grants front outside vault_service in
    let may_use = MayUse no_grants_listed lookups no_grants front outside vault_service in
    ((is_resolved_backend backend ≡ true)
      ↔ (((service : Service) × (some headless ≡ some service)) × may_use))
    × ((service : Service)
        → some headless ≡ some service
        → may_use
        → backend
          ≡ Backend.resolved (
              BackendType.service
                (record vault_service { effective_port = backend_remap_port 80 service })))
    × (¬ may_use → backend ≡ Backend.not_allowed (BackendType.service vault_service))
process_service_backend_example =
    process_service_backend_iff no_grants_listed lookups no_grants front outside vault_service

abbrev route : Route
route = record {
  resource_key = outside;
  parents = none;
  hostnames = "shop.example.com" ∷ [];
  resolution_status = not_resolved unknown;
  route_type = RouteType.http (
      record {
        name = "shop-0";
        matching_rules = [];
        backends = Backend.maybe (BackendType.service vault_service) ∷ [];
        filter_backends = [];
      }
      ∷ []);
}

resolve_example :
    (r : Route) × (s' : State (with_objects kinds)) × (resolve lookups no_grants front kinds
        controller route cart_state
      ≡ ok (r, s'))
    × IsHealthy s'
    × (is_resolved r.resolution_status ≡ all is_resolved_backend (counted r))
    × (r.resource_key ≡ outside)
    × (r.parents ≡ none)
    × (r.hostnames ≡ "shop.example.com" ∷ [])
resolve_example =
    resolve_lem lookups no_grants front kinds controller route cart_state cart_state-IsHealthy

abbrev plain : GatewayListener
plain = record {
  name = "plain";
  port = 80;
  hostname = none;
  protocol = "HTTP";
  allowed_routes = none;
  tls = none;
}

abbrev mappings : List RouteToListenersMapping
mappings = record { route = route; listeners = plain ∷ [] } ∷ []

calculate_attached_routes_example :
    (holds_route outside (Maps.get String-discrete "plain" (calculate_attached_routes mappings))
      ≡ true)
    ↔ ((m : RouteToListenersMapping) × Memᴰ m mappings
        × (outside ≡ m.route.resource_key)
        × ((l : GatewayListener) × Memᴰ l m.listeners × ("plain" ≡ l.name)))
calculate_attached_routes_example = calculate_attached_routes_iff outside "plain" mappings
