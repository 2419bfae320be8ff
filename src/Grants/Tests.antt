-- ===== src/Grants/Tests.antt =====
-- A gateway whose certificate lies in another namespace, with and without a grant.
use kubvernor.Prelude.{String, true, Option, none, some, List, [], ◌∷◌, ◌≡◌, ◌↔◌, ◌⊎◌, refl}
use kubvernor.Prelude.Sets
use kubvernor.Keys.{ResourceKey, namespaced_key, ResourceKey-discrete}
use kubvernor.Routes.{
  Route, RouteType, ResolutionStatus, Backend, BackendType, ServiceTypeConfig, backends,
  backends_of,
}
use kubvernor.Listeners.Certificates.{Certificate, resource_key}
use kubvernor.Listeners.Convert.{Listener, ProtocolType, TlsType}
use kubvernor.Grants.References.{IsReferenced}
use kubvernor.Storage.Locks.{envoy}
use kubvernor.Listeners.Gateways.{Gateway}
use kubvernor.Grants.Resolver.{
  Grant, GrantsResolver, ReferenceGrantRef, ReferenceGrantRef-discrete, reference_of, without_name,
  search_references, route_references, secret_references, add_references_by_gateway,
  delete_references_by_gateway, resolve_internal, is_allowed, from_key, to_key, configured,
  grant_from, grant_to,
}
use kubvernor.Grants.Permits.{IsConfigured, is_allowed-resolve_internal_iff}
use kubvernor.Grants.Tracking.{add_references_by_gateway_iff, resolve_internal-eq-nil_iff}

abbrev dec : Discrete ReferenceGrantRef
dec = ReferenceGrantRef-discrete

abbrev front : ResourceKey
front = namespaced_key "front" "shop"

abbrev secret : ResourceKey
secret = namespaced_key "secret" "vault"

abbrev grants_of : ReferenceGrantRef → String → Option (List Grant)
grants_of _ _ = some (
    record {
      namespace = some "vault";
      from =
          record { group = "gateway.networking.k8s.io"; kind = "Gateway"; namespace = "shop" } ∷ [];
      to = record { group = ""; kind = "Gateway"; name = none } ∷ [];
    }
    ∷ [])

abbrev tracked : GrantsResolver
tracked = record {
  references = reference_of front secret front ∷ [];
  resolved_reference_grants = [];
}

secret_allowed : is_allowed front secret front (resolve_internal grants_of tracked).0 ≡ true
unfolding is_allowed resolve_internal Sets.contains configured ReferenceGrantRef-discrete grant_from
    from_key namespaced_key grant_to to_key ResourceKey-discrete
secret_allowed = refl

is_allowed-resolve_internal_example :
    (is_allowed front secret front (resolve_internal grants_of tracked).0 ≡ true) ↔ (
      (Sets.contains dec (reference_of front secret front) tracked.references ≡ true)
      × (IsConfigured grants_of tracked.references (reference_of front secret front)
          ⊎ IsConfigured grants_of tracked.references
              (without_name (reference_of front secret front))))
is_allowed-resolve_internal_example =
    is_allowed-resolve_internal_iff grants_of front secret front tracked

resolve_internal-eq-nil_example : ((resolve_internal grants_of tracked).1 ≡ []) ↔ (
    (x : ReferenceGrantRef)
    → Sets.contains dec x (resolve_internal grants_of tracked).0.resolved_reference_grants
      ≡ Sets.contains dec x tracked.resolved_reference_grants)
resolve_internal-eq-nil_example = resolve_internal-eq-nil_iff grants_of tracked

abbrev service : ServiceTypeConfig
service = record {
  resource_key = namespaced_key "cart" "vault";
  endpoint = "cart.vault";
  port = 80;
  effective_port = 80;
  weight = 1;
}

abbrev route : Route
route = record {
  resource_key = namespaced_key "route" "shop";
  parents = none;
  hostnames = [];
  resolution_status = ResolutionStatus.resolved;
  route_type = RouteType.http (
      record {
        name = "route-0";
        backends = Backend.maybe (BackendType.service service) ∷ [];
        matching_rules = [];
        filter_backends = [];
      }
      ∷ []);
}

abbrev one_route : ResourceKey → List Route
one_route _ = route ∷ []

abbrev no_routes : ResourceKey → List Route
no_routes _ = []

abbrev secure : Listener
secure = record {
  protocol = ProtocolType.https;
  content = record {
    config = record {
      name = "secure";
      port = 443;
      hostname = none;
      tls_type = some (TlsType.terminate (Certificate.not_resolved secret ∷ []));
    };
    conditions = [];
    resolved_routes = [];
    unresolved_routes = [];
    attached_routes = 0;
  };
}

abbrev gateway : Gateway String
gateway = record {
  id = "id";
  resource_key = front;
  addresses = [];
  listeners = ("secure", secure) ∷ [];
  orphaned_routes = [];
  backend_type = envoy;
}

abbrev nothing_tracked : GrantsResolver
nothing_tracked = record { references = []; resolved_reference_grants = [] }

-- The reference of a route that is not linked any longer stays tracked, the listener's goes.
route_reference_stays :
    (delete_references_by_gateway no_routes gateway
      (add_references_by_gateway one_route gateway nothing_tracked)).references
    ≡ reference_of route.resource_key service.resource_key front ∷ []
unfolding delete_references_by_gateway add_references_by_gateway search_references route_references
    secret_references Sets.union Sets.difference Sets.insert Sets.contains
    ReferenceGrantRef-discrete ResourceKey-discrete from_key to_key namespaced_key backends
    backends_of resource_key
route_reference_stays = refl

add_references_by_gateway_example :
    let x = reference_of route.resource_key service.resource_key front in
    let added = add_references_by_gateway one_route gateway nothing_tracked in
    let deleted = delete_references_by_gateway no_routes gateway added in
    ((Sets.contains dec x added.references ≡ true)
      ↔ ((Sets.contains dec x [] ≡ true) ⊎ IsReferenced (route ∷ []) gateway x))
    × ((Sets.contains dec x deleted.references ≡ true) ↔ (
        ((Sets.contains dec x [] ≡ true) ⊎ IsReferenced (route ∷ []) gateway x)
        × ¬ IsReferenced [] gateway x))
add_references_by_gateway_example =
    add_references_by_gateway_iff one_route no_routes gateway nothing_tracked
      (reference_of route.resource_key service.resource_key front)
