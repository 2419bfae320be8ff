-- ===== src/Matching/Tests.antt =====
-- Routes that are matched with the listeners of a gateway. Patterns are read as the texts themselves,
-- except that "**+.example.com" has the instance "shop.example.com".
use mathlib.Core.List.{Memᴰ}
use kubvernor.Prelude.{
  List, All, String, str_eq, eq_iff, Bool, true, false≢true, Option, none, some, [], ◌∷◌,
  if◌then◌else◌, ◌≡◌, ◌↔◌, refl,
}
use kubvernor.Keys.{ParentReference, route_ref_key, gateway_key, namespaced_key}
use kubvernor.Keys.{Meta}
use kubvernor.Storage.Locks.{KubeTypes, State, Result, unlocked}
use kubvernor.Storage.Spec.{view}
use kubvernor.Storage.Refinement.{IsHealthy}
use kubvernor.Matching.Parents.{MeansGateway, filter_matching_gateways_iff}
use kubvernor.Matching.Matcher.{filter_matching_gateways}
use kubvernor.Routes.{Route, RouteType, not_resolved, unknown}
use kubvernor.Listeners.Convert.{GatewayListener}
use kubvernor.Listeners.Gateways.{KubeGateway}
use kubvernor.Matching.Hostnames.{
  hostname_filter, listener_pattern, Matches, hostname_filter_iff, default_route_hostname,
}
use kubvernor.Matching.Matcher.{
  RouteToListenersMapping, filter_matching_route, filter_matching_routes, match_parents,
  names_gateway, by_namespace, allowed_by_namespace, by_hostname, allowed_by_hostname,
}
use kubvernor.Matching.Selection.{IsEligible, filter_matching_route_iff}
use kubvernor.Matching.Statuses.{IsSettled, filter_matching_route-none_iff}
use kubvernor.Matching.Partition.{HasListener, search, updated, filter_matching_routes_iff}

abbrev pattern : String → Option (String → Bool)
pattern p = some (if str_eq p "**+.example.com" then str_eq "shop.example.com" else str_eq p)

abbrev listener : GatewayListener
listener = record {
  name = "plain";
  port = 80;
  hostname = some "*.example.com";
  protocol = "HTTP";
  allowed_routes = none;
  tls = none;
}

abbrev front : KubeGateway
front = record {
  meta = record { namespace = some "shop"; name_any = "front" };
  uid = none;
  listeners = listener ∷ [];
}

abbrev parent : ParentReference
parent = record {
  group = none;
  kind = none;
  namespace = none;
  name = "front";
  section_name = none;
  port = some 80;
}

abbrev route : Route
route = record {
  resource_key = namespaced_key "route" "shop";
  parents = some (parent ∷ []);
  hostnames = "shop.example.com" ∷ [];
  resolution_status = not_resolved unknown;
  route_type = RouteType.http [];
}

abbrev wildcard : String
wildcard = "*.example.com"

abbrev shop : String
shop = "shop.example.com"

not_empty : ¬ (wildcard ≡ "")
not_empty e = false≢true ((eq_iff wildcard "").1 e)

not_default : ¬ (shop ≡ default_route_hostname)
not_default e = false≢true ((eq_iff shop default_route_hostname).1 e)

hostname_filter_example :
    (hostname_filter pattern wildcard (shop ∷ []) ≡ true) ↔ Matches pattern wildcard (shop ∷ [])
hostname_filter_example = hostname_filter_iff pattern wildcard shop [] not_empty not_default

route_matched :
    filter_matching_route pattern front [] (some (parent ∷ [])) route ≡ (listener ∷ [], none)
unfolding filter_matching_route match_parents names_gateway route_ref_key gateway_key namespaced_key
    by_namespace allowed_by_namespace by_hostname allowed_by_hostname hostname_filter
    listener_pattern
route_matched = refl

filter_matching_route_example :
    Memᴰ listener (filter_matching_route pattern front [] (some (parent ∷ [])) route).0
    ↔ ((p : ParentReference) × Memᴰ p (parent ∷ []) × IsEligible pattern front [] route listener p)
filter_matching_route_example =
    filter_matching_route_iff pattern front [] route (parent ∷ []) listener

filter_matching_routes_example :
    ((m : RouteToListenersMapping)
      → Memᴰ m (filter_matching_routes pattern front [] (route ∷ [])).0 ↔ (
          (r : Route) × Memᴰ r (route ∷ [])
          × HasListener pattern front [] r
          × (m ≡ record {
            route = updated pattern front [] r;
            listeners = (search pattern front [] r).0;
          })))
    × ((u : Route)
        → Memᴰ u (filter_matching_routes pattern front [] (route ∷ [])).1 ↔ (
            (r : Route) × Memᴰ r (route ∷ [])
            × ¬ HasListener pattern front [] r
            × (u ≡ updated pattern front [] r)))
filter_matching_routes_example = filter_matching_routes_iff pattern front [] (route ∷ [])

filter_matching_route-none_example :
    ((filter_matching_route pattern front [] (some (parent ∷ [])) route).1 ≡ none)
    ↔ All (IsSettled pattern front [] route) (parent ∷ [])
filter_matching_route-none_example =
    filter_matching_route-none_iff pattern front [] route (parent ∷ [])

abbrev metadata : KubeTypes
metadata = record {
  GatewayClass = String;
  Gateway = Meta;
  HttpRoute = String;
  GrpcRoute = String;
  InferencePool = String;
}

abbrev front_stored : State metadata
front_stored = record {
  gateway_classes = unlocked [];
  gateways = unlocked ((gateway_key front.meta, front.meta) ∷ []);
  http_routes = unlocked [];
  grpc_routes = unlocked [];
  gateways_with_routes = unlocked [];
  inference_pools = unlocked [];
  gateways_with_routes_with_inference_pools = unlocked [];
  gateway_implementation_types = unlocked [];
}

front_stored-IsHealthy : IsHealthy front_stored
front_stored-IsHealthy = record {
  gateway_classes_healthy = refl;
  gateways_healthy = refl;
  http_routes_healthy = refl;
  grpc_routes_healthy = refl;
  gateways_with_routes_healthy = refl;
  inference_pools_healthy = refl;
  gateways_with_routes_with_inference_pools_healthy = refl;
  gateway_implementation_types_healthy = refl;
}

abbrev the_meta : Meta → Meta
the_meta m = m

abbrev resolved_parents : List (ParentReference × Option Meta)
resolved_parents = (parent, some front.meta) ∷ (parent, none) ∷ []

filter_matching_gateways_example :
    (found : List Meta) × (filter_matching_gateways metadata the_meta front_stored resolved_parents
      ≡ Result.ok found)
    × ((x : Meta)
        → Memᴰ x found ↔ (
            (p : ParentReference) × (g : Meta) × Memᴰ (p, some g) resolved_parents
            × MeansGateway the_meta front_stored p g
            × ((view front_stored).gateway (gateway_key g) ≡ some x)))
filter_matching_gateways_example =
    filter_matching_gateways_iff the_meta front_stored resolved_parents front_stored-IsHealthy
