-- ===== src/Rules/Tests.antt =====
-- The rules of one listener, and the theorems of this folder at concrete inputs.
use mathlib.Core.List.{Perm}
use kubvernor.Prelude.{
  ℕ, String, Bool, Option, none, some, [], ◌∷◌, map, filter_by, ◌≡◌, refl, ℕ_discrete,
}
use kubvernor.Prelude.Maps
use kubvernor.Keys.{namespaced_key}
use kubvernor.Routes.{
  PathType, Method, RouteMatch, Route, RouteType, ResolutionStatus, GrpcRouteMatch,
}
use kubvernor.Listeners.Convert.{Listener, ProtocolType, TlsType}
use kubvernor.Listeners.Gateways.{Gateway}
use kubvernor.Storage.Locks.{GatewayImplementationType}
use kubvernor.Rules.Ordering.{IsOrder, is_equal}
use kubvernor.Rules.Http
use kubvernor.Rules.Laws.{compare_matching-IsOrder}
use kubvernor.Rules.Sort.{IsSortedBy, sort_by, insert_by}
use kubvernor.Rules.Effective.{
  HttpEffectiveRoutingRule, http_matching_rules, grpc_matching_rules, unsorted_http_rules,
  unsorted_grpc_rules, create_http_effective_route,
}
use kubvernor.Rules.Lengths.{compare_lengths, compare_headers, compare_queries}
use kubvernor.Rules.Sorted.{
  compare_http, compare_grpc, http_matching_rules_lem, grpc_matching_rules_lem,
}
use kubvernor.Rules.Mapping.{ordered_listeners, generate_envoy_listener_mapping}
use kubvernor.Rules.Ports.{settings, settings_of, generate_envoy_listener_mapping_lem}

abbrev path_number : PathType → ℕ
path_number PathType.exact = 0
path_number PathType.path_prefix = 1
path_number PathType.regular_expression = 2

abbrev method_number : Method → ℕ
method_number Method.get = 0
method_number _ = 1

abbrev path_match : PathType → String → RouteMatch
path_match t v = record {
  headers = none;
  method = none;
  path = some (record { path_type = some t; value = some v });
  query_params = none;
}

abbrev route : Route
route = record {
  resource_key = namespaced_key "route" "shop";
  parents = none;
  hostnames = "shop.example.com" ∷ [];
  resolution_status = ResolutionStatus.resolved;
  route_type = RouteType.http (
      record {
        name = "route-0";
        backends = [];
        matching_rules =
            path_match PathType.path_prefix "/"
            ∷ path_match PathType.path_prefix "/cart"
            ∷ path_match PathType.exact "/"
            ∷ [];
        filter_backends = [];
      }
      ∷ []);
}

abbrev method_match : String → GrpcRouteMatch
method_match m = record {
  headers = none;
  method = some (record { method = some m; service = some "Cart" });
}

abbrev calls : Route
calls = record route {
  route_type = RouteType.grpc (
      record {
        name = "calls-0";
        backends = [];
        matching_rules = method_match "Remove" ∷ method_match "Add" ∷ [];
        filter_backends = [];
      }
      ∷ []);
}

abbrev secure : Listener
secure = record {
  protocol = ProtocolType.https;
  content = record {
    config = record {
      name = "secure";
      port = 443;
      hostname = some "shop.example.com";
      tls_type = some TlsType.passthrough;
    };
    conditions = [];
    resolved_routes = route ∷ [];
    unresolved_routes = calls ∷ [];
    attached_routes = 1;
  };
}

-- a second listener of the port, with other settings
abbrev second : Listener
second = record {
  protocol = ProtocolType.tcp;
  content = record {
    config = record { name = "stream"; port = 443; hostname = none; tls_type = none };
    conditions = [];
    resolved_routes = [];
    unresolved_routes = [];
    attached_routes = 0;
  };
}

abbrev gateway : Gateway String
gateway = record {
  id = "1";
  resource_key = namespaced_key "front" "shop";
  addresses = [];
  listeners = ("secure", secure) ∷ ("stream", second) ∷ [];
  orphaned_routes = [];
  backend_type = GatewayImplementationType.envoy;
}

-- the exact path comes first, then the longer prefix
http_matching_rules-secure :
    map (λ r. r.route_matcher) (http_matching_rules path_number method_number secure)
    ≡ path_match PathType.exact "/"
      ∷ path_match PathType.path_prefix "/cart"
      ∷ path_match PathType.path_prefix "/"
      ∷ []
unfolding http_matching_rules sort_by insert_by unsorted_http_rules create_http_effective_route
    Http.compare_matching Http.path_matching Http.header_matching Http.query_matching
    Http.method_matching compare_headers compare_queries compare_lengths
http_matching_rules-secure = refl

http_matching_rules_example :
    IsSortedBy
      (compare_http path_number method_number)
      (http_matching_rules path_number method_number secure)
    × Perm (http_matching_rules path_number method_number secure) (unsorted_http_rules secure)
    × ((k : HttpEffectiveRoutingRule)
        → filter_by
            (λ r. is_equal (compare_http path_number method_number k r))
            (http_matching_rules path_number method_number secure)
          ≡ filter_by
              (λ r. is_equal (compare_http path_number method_number k r))
              (unsorted_http_rules secure))
http_matching_rules_example = http_matching_rules_lem path_number method_number secure

grpc_matching_rules_example :
    IsSortedBy compare_grpc (grpc_matching_rules secure)
    × Perm (grpc_matching_rules secure) (unsorted_grpc_rules secure)
grpc_matching_rules_example = grpc_matching_rules_lem secure

compare_matching_example : IsOrder (Http.compare_matching path_number method_number)
compare_matching_example = compare_matching-IsOrder path_number method_number

abbrev no_pattern : String → Option (String → Bool)
no_pattern _ = none

generate_envoy_listener_mapping_example :
    settings (
      Maps.get ℕ_discrete 443
        (generate_envoy_listener_mapping path_number method_number no_pattern
          (λ h. h ∷ [])
          gateway
          []).0)
    ≡ settings_of path_number method_number no_pattern (λ h. h ∷ []) "front" (some secure)
unfolding namespaced_key ordered_listeners sort_by insert_by
generate_envoy_listener_mapping_example =
    generate_envoy_listener_mapping_lem path_number method_number no_pattern (λ h. h ∷ []) gateway
      [] 443
