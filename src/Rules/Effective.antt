-- ===== src/Rules/Effective.antt =====
-- The effective rules of a listener: `create_http_effective_route`, `create_grpc_effective_route`,
-- `http_matching_rules` and `grpc_matching_rules` of
-- kubvernor-controller/src/backends/envoy/common/resource_generator.rs. The filters of the rules
-- are left out.
use kubvernor.Prelude.{
  ℕ, String, Option, none, some, List, [], ◌∷◌, ◌++◌, map, filter_map, is_empty, if◌then◌else◌,
}
use kubvernor.Routes.{
  Backend, PathType, Method, RouteMatch, GrpcRouteMatch, RoutingRule, Route, RouteType,
}
use kubvernor.Listeners.Convert.{Listener}
use kubvernor.Rules.Sort.{sort_by}
use kubvernor.Rules.Http
use kubvernor.Rules.Grpc

pub record HttpEffectiveRoutingRule : Type 0 where
  pub listener_port : ℕ
  pub route_matcher : RouteMatch
  pub backends : List Backend
  pub filter_backends : List Backend
  pub name : String
  pub hostnames : List String

pub record GrpcEffectiveRoutingRule : Type 0 where
  pub route_matcher : GrpcRouteMatch
  pub backends : List Backend
  pub name : String
  pub hostnames : List String

abbrev pub get_http_default_rules_matches : RouteMatch
get_http_default_rules_matches = record {
  headers = some [];
  method = none;
  path = some (record { path_type = some PathType.path_prefix; value = some "/" });
  query_params = none;
}

abbrev pub get_grpc_default_rules_matches : GrpcRouteMatch
get_grpc_default_rules_matches = record { headers = some []; method = none }

-- the matches of a rule, or the default one
abbrev pub matches_or : {M : Type 0} → M → RoutingRule M → List M
matches_or d rr = if is_empty rr.matching_rules then d ∷ [] else rr.matching_rules

abbrev pub http_rule :
    ℕ → List String → RoutingRule RouteMatch → RouteMatch → HttpEffectiveRoutingRule
http_rule port hostnames rr matcher = record {
  listener_port = port;
  route_matcher = matcher;
  backends = rr.backends;
  filter_backends = rr.filter_backends;
  name = rr.name;
  hostnames = hostnames;
}

unfoldable pub create_http_effective_route :
    Listener → List String → List (RoutingRule RouteMatch) → List HttpEffectiveRoutingRule
create_http_effective_route listener hostnames [] = []
create_http_effective_route listener hostnames (rr ∷ rules) =
    map (http_rule listener.content.config.port hostnames rr)
      (matches_or get_http_default_rules_matches rr)
    ++ create_http_effective_route listener hostnames rules

abbrev pub grpc_rule :
    List String → RoutingRule GrpcRouteMatch → GrpcRouteMatch → GrpcEffectiveRoutingRule
grpc_rule hostnames rr matcher = record {
  route_matcher = matcher;
  backends = rr.backends;
  name = rr.name;
  hostnames = hostnames;
}

unfoldable pub create_grpc_effective_route :
    List String → List (RoutingRule GrpcRouteMatch) → List GrpcEffectiveRoutingRule
create_grpc_effective_route hostnames [] = []
create_grpc_effective_route hostnames (rr ∷ rules) =
    map (grpc_rule hostnames rr) (matches_or get_grpc_default_rules_matches rr)
    ++ create_grpc_effective_route hostnames rules

abbrev pub http_configuration : Route → Option (List String × List (RoutingRule RouteMatch))
http_configuration r = elim r.route_type [
  | RouteType.http rules ↦ some (r.hostnames, rules)
  | RouteType.grpc _ ↦ none
]

abbrev pub grpc_configuration : Route → Option (List String × List (RoutingRule GrpcRouteMatch))
grpc_configuration r = elim r.route_type [
  | RouteType.http _ ↦ none
  | RouteType.grpc rules ↦ some (r.hostnames, rules)
]

abbrev pub flat_map {ℓ κ} : {A : Type ℓ} {B : Type κ} → (A → List B) → List A → List B
flat_map f [] = []
flat_map f (x ∷ xs) = f x ++ flat_map f xs

abbrev pub all_routes : Listener → List Route
all_routes listener = listener.content.resolved_routes ++ listener.content.unresolved_routes

-- the rules in the order of the routes
unfoldable pub unsorted_http_rules : Listener → List HttpEffectiveRoutingRule
unfolding create_http_effective_route
unsorted_http_rules listener =
    flat_map (λ (hostnames, rules). create_http_effective_route listener hostnames rules)
      (filter_map http_configuration (all_routes listener))

unfoldable pub unsorted_grpc_rules : Listener → List GrpcEffectiveRoutingRule
unfolding create_grpc_effective_route
unsorted_grpc_rules listener =
    flat_map (λ (hostnames, rules). create_grpc_effective_route hostnames rules)
      (filter_map grpc_configuration (all_routes listener))

module _ (path_number : PathType → ℕ) (method_number : Method → ℕ) where
  unfoldable pub http_matching_rules : Listener → List HttpEffectiveRoutingRule
  unfolding unsorted_http_rules sort_by Http.compare_matching
  http_matching_rules listener =
      sort_by
        (λ this other.
          Http.compare_matching path_number method_number this.route_matcher other.route_matcher)
        (unsorted_http_rules listener)

unfoldable pub grpc_matching_rules : Listener → List GrpcEffectiveRoutingRule
unfolding unsorted_grpc_rules sort_by Grpc.compare_matching
grpc_matching_rules listener =
    sort_by (λ this other. Grpc.compare_matching this.route_matcher other.route_matcher)
      (unsorted_grpc_rules listener)
