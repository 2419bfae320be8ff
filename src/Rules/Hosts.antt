-- ===== src/Rules/Hosts.antt =====
-- The Envoy listeners of a gateway: `ResourceGenerator` up to `generate_envoy_listener_mapping`
-- with `calculate_hostnames_common`, of
-- kubvernor-controller/src/backends/envoy/common/resource_generator.rs, and the pools of a rule, of
-- kubvernor-controller/src/backends/envoy/common/mod.rs. A virtual host holds the effective rules
-- from which the source makes Envoy's routes.
use Prim.Native.String
use kubvernor.Prelude.{
  ℕ, String, str_eq, Bool, true, false, not, ◌&&◌, ◌||◌, Option, none, some, List, [], ◌∷◌, ◌++◌,
  map, filter_by, filter_map, any, is_empty, if◌then◌else◌, String-discrete,
}
use kubvernor.Prelude.Maps
use kubvernor.Prelude.Maps.{Map}
use kubvernor.Prelude.Sets
use kubvernor.Keys.{ResourceKey, display}
use kubvernor.Routes.{
  Backend, BackendType, backend_type, InferencePoolTypeConfig, PathType, Method, Route,
}
use kubvernor.Listeners.Convert.{Listener, TlsType}
use kubvernor.Matching.Hostnames.{hostname_filter, default_route_hostname}
use kubvernor.Rules.Effective.{
  HttpEffectiveRoutingRule, GrpcEffectiveRoutingRule, http_matching_rules, grpc_matching_rules,
  flat_map,
}

pub record InferenceClusterInfo : Type 0 where
  pub cluster_name : String
  pub config : InferencePoolTypeConfig

pub record EnvoyVirtualHost : Type 0 where
  pub name : String
  pub effective_hostnames : List String
  pub resolved_routes : List Route
  pub unresolved_routes : List Route
  pub http_rules : List HttpEffectiveRoutingRule
  pub grpc_rules : List GrpcEffectiveRoutingRule

-- A set of virtual hosts, which are compared by their names, is a map from these.
pub record EnvoyListener : Type 0 where
  pub name : String
  pub port : ℕ
  pub http_listener_map : Map String EnvoyVirtualHost
  pub tcp_listener_map : List (String × Option String)
  pub tls_type : Option TlsType
  pub enable_ext_proc : Bool

abbrev pub inference_config_of : Backend → Option InferencePoolTypeConfig
inference_config_of b = elim (backend_type b) [ BackendType.inference_pool c ↦ some c | _ ↦ none ]

unfoldable pub get_inference_extension_configurations : List Backend → List InferencePoolTypeConfig
get_inference_extension_configurations backends = filter_map inference_config_of backends

-- `inference_cluster_name` of a rule
unfoldable pub make_inference_cluster_name : HttpEffectiveRoutingRule → ResourceKey → String
unfolding display
make_inference_cluster_name rule key =
    String.◌++◌ (String.◌++◌ rule.name "_route") (String.◌++◌ "-extsvc-" (display key))

unfoldable pub get_inference_pool_configurations :
    HttpEffectiveRoutingRule → List InferenceClusterInfo
unfolding get_inference_extension_configurations make_inference_cluster_name
get_inference_pool_configurations rule =
    map
      (λ conf. record {
        cluster_name = make_inference_cluster_name rule conf.resource_key;
        config = conf;
      })
      (get_inference_extension_configurations rule.backends)

abbrev pub is_inference_pool : Backend → Bool
is_inference_pool b = elim (backend_type b) [ BackendType.inference_pool _ ↦ true | _ ↦ false ]

unfoldable pub enable_ect_proc_filter : HttpEffectiveRoutingRule → Bool
enable_ect_proc_filter rule = any is_inference_pool rule.backends

-- the loop that collects the host names of the routes
unfoldable pub hostnames_of : List String → List Route → List String
unfolding Sets.union
hostnames_of acc [] = acc
hostnames_of acc (r ∷ rs) = hostnames_of (Sets.union String-discrete acc r.hostnames) rs

unfoldable pub calculate_hostnames_common :
    List Route → Option String → (String → List String) → List String
unfolding hostnames_of
calculate_hostnames_common routes listener_hostname create_hostnames =
    let routes_hostnames = hostnames_of [] routes in
    elim listener_hostname [
      | none ↦ if is_empty routes_hostnames then default_route_hostname ∷ [] else routes_hostnames
      | some hostname ↦
          if not (str_eq hostname "") && not (str_eq hostname default_route_hostname)
          then create_hostnames hostname
          else default_route_hostname ∷ []
    ]

unfoldable pub calculate_potential_hostnames : List Route → Option String → List String
unfolding calculate_hostnames_common
calculate_potential_hostnames routes listener_hostname =
    calculate_hostnames_common routes listener_hostname (λ h. h ∷ [])

-- the insertion into a set, which keeps an element of the same name
abbrev pub insert_host :
    EnvoyVirtualHost → Map String EnvoyVirtualHost → Map String EnvoyVirtualHost
insert_host host hosts =
    if Maps.contains_key String-discrete host.name hosts
    then hosts
    else Maps.insert String-discrete host.name host hosts

-- `append` of a set of virtual hosts, whose elements replace those of the same names
unfoldable pub append_hosts :
    Map String EnvoyVirtualHost → Map String EnvoyVirtualHost → Map String EnvoyVirtualHost
append_hosts hosts [] = hosts
append_hosts hosts ((name, host) ∷ new) =
    append_hosts (Maps.insert String-discrete name host hosts) new

module _ (path_number : PathType → ℕ) (method_number : Method → ℕ)
    (pattern : String → Option (String → Bool))
    (effective_hostname_calculator : String → List String) where
  abbrev pub Progress : Type 0
  Progress = Map String EnvoyVirtualHost × Bool × List InferenceClusterInfo

  unfoldable pub generate_virtual_hosts : Listener → List String → Progress → Progress
  unfolding http_matching_rules grpc_matching_rules hostname_filter calculate_hostnames_common
      get_inference_pool_configurations enable_ect_proc_filter
  generate_virtual_hosts listener [] progress = progress
  generate_virtual_hosts listener (potential_hostname ∷ rest) (hosts, enabled, clusters) =
      let resolved = listener.content.resolved_routes in
      let http_rules =
        filter_by (λ em. hostname_filter pattern potential_hostname em.hostnames)
          (http_matching_rules path_number method_number listener) in
      let grpc_rules =
        filter_by (λ em. hostname_filter pattern potential_hostname em.hostnames)
          (grpc_matching_rules listener) in
      let host : EnvoyVirtualHost = record {
        name = String.◌++◌ listener.content.config.name (String.◌++◌ "-" potential_hostname);
        effective_hostnames =
            calculate_hostnames_common resolved (some potential_hostname)
              effective_hostname_calculator;
        resolved_routes = resolved;
        unresolved_routes = listener.content.unresolved_routes;
        http_rules = http_rules;
        grpc_rules = grpc_rules;
      } in
      generate_virtual_hosts listener rest (
        insert_host host hosts,
        enabled || any enable_ect_proc_filter http_rules,
        clusters ++ flat_map get_inference_pool_configurations http_rules,
      )

  unfoldable pub generate_envoy_listener :
      String → Listener → List InferenceClusterInfo → EnvoyListener × List InferenceClusterInfo
  unfolding generate_virtual_hosts calculate_potential_hostnames
  generate_envoy_listener gateway_name listener clusters =
      let potential_hostnames =
        calculate_potential_hostnames listener.content.resolved_routes
          listener.content.config.hostname in
      let (listener_map, enable_ext_proc, clusters') =
        generate_virtual_hosts listener potential_hostnames ([], false, clusters) in
      (
        record {
          name = gateway_name;
          port = listener.content.config.port;
          http_listener_map = listener_map;
          tcp_listener_map = [];
          tls_type = listener.content.config.tls_type;
          enable_ext_proc = enable_ext_proc;
        },
        clusters',
      )
