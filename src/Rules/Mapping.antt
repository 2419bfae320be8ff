-- ===== src/Rules/Mapping.antt =====
-- The Envoy listeners of a gateway by their ports: `generate_envoy_listener_mapping` and
-- `generate_envoy_listeners` of
-- kubvernor-controller/src/backends/envoy/common/resource_generator.rs.
use Prim.Native.String.{compare}
use kubvernor.Prelude.{
  ℕ, String, Bool, false, Option, none, some, List, [], ◌∷◌, ℕ_discrete, String-discrete,
}
use kubvernor.Prelude.Maps
use kubvernor.Prelude.Maps.{Map}
use kubvernor.Prelude.Sets
use kubvernor.Routes.{PathType, Method}
use kubvernor.Listeners.Convert.{Listener, ProtocolType}
use kubvernor.Listeners.Gateways.{Gateway}
use kubvernor.Rules.Sort.{sort_by}
use kubvernor.Rules.Hosts.{
  EnvoyListener, InferenceClusterInfo, append_hosts, generate_envoy_listener,
}

abbrev pub TcpHost : Type 0
TcpHost = String × Option String

abbrev TcpHost-discrete : Discrete TcpHost
TcpHost-discrete = hlevel String-discrete

-- `Gateway::listeners`: the values of an ordered map come in the order of their names.
unfoldable pub ordered_listeners : {Uuid : Type 0} → Gateway Uuid → List Listener
unfolding sort_by
ordered_listeners gateway = Maps.values (sort_by (λ a b. compare a.0 b.0) gateway.listeners)

-- The three arms of the matches on the protocol of a listener.
pub data Served : Type 0 where
  http tcp other : Served

abbrev pub served : ProtocolType → Served
served ProtocolType.http = Served.http
served ProtocolType.https = Served.http
served ProtocolType.tcp = Served.tcp
served _ = Served.other

module _ (path_number : PathType → ℕ) (method_number : Method → ℕ)
    (pattern : String → Option (String → Bool))
    (effective_hostname_calculator : String → List String) where
  abbrev pub Mapping : Type 0
  Mapping = Map ℕ EnvoyListener × List InferenceClusterInfo

  abbrev generate :
      String → Listener → List InferenceClusterInfo → EnvoyListener × List InferenceClusterInfo
  generate = generate_envoy_listener path_number method_number pattern effective_hostname_calculator

  -- A listener whose port has an Envoy listener already.
  unfoldable pub extend_listener : String → Listener → EnvoyListener → Mapping → Mapping
  unfolding generate_envoy_listener append_hosts Sets.insert Maps.insert
  extend_listener gateway_name listener envoy_listener (acc, clusters) =
      let config = listener.content.config in
      elim (served listener.protocol) [
        | Served.http ↦
            let (new_listener, clusters') = generate gateway_name listener clusters in
            (
              Maps.insert ℕ_discrete config.port
                  (record envoy_listener {
                    http_listener_map =
                        append_hosts envoy_listener.http_listener_map
                          new_listener.http_listener_map;
                  })
                  acc,
              clusters',
            )
        | Served.tcp ↦ (
          Maps.insert ℕ_discrete config.port
              (record envoy_listener {
                tcp_listener_map =
                    Sets.insert TcpHost-discrete (config.name, config.hostname)
                      envoy_listener.tcp_listener_map;
              })
              acc,
          clusters,
        )
        | Served.other ↦ (acc, clusters)
      ]

  -- A listener whose port has no Envoy listener yet.
  unfoldable pub add_listener : String → Listener → Mapping → Mapping
  unfolding generate_envoy_listener Maps.insert
  add_listener gateway_name listener (acc, clusters) =
      let config = listener.content.config in
      elim (served listener.protocol) [
        | Served.http ↦
            let (envoy_listener, clusters') = generate gateway_name listener clusters in
            (Maps.insert ℕ_discrete config.port envoy_listener acc, clusters')
        | Served.tcp ↦ (
          Maps.insert ℕ_discrete config.port
              (record {
                name = gateway_name;
                port = config.port;
                http_listener_map = [];
                tcp_listener_map = (config.name, config.hostname) ∷ [];
                tls_type = none;
                enable_ext_proc = false;
              })
              acc,
          clusters,
        )
        | Served.other ↦ (acc, clusters)
      ]

  -- the fold over the listeners
  unfoldable pub generate_mapping : String → List Listener → Mapping → Mapping
  unfolding add_listener extend_listener Maps.get
  generate_mapping gateway_name [] m = m
  generate_mapping gateway_name (l ∷ ls) m =
      generate_mapping gateway_name ls (elim (Maps.get ℕ_discrete l.content.config.port m.0) [
        | some envoy_listener ↦ extend_listener gateway_name l envoy_listener m
        | none ↦ add_listener gateway_name l m
      ])

  unfoldable pub generate_envoy_listener_mapping :
      {Uuid : Type 0} → Gateway Uuid → List InferenceClusterInfo → Mapping
  unfolding generate_mapping ordered_listeners
  generate_envoy_listener_mapping gateway clusters =
      generate_mapping gateway.resource_key.name (ordered_listeners gateway) ([], clusters)
