-- ===== src/Resolution/Backends.antt =====
-- `RouteResolver` (kubvernor-controller/src/controllers/utils/routes_resolver.rs): the backends of a
-- route. The services and inference pools that the resolver of references knows, and the answers of the
-- API server and of the patcher, are parameters; an error of the state is the panic of `expect`.
use kubvernor.Prelude.{
  ℕ, String, str_eq, nat_eq, Bool, true, false, not, ◌||◌, Option, none, some, List, [], ◌∷◌,
  filter_map, if◌then◌else◌, unwrap_or,
}
use kubvernor.Keys.{ResourceKey, inference_pool_key}
use kubvernor.Routes.{
  Backend, BackendType, ServiceTypeConfig, InferencePoolTypeConfig, InferencePoolSpec,
  NotResolvedReason, ResolutionStatus, not_resolved,
}
use kubvernor.Storage.Locks.{KubeTypes, State, Result, ok, ◌>>=◌}
use kubvernor.Storage.Objects.{get_inference_pool, save_inference_pool}
use kubvernor.Storage.Pools.{find_gateways_by_inference_pool}
use kubvernor.Grants.Resolver.{GrantsResolver, is_allowed}
use kubvernor.Statuses.Kube.{InferencePool, key_meta, with_objects}
use kubvernor.Resolution.Pools.{update_inference_pool_parents}

pub data IntOrString : Type 0 where
  int_port : ℕ → IntOrString
  port_name : String → IntOrString

pub record ServicePort : Type 0 where
  pub port : ℕ
  pub target_port : Option IntOrString

pub record ServiceSpec : Type 0 where
  pub cluster_ip : Option String
  pub ports : Option (List ServicePort)

-- `Service` and `Pod` of Kubernetes
pub record Service : Type 0 where
  pub spec : Option ServiceSpec

pub record Pod : Type 0 where
  pub status : Option (Option String)

-- `PermittedBackends::is_permitted`
unfoldable pub is_permitted : String → String → String → Bool
is_permitted gateway_namespace route_namespace backend_namespace =
    not (str_eq gateway_namespace route_namespace) || str_eq backend_namespace gateway_namespace

abbrev target : ℕ → Option IntOrString → ℕ
target port none = port
target port (some (int_port port_value)) = port_value
target port (some (port_name _)) = port

-- The loop over the ports of a service.
unfoldable pub remap : ℕ → List ServicePort → ℕ
remap port [] = port
remap port (p ∷ ps) =
    let rest = remap port ps in if nat_eq p.port port then target port p.target_port else rest

-- whether the cluster IP is set and is not "None"
abbrev pub has_cluster_ip : Option String → Bool
has_cluster_ip none = false
has_cluster_ip (some cluster_ip) = not (str_eq cluster_ip "None")

unfoldable pub backend_remap_port : ℕ → Service → ℕ
backend_remap_port port service = elim service.spec [
  | none ↦ port
  | some spec ↦
      if has_cluster_ip spec.cluster_ip then port else remap port (unwrap_or spec.ports [])
]

-- What the resolver asks of others.
pub record Lookups : Type 0 where
  pub get_service_reference : ResourceKey → Option Service
  pub get_inference_pool_reference : ResourceKey → Option InferencePool
  -- whether the API server answers with the service of a namespace and a name
  pub get_service : String → String → Bool
  -- the pods of a namespace with some labels, unless the API server answers with an error
  pub list_pods : String → List (String × String) → Option (List Pod)
  -- whether the patcher answers that the pool is patched
  pub patch_pool : ResourceKey → InferencePool → Bool

abbrev pub ignored : Backend → Backend × ResolutionStatus
ignored backend = (backend, not_resolved NotResolvedReason.invalid_backend)

module _ (l : Lookups) (grants : GrantsResolver) (gateway_key : ResourceKey) where
  -- The arm for a service that is not resolved yet.
  unfoldable pub resolve_service : ResourceKey → ServiceTypeConfig → Backend × ResolutionStatus
  resolve_service route_key c =
      if is_allowed route_key c.resource_key gateway_key grants
        || is_permitted gateway_key.namespace route_key.namespace c.resource_key.namespace
      then elim (l.get_service_reference c.resource_key) [
        | none ↦ (
          Backend.unresolved (BackendType.service c),
          not_resolved NotResolvedReason.backend_not_found,
        )
        | some service ↦ (
          Backend.resolved (
              BackendType.service
                (record c { effective_port = backend_remap_port c.port service })),
          ResolutionStatus.resolved,
        )
      ]
      else (
        Backend.not_allowed (BackendType.service c),
        not_resolved NotResolvedReason.ref_not_permitted,
      )

  unfoldable pub process_service_backend : ResourceKey → Backend → Backend × ResolutionStatus
  process_service_backend route_key (Backend.maybe (BackendType.service c)) =
      resolve_service route_key c
  process_service_backend route_key (Backend.maybe (BackendType.invalid_type c)) =
      resolve_service route_key c
  process_service_backend route_key (Backend.maybe (BackendType.inference_pool c)) =
      ignored (Backend.maybe (BackendType.inference_pool c))
  process_service_backend route_key (Backend.unresolved t) = ignored (Backend.unresolved t)
  process_service_backend route_key (Backend.not_allowed t) = ignored (Backend.not_allowed t)
  process_service_backend route_key (Backend.invalid t) = ignored (Backend.invalid t)
  process_service_backend route_key (Backend.resolved t) =
      (Backend.resolved t, ResolutionStatus.resolved)

  unfoldable pub get_model_endpoints : String → InferencePoolSpec → List String
  get_model_endpoints namespace spec = elim (l.list_pods namespace spec.match_labels) [
    | none ↦ []
    | some pods ↦ filter_map (λ (ip : Option String). ip) (filter_map (λ (p : Pod). p.status) pods)
  ]

  unfoldable pub get_inference_extension : String → InferencePoolSpec → Bool
  get_inference_extension namespace spec = l.get_service namespace spec.picker_name

  -- whether the endpoint picker is a service that exists
  unfoldable pub resolved_endpoint_picker : String → InferencePoolSpec → Bool
  resolved_endpoint_picker namespace spec = elim spec.picker_kind [
    | none ↦ get_inference_extension namespace spec
    | some kind ↦ if str_eq kind "Service" then get_inference_extension namespace spec else false
  ]

  unfoldable pub with_pool :
      String → InferencePoolSpec → InferencePoolTypeConfig → InferencePoolTypeConfig
  with_pool namespace spec c = record c {
    inference_config = some spec;
    target_ports = spec.target_ports;
    endpoints = some (get_model_endpoints namespace spec);
  }

  module _ (O : KubeTypes) (controller_name : String) where
    abbrev pub Answer : Type 0
    Answer = (Backend × ResolutionStatus) × State (with_objects O)

    abbrev pub no_pool : InferencePoolTypeConfig → State (with_objects O) → Answer
    no_pool c s = (
      (
        Backend.unresolved (BackendType.inference_pool c),
        not_resolved NotResolvedReason.backend_not_found,
      ),
      s,
    )

    abbrev pub pool_answer : Bool → InferencePoolTypeConfig → State (with_objects O) → Answer
    pool_answer true c s =
        ((Backend.resolved (BackendType.inference_pool c), ResolutionStatus.resolved), s)
    pool_answer false c s = no_pool c s

    -- The pool with its new status is saved and patched, if it has a name.
    abbrev pub save_pool :
        ResourceKey
        → InferencePool
        → InferencePool
        → InferencePoolTypeConfig
        → State (with_objects O)
        → Result Answer
    save_pool key p updated c s = elim p.metadata.name [
      | none ↦ ok (no_pool c s)
      | some _ ↦ do
        (_, s') ← save_inference_pool (with_objects O) key updated s
        ok (pool_answer (l.patch_pool key updated) c s')
    ]

    -- The pool with its new status, without the managers of its fields.
    abbrev pub clean_pool : List ResourceKey → InferencePool → Bool → InferencePool
    clean_pool gateways p picker =
        let updated = update_inference_pool_parents controller_name gateways p picker in
        record updated { metadata = record (updated.metadata) { managed_fields = none } }

    -- The arm for an inference pool that is permitted and known.
    unfoldable pub found_pool :
        ResourceKey
        → InferencePoolTypeConfig
        → InferencePool
        → State (with_objects O)
        → Result Answer
    found_pool route_key c known s = do
      let key = inference_pool_key (key_meta known.metadata)
      stored ← get_inference_pool (with_objects O) key s
      let p = unwrap_or stored known
      gateways ← find_gateways_by_inference_pool (with_objects O) key s
      let picker = resolved_endpoint_picker route_key.namespace p.spec
      save_pool key p (clean_pool gateways p picker) (with_pool route_key.namespace p.spec c) s

    unfoldable pub resolve_pool :
        ResourceKey → InferencePoolTypeConfig → State (with_objects O) → Result Answer
    resolve_pool route_key c s =
        if is_permitted gateway_key.namespace route_key.namespace c.resource_key.namespace
        then elim (l.get_inference_pool_reference c.resource_key) [
          | none ↦ ok (no_pool c s)
          | some known ↦ found_pool route_key c known s
        ]
        else ok (
          (
            Backend.not_allowed (BackendType.inference_pool c),
            not_resolved NotResolvedReason.ref_not_permitted,
          ),
          s,
        )

    unfoldable pub process_inference_pool_backend :
        ResourceKey → Backend → State (with_objects O) → Result Answer
    process_inference_pool_backend route_key (Backend.maybe (BackendType.inference_pool c)) s =
        resolve_pool route_key c s
    process_inference_pool_backend route_key (Backend.maybe (BackendType.service c)) s =
        ok (ignored (Backend.maybe (BackendType.service c)), s)
    process_inference_pool_backend route_key (Backend.maybe (BackendType.invalid_type c)) s =
        ok (ignored (Backend.maybe (BackendType.invalid_type c)), s)
    process_inference_pool_backend route_key (Backend.unresolved t) s =
        ok (ignored (Backend.unresolved t), s)
    process_inference_pool_backend route_key (Backend.not_allowed t) s =
        ok (ignored (Backend.not_allowed t), s)
    process_inference_pool_backend route_key (Backend.invalid t) s =
        ok (ignored (Backend.invalid t), s)
    process_inference_pool_backend route_key (Backend.resolved t) s =
        ok ((Backend.resolved t, ResolutionStatus.resolved), s)
