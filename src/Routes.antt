-- ===== src/Routes.antt =====
-- Routes and their backends: kubvernor-controller/src/common/route/mod.rs and the backends of
-- kubvernor-controller/src/common/mod.rs. A routing rule keeps its
-- name, its backends, its matches and the backends of its filters.
use kubvernor.Prelude.{ℕ, String, Option, List, [], ◌∷◌, ◌++◌}
use kubvernor.Keys.{ResourceKey, ParentReference}

pub record ServiceTypeConfig : Type 0 where
  pub resource_key : ResourceKey
  pub endpoint : String
  pub port : ℕ
  pub effective_port : ℕ
  pub weight : ℕ

-- `InferencePoolSpec` of the Gateway API; the endpoint picker is its `endpoint_picker_ref`.
pub record InferencePoolSpec : Type 0 where
  pub match_labels : List (String × String)
  pub target_ports : List ℕ
  pub picker_name : String
  pub picker_kind : Option String

pub record InferencePoolTypeConfig : Type 0 where
  pub resource_key : ResourceKey
  pub endpoint : String
  pub port : ℕ
  pub target_ports : List ℕ
  pub weight : ℕ
  pub inference_config : Option InferencePoolSpec
  pub endpoints : Option (List String)

pub data BackendType : Type 0 where
  service : ServiceTypeConfig → BackendType
  inference_pool : InferencePoolTypeConfig → BackendType
  invalid_type : ServiceTypeConfig → BackendType

pub data Backend : Type 0 where
  resolved unresolved not_allowed maybe invalid : BackendType → Backend

abbrev pub backend_type : Backend → BackendType
backend_type (resolved t) = t
backend_type (unresolved t) = t
backend_type (not_allowed t) = t
backend_type (maybe t) = t
backend_type (invalid t) = t

abbrev pub type_key : BackendType → ResourceKey
type_key (service c) = c.resource_key
type_key (inference_pool c) = c.resource_key
type_key (invalid_type c) = c.resource_key

pub data NotResolvedReason : Type 0 where
  unknown not_allowed_by_listeners no_matching_listener_hostname : NotResolvedReason
  invalid_backend backend_not_found ref_not_permitted no_matching_parent : NotResolvedReason

pub data ResolutionStatus : Type 0 where
  resolved : ResolutionStatus
  not_resolved : NotResolvedReason → ResolutionStatus

-- The matches of the Gateway API: `HeaderMatch`, `PathMatch`, `RouteMatch`, `GrpcRouteMatch`.
pub record HeaderMatch : Type 0 where
  pub name : String
  pub value : String

pub data PathType : Type 0 where
  exact path_prefix regular_expression : PathType

pub data Method : Type 0 where
  get head post put delete connect options trace patch : Method

pub record PathMatch : Type 0 where
  pub path_type : Option PathType
  pub value : Option String

pub record RouteMatch : Type 0 where
  pub headers : Option (List HeaderMatch)
  pub method : Option Method
  pub path : Option PathMatch
  pub query_params : Option (List HeaderMatch)

pub record GrpcMethodMatch : Type 0 where
  pub method : Option String
  pub service : Option String

pub record GrpcRouteMatch : Type 0 where
  pub headers : Option (List HeaderMatch)
  pub method : Option GrpcMethodMatch

-- `HTTPRoutingRule` and `GRPCRoutingRule`, which differ in their matches
pub record RoutingRule (M : Type 0) : Type 0 where
  pub name : String
  pub backends : List Backend
  pub matching_rules : List M
  pub filter_backends : List Backend

pub data RouteType : Type 0 where
  http : List (RoutingRule RouteMatch) → RouteType
  grpc : List (RoutingRule GrpcRouteMatch) → RouteType

-- `Route` with its `RouteConfig`
pub record Route : Type 0 where
  pub resource_key : ResourceKey
  pub parents : Option (List ParentReference)
  pub hostnames : List String
  pub resolution_status : ResolutionStatus
  pub route_type : RouteType

unfoldable pub backends_of : {M : Type 0} → List (RoutingRule M) → List Backend
backends_of [] = []
backends_of (r ∷ rs) = r.backends ++ backends_of rs

unfoldable pub filter_backends_of : {M : Type 0} → List (RoutingRule M) → List Backend
filter_backends_of [] = []
filter_backends_of (r ∷ rs) = r.filter_backends ++ filter_backends_of rs

abbrev pub type_backends : RouteType → List Backend
type_backends (http rules) = backends_of rules
type_backends (grpc rules) = backends_of rules

abbrev pub type_filter_backends : RouteType → List Backend
type_filter_backends (http rules) = filter_backends_of rules
type_filter_backends (grpc rules) = filter_backends_of rules

unfoldable pub backends : Route → List Backend
backends r = type_backends r.route_type

unfoldable pub filter_backends : Route → List Backend
filter_backends r = type_filter_backends r.route_type
