-- ===== src/Storage/Spec.antt =====
-- What the state promises, with the locks and the tables forgotten: each table is a function of its
-- keys, and each command changes it at one place.
use kubvernor.Prelude.{Bool, true, false, Option, none, some, List, ◌≡◌}
use kubvernor.Prelude.Maps.{is_some}
use kubvernor.Prelude.Maps
use kubvernor.Prelude.Sets
use kubvernor.Keys.{ResourceKey, ResourceKey-discrete}
use kubvernor.Storage.Locks.{KubeTypes, State, GatewayImplementationType, RouteToInferencePool}
use kubvernor.Storage.Pools.{pools_of}
use kubvernor.Storage.Commands.{
  Command, save_gateway, save_gateway_class, save_gateway_type, save_http_route, save_grpc_route,
  save_inference_pool, maybe_save_gateway, maybe_save_http_route, maybe_save_grpc_route,
  maybe_save_inference_pool, delete_gateway, delete_gateway_class, delete_gateway_type,
  delete_http_route, delete_grpc_route, delete_inference_pool, attach_http_route, attach_grpc_route,
  detach_http_route, detach_grpc_route, attach_inference_pool, detach_inference_pool,
}

abbrev dec : Discrete ResourceKey
dec = ResourceKey-discrete

pub record View (O : KubeTypes) : Type 0 where
  pub gateway : ResourceKey → Option O.Gateway
  pub gateway_class : ResourceKey → Option O.GatewayClass
  pub gateway_type : ResourceKey → Option GatewayImplementationType
  pub http_route : ResourceKey → Option O.HttpRoute
  pub grpc_route : ResourceKey → Option O.GrpcRoute
  pub inference_pool : ResourceKey → Option O.InferencePool
  -- whether a gateway has a set of routes
  pub listed : ResourceKey → Bool
  pub attached : ResourceKey → ResourceKey → Bool
  pub pools : ResourceKey → ResourceKey → Option (List ResourceKey)

abbrev put {ℓ} : {A : Type ℓ} → ResourceKey → A → (ResourceKey → A) → ResourceKey → A
put k a f q = elim (dec q k) [ yes _ ↦ a | no _ ↦ f q ]

-- A value in place of another, and nothing in place of nothing.
abbrev instead {ℓ} : {A : Type ℓ} → Option A → A → Option A
instead none a = none
instead (some _) a = some a

abbrev or_else {ℓ} : {A : Type ℓ} → Option A → A → Option A
or_else none a = some a
or_else (some b) a = some b

abbrev put₂ {ℓ} :
    {A : Type ℓ}
    → ResourceKey
    → ResourceKey
    → A
    → (ResourceKey → ResourceKey → A)
    → ResourceKey
    → ResourceKey
    → A
put₂ j k a f q r = elim (dec q j) [
  | yes _ ↦ elim (dec r k) [ yes _ ↦ a | no _ ↦ f q r ]
  | no _ ↦ f q r
]

abbrev pub holds : ResourceKey → Option (List ResourceKey) → Bool
holds r none = false
holds r (some routes) = Sets.contains dec r routes

abbrev pub pools_in : ResourceKey → Option (List RouteToInferencePool) → Option (List ResourceKey)
pools_in r none = none
pools_in r (some routes) = pools_of r routes

module _ {O : KubeTypes} where
  abbrev pub view : State O → View O
  view s = record {
    gateway = λ k. Maps.get dec k s.gateways.value;
    gateway_class = λ k. Maps.get dec k s.gateway_classes.value;
    gateway_type = λ k. Maps.get dec k s.gateway_implementation_types.value;
    http_route = λ k. Maps.get dec k s.http_routes.value;
    grpc_route = λ k. Maps.get dec k s.grpc_routes.value;
    inference_pool = λ k. Maps.get dec k s.inference_pools.value;
    listed = λ g. is_some (Maps.get dec g s.gateways_with_routes.value);
    attached = λ g r. holds r (Maps.get dec g s.gateways_with_routes.value);
    pools = λ g r. pools_in r (Maps.get dec g s.gateways_with_routes_with_inference_pools.value);
  }

  abbrev pub spec : Command O → View O → View O
  spec (save_gateway id x) v = record v { gateway = put id (some x) v.gateway }
  spec (save_gateway_class id x) v = record v { gateway_class = put id (some x) v.gateway_class }
  spec (save_gateway_type id x) v = record v { gateway_type = put id (some x) v.gateway_type }
  spec (save_http_route id x) v = record v { http_route = put id (some x) v.http_route }
  spec (save_grpc_route id x) v = record v { grpc_route = put id (some x) v.grpc_route }
  spec (save_inference_pool id x) v = record v { inference_pool = put id (some x) v.inference_pool }
  spec (maybe_save_gateway id x) v = record v {
    gateway = put id (instead (v.gateway id) x) v.gateway;
  }
  spec (maybe_save_http_route id x) v = record v {
    http_route = put id (instead (v.http_route id) x) v.http_route;
  }
  spec (maybe_save_grpc_route id x) v = record v {
    grpc_route = put id (instead (v.grpc_route id) x) v.grpc_route;
  }
  spec (maybe_save_inference_pool id x) v = record v {
    inference_pool = put id (instead (v.inference_pool id) x) v.inference_pool;
  }
  spec (delete_gateway id) v = record v { gateway = put id none v.gateway }
  spec (delete_gateway_class id) v = record v { gateway_class = put id none v.gateway_class }
  spec (delete_gateway_type id) v = record v { gateway_type = put id none v.gateway_type }
  spec (delete_http_route id) v = record v { http_route = put id none v.http_route }
  spec (delete_grpc_route id) v = record v { grpc_route = put id none v.grpc_route }
  spec (delete_inference_pool id) v = record v { inference_pool = put id none v.inference_pool }
  spec (attach_http_route g r) v = record v {
    listed = put g true v.listed;
    attached = put₂ g r true v.attached;
  }
  spec (attach_grpc_route g r) v = record v {
    listed = put g true v.listed;
    attached = put₂ g r true v.attached;
  }
  spec (detach_http_route g r) v = record v { attached = put₂ g r false v.attached }
  spec (detach_grpc_route g r) v = record v { attached = put₂ g r false v.attached }
  spec (attach_inference_pool g r ids) v = record v {
    pools = put₂ g r (or_else (v.pools g r) ids) v.pools;
  }
  spec (detach_inference_pool g r) v = record v { pools = put₂ g r none v.pools }

-- Two views agree at the keys `q` and `r`.
pub record Agrees {O : KubeTypes} (q r : ResourceKey) (v w : View O) : Type 0 where
  pub gateways_agree : v.gateway q ≡ w.gateway q
  pub gateway_classes_agree : v.gateway_class q ≡ w.gateway_class q
  pub gateway_types_agree : v.gateway_type q ≡ w.gateway_type q
  pub http_routes_agree : v.http_route q ≡ w.http_route q
  pub grpc_routes_agree : v.grpc_route q ≡ w.grpc_route q
  pub inference_pools_agree : v.inference_pool q ≡ w.inference_pool q
  pub listed_agree : v.listed q ≡ w.listed q
  pub attached_agree : v.attached q r ≡ w.attached q r
  pub pools_agree : v.pools q r ≡ w.pools q r
