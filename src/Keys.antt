-- ===== src/Keys.antt =====
-- Resource keys: kubvernor-common/src/resource_key.rs and
-- kubvernor-controller/src/common/resource_key.rs. The types of the Gateway API are records of the
-- fields that the two files read; `name_any` stands for what kube's method of that name returns.
pub mod Laws
mod Tests
use Prim.Native.String
use kubvernor.Prelude.{
  ℕ, String, String-discrete, Option, none, some, Bool, if◌then◌else◌, str_eq, unwrap_or,
}

abbrev pub default_group_name : String
default_group_name = "gateway.networking.k8s.io"

abbrev pub default_inference_group_name : String
default_inference_group_name = "inference.networking.k8s.io/v1"

abbrev pub default_namespace_name : String
default_namespace_name = "default"

abbrev pub default_kind_name : String
default_kind_name = "Gateway"

pub record ResourceKey : Type 0 where
  pub group : String
  pub namespace : String
  pub name : String
  pub kind : String

-- the derived `Eq`
unfoldable pub ResourceKey-discrete : Discrete ResourceKey
ResourceKey-discrete = hlevel String-discrete

-- `Default for ResourceKey`
abbrev pub default_key : ResourceKey
default_key = record {
  group = default_group_name;
  namespace = default_namespace_name;
  name = "";
  kind = default_kind_name;
}

unfoldable pub new_key : String → ResourceKey
new_key name = record default_key { name = name }

unfoldable pub namespaced_key : String → String → ResourceKey
namespaced_key name namespace = record default_key { name = name; namespace = namespace }

-- what `Display` prints
unfoldable pub create_id : String → String → String
create_id name namespace = String.◌++◌ (String.◌++◌ namespace ".") name

unfoldable pub display : ResourceKey → String
unfolding create_id
display k = create_id k.name k.namespace

-- the metadata of an object, as far as keys read it
pub record Meta : Type 0 where
  pub namespace : Option String
  pub name_any : String

pub record ServiceMeta : Type 0 where
  pub namespace : Option String
  pub name : Option String
  pub generate_name : Option String

pub record ParentReference : Type 0 where
  pub group : Option String
  pub kind : Option String
  pub namespace : Option String
  pub name : String
  pub section_name : Option String
  pub port : Option ℕ

-- `HTTPBackendReference`, `GRPCBackendReference` and `BackendObjectReference`
pub record BackendReference : Type 0 where
  pub namespace : Option String
  pub name : String
  pub kind : Option String

pub record GatewayParametersRef : Type 0 where
  pub group : String
  pub kind : String
  pub name : String
  pub namespace : Option String

pub record ReferenceGrantFrom : Type 0 where
  pub group : String
  pub kind : String
  pub namespace : String

pub record ReferenceGrantTo : Type 0 where
  pub group : String
  pub kind : String
  pub name : Option String

abbrev name_or_generated : Option String → Option String → String
name_or_generated none none = ""
name_or_generated (some name) _ = name
name_or_generated none (some name) = name

unfoldable pub service_key : ServiceMeta → ResourceKey
service_key s = record {
  group = default_group_name;
  namespace = unwrap_or s.namespace default_namespace_name;
  name = name_or_generated s.name s.generate_name;
  kind = default_kind_name;
}

unfoldable pub parts_key : Option String → Option String → String → Option String → ResourceKey
parts_key group namespace name kind = record {
  group = unwrap_or group default_group_name;
  namespace = unwrap_or namespace default_namespace_name;
  name = name;
  kind = unwrap_or kind default_kind_name;
}

abbrev object_key : String → String → Meta → ResourceKey
object_key group kind m = record {
  group = group;
  namespace = unwrap_or m.namespace default_namespace_name;
  name = m.name_any;
  kind = kind;
}

unfoldable pub gateway_class_key : Meta → ResourceKey
gateway_class_key m = object_key default_group_name "GatewayClass" m

unfoldable pub gateway_key : Meta → ResourceKey
gateway_key m = object_key default_group_name "Gateway" m

unfoldable pub http_route_key : Meta → ResourceKey
http_route_key m = object_key default_group_name "HTTPRoute" m

unfoldable pub grpc_route_key : Meta → ResourceKey
grpc_route_key m = object_key default_group_name "GRPCRoute" m

unfoldable pub inference_pool_key : Meta → ResourceKey
inference_pool_key m = object_key default_inference_group_name "InferencePool" m

-- the three conversions from a backend reference and the namespace of its gateway
unfoldable pub backend_key : BackendReference → String → ResourceKey
backend_key b gateway_namespace = record {
  group = default_group_name;
  namespace = unwrap_or b.namespace gateway_namespace;
  name = b.name;
  kind = unwrap_or b.kind "";
}

unfoldable pub gateway_parameters_key : GatewayParametersRef → ResourceKey
gateway_parameters_key p = record {
  group = p.group;
  namespace = unwrap_or p.namespace default_namespace_name;
  name = p.name;
  kind = p.kind;
}

-- `From<&ParentReference> for ResourceKey`
unfoldable pub parent_key : ParentReference → ResourceKey
parent_key p = record {
  group = default_group_name;
  namespace = unwrap_or p.namespace default_namespace_name;
  name = p.name;
  kind = unwrap_or p.kind "";
}

unfoldable pub grant_from_key : ReferenceGrantFrom → ResourceKey
grant_from_key f = record {
  group = if str_eq f.group "" then default_group_name else f.group;
  namespace = f.namespace;
  name = "";
  kind = f.kind;
}

unfoldable pub grant_to_key : ReferenceGrantTo → ResourceKey
grant_to_key t = record {
  group = if str_eq t.group "" then default_group_name else t.group;
  namespace = "";
  name = unwrap_or t.name "";
  kind = t.kind;
}

pub record RouteRefKey : Type 0 where
  pub resource_key : ResourceKey
  pub section_name : Option String
  pub port : Option ℕ

-- `From<(&ParentReference, String)> for RouteRefKey`
unfoldable pub route_ref_key : ParentReference → String → RouteRefKey
route_ref_key p route_namespace = record {
  resource_key = record {
    group = unwrap_or p.group default_group_name;
    namespace = unwrap_or p.namespace route_namespace;
    name = p.name;
    kind = unwrap_or p.kind default_kind_name;
  };
  section_name = p.section_name;
  port = p.port;
}
