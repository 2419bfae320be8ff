-- ===== src/Grants/Resolver.antt =====
-- `ReferenceGrantsResolver`
-- (kubvernor-controller/src/common/references_resolver/reference_grants_resolver.rs). The routes that are
-- linked to a gateway and the answers of the API server are parameters; an answer that is an error is
-- `none`. The server is asked for each tracked reference anew, so its answer depends on the
-- reference too, not only on the namespace.
use kubvernor.Prelude.{
  String, String-discrete, str_eq, Bool, ◌||◌, Option, none, some, List, [], ◌∷◌, ◌++◌, map,
  filter_by, filter_map, any, is_empty, if◌then◌else◌, unwrap_or,
}
use kubvernor.Prelude.Maps.{values}
use kubvernor.Prelude.Sets
use kubvernor.Keys.{
  ResourceKey, ResourceKey-discrete, ReferenceGrantFrom, ReferenceGrantTo, default_group_name,
}
use kubvernor.Routes.{Route, Backend, BackendType, backends}
use kubvernor.Listeners.Certificates.{Certificate, resource_key}
use kubvernor.Listeners.Convert.{Listener, TlsType}
use kubvernor.Listeners.Gateways.{Gateway}
use kubvernor.Listeners.Validation.{is_secured}

pub record FromResourceKey : Type 0 where
  pub group : String
  pub namespace : String
  pub kind : String

pub record ToResourceKey : Type 0 where
  pub group : String
  pub name : Option String
  pub kind : String

pub record ReferenceGrantRef : Type 0 where
  pub from : FromResourceKey
  pub to : ToResourceKey
  pub gateway_key : ResourceKey
  pub namespace : String

-- the derived `Eq`
unfoldable pub ReferenceGrantRef-discrete : Discrete ReferenceGrantRef
ReferenceGrantRef-discrete = hlevel (String-discrete, ResourceKey-discrete)

abbrev dec : Discrete ReferenceGrantRef
dec = ReferenceGrantRef-discrete

-- `From<ResourceKey> for FromResourceKey`
unfoldable pub from_key : ResourceKey → FromResourceKey
from_key k = record { group = k.group; namespace = k.namespace; kind = k.kind }

-- `From<&ReferenceGrantFrom> for FromResourceKey`: a group that is left out stays so.
unfoldable pub grant_from : ReferenceGrantFrom → FromResourceKey
grant_from f = record { group = f.group; namespace = f.namespace; kind = f.kind }

abbrev group_or_default : String → String
group_or_default group = if str_eq group "" then default_group_name else group

-- `From<ResourceKey> for ToResourceKey`
unfoldable pub to_key : ResourceKey → ToResourceKey
to_key k = record {
  group = group_or_default k.group;
  name = if str_eq k.name "" then none else some k.name;
  kind = k.kind;
}

-- `From<ReferenceGrantTo> for ToResourceKey`
unfoldable pub grant_to : ReferenceGrantTo → ToResourceKey
grant_to t = record { group = group_or_default t.group; name = t.name; kind = t.kind }

-- What is built of two objects and a gateway.
abbrev pub reference_of : ResourceKey → ResourceKey → ResourceKey → ReferenceGrantRef
reference_of from to gateway = record {
  from = from_key from;
  to = to_key to;
  gateway_key = gateway;
  namespace = to.namespace;
}

-- The fields of a `ReferenceGrant` that are read.
pub record Grant : Type 0 where
  pub namespace : Option String
  pub from : List ReferenceGrantFrom
  pub to : List ReferenceGrantTo

-- The two sets behind the locks of the resolver.
pub record GrantsResolver : Type 0 where
  pub references : List ReferenceGrantRef
  pub resolved_reference_grants : List ReferenceGrantRef

-- `UpdatedGateways` for the gateways
pub data GrantRequest : Type 0 where
  updated_gateways : List ResourceKey → GrantRequest

abbrev pub target_of : Backend → Option ResourceKey
target_of (Backend.maybe (BackendType.service config)) = some config.resource_key
target_of (Backend.maybe (BackendType.invalid_type config)) = some config.resource_key
target_of _ = none

abbrev pub certificates_of : Option TlsType → List Certificate
certificates_of (some (TlsType.terminate certificates)) = certificates
certificates_of _ = []

-- The references of the routes, and of the listeners, of a gateway.
unfoldable pub route_references : ResourceKey → List Route → List ReferenceGrantRef
route_references gateway [] = []
route_references gateway (route ∷ routes) =
    map (λ to. reference_of route.resource_key to gateway) (filter_map target_of (backends route))
    ++ route_references gateway routes

unfoldable pub secret_references : ResourceKey → List Listener → List ReferenceGrantRef
secret_references gateway [] = []
secret_references gateway (l ∷ ls) =
    let rest = secret_references gateway ls in
    if is_secured l.protocol
    then map (λ c. reference_of gateway (resource_key c) gateway)
        (certificates_of l.content.config.tls_type)
      ++ rest
    else rest

module _ {Uuid : Type 0} (linked_routes : ResourceKey → List Route) where
  -- Where the source collects a set, this is the list of what goes into it.
  unfoldable pub search_references : Gateway Uuid → List ReferenceGrantRef
  unfolding route_references secret_references
  search_references g =
      route_references g.resource_key (linked_routes g.resource_key)
      ++ secret_references g.resource_key (values g.listeners)

  unfoldable pub add_references_by_gateway : Gateway Uuid → GrantsResolver → GrantsResolver
  add_references_by_gateway g r = record r {
    references = Sets.union dec r.references (search_references g);
  }

  unfoldable pub delete_references_by_gateway : Gateway Uuid → GrantsResolver → GrantsResolver
  delete_references_by_gateway g r = record r {
    references = Sets.difference dec r.references (search_references g);
  }

-- What the grants of a namespace give for one reference.
abbrev pub grant_ref :
    ResourceKey → Grant → ReferenceGrantFrom → ReferenceGrantTo → ReferenceGrantRef
grant_ref gateway grant from to = record {
  from = grant_from from;
  to = grant_to to;
  gateway_key = gateway;
  namespace = unwrap_or grant.namespace "";
}

unfoldable pub from_grant : ResourceKey → Grant → List ReferenceGrantFrom → List ReferenceGrantRef
from_grant gateway grant [] = []
from_grant gateway grant (from ∷ froms) =
    map (grant_ref gateway grant from) grant.to ++ from_grant gateway grant froms

unfoldable pub from_grants : ResourceKey → List Grant → List ReferenceGrantRef
unfolding from_grant
from_grants gateway [] = []
from_grants gateway (grant ∷ grants) =
    from_grant gateway grant grant.from ++ from_grants gateway grants

abbrev pub without_name : ReferenceGrantRef → ReferenceGrantRef
without_name r = record r { to = record (r.to) { name = none } }

-- whether a grant is for the reference, or for all objects of its group and kind
abbrev pub is_valid : List ReferenceGrantRef → ReferenceGrantRef → Bool
is_valid grants r = any (λ g. Sets.same dec g r || Sets.same dec g (without_name r)) grants

module _ (list_grants : ReferenceGrantRef → String → Option (List Grant)) where
  unfoldable pub configured : List ReferenceGrantRef → List ReferenceGrantRef
  unfolding from_grants
  configured [] = []
  configured (r ∷ rs) =
      from_grants r.gateway_key (unwrap_or (list_grants r r.namespace) []) ++ configured rs

  unfoldable pub resolve_internal : GrantsResolver → GrantsResolver × List GrantRequest
  resolve_internal r =
      let allowed = filter_by (is_valid (configured r.references)) r.references in
      let removed = Sets.difference dec r.resolved_reference_grants allowed in
      let added = Sets.difference dec allowed r.resolved_reference_grants in
      let changed = added ++ removed in
      (
        record r { resolved_reference_grants = allowed },
        if is_empty changed then [] else updated_gateways (map (λ c. c.gateway_key) changed) ∷ [],
      )

unfoldable pub is_allowed : ResourceKey → ResourceKey → ResourceKey → GrantsResolver → Bool
is_allowed from to gateway r =
    Sets.contains dec (reference_of from to gateway) r.resolved_reference_grants
