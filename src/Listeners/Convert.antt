-- ===== src/Listeners/Convert.antt =====
-- `Listener`, its conversion from the Gateway API and its routes
-- (kubvernor-controller/src/common/listener.rs). The Gateway API's types are records of the fields that
-- the controller reads.
use kubvernor.Prelude.{
  ℕ, ◌+◌, String, str_eq, Bool, true, false, not, ◌||◌, Option, none, some, List, [], ◌∷◌, map,
  filter_by, any, is_empty, length, if◌then◌else◌, unwrap_or,
}
use kubvernor.Prelude.Maps.{Map}
use kubvernor.Keys.{parts_key}
use kubvernor.Routes.{Route, ResolutionStatus, not_resolved, ref_not_permitted}
use kubvernor.Listeners.Certificates.{Certificate}
use kubvernor.Listeners.Conditions.{
  ListenerCondition, ListenerConditions, ResolvedRefs, resolved_refs, unresolved_route_refs,
  replace, approved_routes,
}

pub record RouteGroupKind : Type 0 where
  pub kind : String

pub data NamespacesFrom : Type 0 where
  all selector same : NamespacesFrom

pub record NamespaceSelector : Type 0 where
  pub match_labels : Option (Map String String)

pub record RouteNamespaces : Type 0 where
  pub from : Option NamespacesFrom
  pub selector : Option NamespaceSelector

pub record AllowedRoutes : Type 0 where
  pub kinds : Option (List RouteGroupKind)
  pub namespaces : Option RouteNamespaces

pub data TlsMode : Type 0 where
  passthrough terminate : TlsMode

pub record CertificateRef : Type 0 where
  pub group : Option String
  pub namespace : Option String
  pub name : String
  pub kind : Option String

pub record ListenerTls : Type 0 where
  pub mode : Option TlsMode
  pub certificate_refs : Option (List CertificateRef)

-- `Listeners` of the Gateway API: one listener of a gateway's specification
pub record GatewayListener : Type 0 where
  pub name : String
  pub port : ℕ
  pub hostname : Option String
  pub protocol : String
  pub allowed_routes : Option AllowedRoutes
  pub tls : Option ListenerTls

pub data ProtocolType : Type 0 where
  http https tls tcp udp : ProtocolType

pub data TlsType : Type 0 where
  terminate : List Certificate → TlsType
  passthrough : TlsType

pub record ListenerConfig : Type 0 where
  pub name : String
  pub port : ℕ
  pub hostname : Option String
  pub tls_type : Option TlsType

-- A set of routes is the list of its elements in their order, which is that of their keys.
pub record ListenerData : Type 0 where
  pub config : ListenerConfig
  pub conditions : ListenerConditions
  pub resolved_routes : List Route
  pub unresolved_routes : List Route
  pub attached_routes : ℕ

-- `Listener::Http(data)` is `record { protocol = http; data = data }`, and so for the others.
pub record Listener : Type 0 where
  pub protocol : ProtocolType
  pub content : ListenerData

pub data ListenerError : Type 0 where
  unknown_protocol : String → ListenerError
  unknown_tls_mode : ListenerError

pub data Converted {ℓ} (A : Type ℓ) : Type ℓ where
  ok : A → Converted A
  err : ListenerError → Converted A

infixl 5 ◌>>=◌
abbrev pub ◌>>=◌ {ℓ κ} : {A : Type ℓ} {B : Type κ} → Converted A → (A → Converted B) → Converted B
ok a >>= f = f a
err e >>= f = err e

abbrev pub is_approved : String → Bool
is_approved kind = any (str_eq kind) approved_routes

abbrev pub is_http : String → Bool
is_http protocol = str_eq protocol "HTTP" || str_eq protocol "HTTPS"

-- What `validate_allowed_routes` says where no kinds are listed.
abbrev default_routes : String → ResolvedRefs
default_routes protocol =
    if is_http protocol
    then ResolvedRefs.resolved ("HTTPRoute" ∷ "GRPCRoute" ∷ [])
    else ResolvedRefs.resolved []

-- The `match` on whether there are supported and invalid kinds.
abbrev pub kinds_refs : Bool → Bool → List String → ResolvedRefs
kinds_refs _ true supported = ResolvedRefs.resolved supported
kinds_refs true false supported = ResolvedRefs.invalid_allowed_routes
kinds_refs false false supported = ResolvedRefs.resolved_with_not_allowed_routes supported

abbrev pub listed_refs : List String → ResolvedRefs
listed_refs kinds =
    let supported = filter_by is_approved kinds in
    let unsupported = filter_by (λ k. not (is_approved k)) kinds in
    kinds_refs (is_empty supported) (is_empty unsupported) supported

abbrev allowed_refs : String → Option AllowedRoutes → ResolvedRefs
allowed_refs protocol none = default_routes protocol
allowed_refs protocol (some ar) = elim ar.kinds [
  | none ↦ default_routes protocol
  | some kinds ↦ listed_refs (map (λ k. k.kind) kinds)
]

unfoldable pub validate_allowed_routes : GatewayListener → ListenerCondition
validate_allowed_routes l = resolved_refs (allowed_refs l.protocol l.allowed_routes)

abbrev pub certificate : CertificateRef → Certificate
certificate r = Certificate.not_resolved (parts_key r.group r.namespace r.name r.kind)

abbrev tls_mode : Option TlsMode → List CertificateRef → Converted TlsType
tls_mode none refs = err unknown_tls_mode
tls_mode (some TlsMode.passthrough) refs = ok TlsType.passthrough
tls_mode (some TlsMode.terminate) refs = ok (TlsType.terminate (map certificate refs))

-- `maybe_tls_config`
unfoldable pub tls_config : Option ListenerTls → Converted (Option TlsType)
tls_config none = ok none
tls_config (some t) = do mode ← tls_mode t.mode (unwrap_or t.certificate_refs []); ok (some mode)

unfoldable pub protocol_of : String → Option ProtocolType
protocol_of s =
    if str_eq s "HTTP"
    then some http
    else if str_eq s "HTTPS"
    then some https
    else if str_eq s "TCP"
    then some tcp
    else if str_eq s "TLS"
    then some tls
    else if str_eq s "UDP"
    then some udp
    else none

abbrev with_protocol : String → Option ProtocolType → ListenerData → Converted Listener
with_protocol s none content = err (unknown_protocol s)
with_protocol s (some p) content = ok (record { protocol = p; content = content })

abbrev pub content_of : GatewayListener → Option TlsType → ListenerData
content_of l tls_type = record {
  config = record { name = l.name; port = l.port; hostname = l.hostname; tls_type = tls_type };
  conditions = replace (validate_allowed_routes l) [];
  resolved_routes = [];
  unresolved_routes = [];
  attached_routes = 0;
}

-- `TryFrom<&Listeners> for Listener`
unfoldable pub listener_of : GatewayListener → Converted Listener
listener_of l = do
  tls_type ← tls_config l.tls
  with_protocol l.protocol (protocol_of l.protocol) (content_of l tls_type)

-- Whether a route was refused for a reference that no grant permits.
abbrev pub is_ref_not_permitted : ResolutionStatus → Bool
is_ref_not_permitted (not_resolved ref_not_permitted) = true
is_ref_not_permitted _ = false

-- The conditions after `update_routes`: the `else` is that of `if let Some(route) = ….first()`.
abbrev route_conditions : List Route → ListenerConditions → ListenerConditions
route_conditions unresolved conditions =
    if not (is_empty unresolved)
    then elim unresolved [
      | route ∷ _ ↦
          if is_ref_not_permitted route.resolution_status
          then replace (resolved_refs (ResolvedRefs.invalid_backend approved_routes)) conditions
          else conditions
      | [] ↦ replace unresolved_route_refs conditions
    ]
    else conditions

unfoldable pub update_routes : List Route → List Route → Listener → Listener
update_routes resolved_routes unresolved_routes l = record l {
  content = record (l.content) {
    conditions = route_conditions unresolved_routes l.content.conditions;
    attached_routes = length unresolved_routes + length resolved_routes;
    resolved_routes = resolved_routes;
    unresolved_routes = unresolved_routes;
  };
}
