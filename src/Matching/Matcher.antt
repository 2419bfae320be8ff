-- ===== src/Matching/Matcher.antt =====
-- `RouteListenerMatcher` (kubvernor-controller/src/controllers/utils/route_listener_matcher.rs).
use kubvernor.Prelude.{
  ℕ, String, String-discrete, str_eq, nat_eq, Bool, true, false, not, ◌&&◌, Option, none, some,
  List, [], ◌∷◌, ◌++◌, filter_by, any, is_empty, if◌then◌else◌,
}
use kubvernor.Prelude.Maps.{Map}
use kubvernor.Prelude.Maps
use kubvernor.Keys.{
  ResourceKey, ResourceKey-discrete, Meta, ParentReference, route_ref_key, gateway_key,
}
use kubvernor.Routes.{
  Route, ResolutionStatus, not_resolved, not_allowed_by_listeners, no_matching_listener_hostname,
  no_matching_parent,
}
use kubvernor.Storage.Locks.{KubeTypes, State, Result, ok, ◌>>=◌}
use kubvernor.Storage.Objects.{get_gateway}
use kubvernor.Listeners.Convert.{
  GatewayListener, AllowedRoutes, RouteGroupKind, NamespacesFrom, NamespaceSelector,
}
use kubvernor.Listeners.Gateways.{KubeGateway}
use kubvernor.Matching.Hostnames.{hostname_filter}

abbrev pub Labels : Type 0
Labels = Map String String

pub record RouteToListenersMapping : Type 0 where
  pub route : Route
  pub listeners : List GatewayListener

-- the kinds that a listener allows, if it lists any
abbrev pub kinds_allow : Option (List RouteGroupKind) → Bool
kinds_allow none = true
kinds_allow (some kinds) =
    if is_empty kinds then true else any (λ k. str_eq k.kind "HTTPRoute") kinds

abbrev pub label_is : Labels → String × String → Bool
label_is labels (key, value) = elim (Maps.get String-discrete key labels) [
  | none ↦ false
  | some found ↦ str_eq found value
]

-- whether a label of the selector is one of the namespace
abbrev pub selected : Option Labels → Option NamespaceSelector → Bool
selected labels none = false
selected labels (some selector) = elim selector.match_labels [
  | none ↦ false
  | some wanted ↦ elim labels [ none ↦ false | some found ↦ any (label_is found) wanted ]
]

abbrev pub from_allows : Bool → Bool → Bool → NamespacesFrom → Bool
from_allows is_allowed same_namespace is_selected NamespacesFrom.all = is_allowed
from_allows is_allowed same_namespace is_selected NamespacesFrom.selector = is_selected
from_allows is_allowed same_namespace is_selected NamespacesFrom.same = is_allowed && same_namespace

abbrev pub allows : Map String Labels → ResourceKey → ResourceKey → AllowedRoutes → Bool
allows resolved_namespaces gateway route ar =
    let is_allowed = kinds_allow ar.kinds in
    elim ar.namespaces [
      | none ↦ is_allowed
      | some namespaces ↦ elim namespaces.from [
        | none ↦ is_allowed
        | some from ↦
            let labels = Maps.get String-discrete route.namespace resolved_namespaces in
            from_allows is_allowed (str_eq route.namespace gateway.namespace)
              (selected labels namespaces.selector) from
      ]
    ]

-- The test of `filter_listeners_by_namespace`.
unfoldable pub allowed_by_namespace :
    Map String Labels → ResourceKey → ResourceKey → GatewayListener → Bool
allowed_by_namespace resolved_namespaces gateway route l = elim l.allowed_routes [
  | none ↦ true
  | some ar ↦ allows resolved_namespaces gateway route ar
]

-- What a route has found so far: its listeners and its status, if one was set.
abbrev pub Found : Type 0
Found = List GatewayListener × Option ResolutionStatus

abbrev pub missing : List GatewayListener → Option ResolutionStatus → Option ResolutionStatus
missing matched status = if is_empty matched then some (not_resolved no_matching_parent) else status

-- The `match` on the port and the section of a parent, over `filter_listeners_by_name_or_port`.
abbrev pub by_name_or_port : Option ℕ → Option String → List GatewayListener → Found → Found
by_name_or_port (some port) (some section) ls (found, status) =
    let matched = filter_by (λ l. nat_eq l.port port && str_eq l.name section) ls in
    (found ++ matched, missing matched status)
by_name_or_port (some port) none ls (found, status) =
    (found ++ filter_by (λ l. nat_eq l.port port) ls, status)
by_name_or_port none (some section) ls (found, status) =
    let matched = filter_by (λ l. str_eq l.name section) ls in
    (found ++ matched, missing matched status)
by_name_or_port none none ls (found, status) = (found ++ filter_by (λ l. true) ls, status)

module _ (pattern : String → Option (String → Bool)) where
  -- The test of `filter_listeners_by_hostnames`.
  unfoldable pub allowed_by_hostname : List String → GatewayListener → Bool
  allowed_by_hostname hostnames l = elim l.hostname [
    | none ↦ true
    | some hostname ↦
        if str_eq hostname "" then true else hostname_filter pattern hostname hostnames
  ]

  module _ (gateway : KubeGateway) (resolved_namespaces : Map String Labels) where
    -- whether the parent names the gateway: only the name and the namespace are compared
    unfoldable pub names_gateway : Route → ParentReference → Bool
    names_gateway route parent =
        let key = (route_ref_key parent route.resource_key.namespace).resource_key in
        str_eq key.name (gateway_key gateway.meta).name
        && str_eq key.namespace (gateway_key gateway.meta).namespace

    unfoldable pub by_namespace : Route → List GatewayListener
    by_namespace route =
        filter_by
          (allowed_by_namespace resolved_namespaces (gateway_key gateway.meta) route.resource_key)
          gateway.listeners

    unfoldable pub by_hostname : Route → List GatewayListener
    by_hostname route = filter_by (allowed_by_hostname route.hostnames) (by_namespace route)

    -- One turn of the loop over the parents of a route.
    abbrev pub match_parent : Route → ParentReference → Found → Found
    match_parent route parent (found, status) =
        if not (names_gateway route parent)
        then (found, status)
        else if is_empty (by_namespace route)
        then (found, some (not_resolved not_allowed_by_listeners))
        else if is_empty (by_hostname route)
        then (found, some (not_resolved no_matching_listener_hostname))
        else by_name_or_port parent.port parent.section_name (by_hostname route) (found, status)

    unfoldable pub match_parents : Route → List ParentReference → Found → Found
    match_parents route [] found = found
    match_parents route (parent ∷ parents) found =
        match_parents route parents (match_parent route parent found)

    unfoldable pub filter_matching_route : Option (List ParentReference) → Route → Found
    filter_matching_route none route = ([], none)
    filter_matching_route (some parents) route = match_parents route parents ([], none)

    -- The route with the status that the loop set, if it set one.
    abbrev pub with_status : Option ResolutionStatus → Route → Route
    with_status none route = route
    with_status (some status) route = record route { resolution_status = status }

    unfoldable pub filter_matching_routes : List Route → List RouteToListenersMapping × List Route
    filter_matching_routes [] = ([], [])
    filter_matching_routes (route ∷ routes) =
        let (matched, rest) = filter_matching_routes routes in
        let (listeners, status) = filter_matching_route route.parents route in
        let updated = with_status status route in
        if is_empty listeners
        then (matched, updated ∷ rest)
        else (record { route = updated; listeners = listeners } ∷ matched, rest)

-- `filter_matching_gateways`; the metadata of a gateway object is a parameter, and an error is the
-- panic of `expect`.
module _ (O : KubeTypes) (meta_of : O.Gateway → Meta) where
  unfoldable pub filter_matching_gateways :
      State O → List (ParentReference × Option O.Gateway) → Result (List O.Gateway)
  filter_matching_gateways s [] = ok []
  filter_matching_gateways s ((parent, none) ∷ ps) = filter_matching_gateways s ps
  filter_matching_gateways s ((parent, some gateway) ∷ ps) =
      let key = gateway_key (meta_of gateway) in
      let rest = filter_matching_gateways s ps in
      elim (ResourceKey-discrete (route_ref_key parent key.namespace).resource_key key) [
        | no _ ↦ rest
        | yes _ ↦ do
          found ← get_gateway O key s
          gateways ← rest
          ok (elim found [ none ↦ gateways | some g ↦ g ∷ gateways ])
      ]
