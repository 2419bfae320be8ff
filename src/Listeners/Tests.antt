-- ===== src/Listeners/Tests.antt =====
-- Listeners and a gateway, converted from specifications.
use kubvernor.Prelude.{
  not, Bool, false, Option, ◌+◌, String, true, ◌&&◌, ◌||◌, none, some, List, [], ◌∷◌, filter_by,
  any, is_empty, length, if◌then◌else◌, unwrap_or, nat_eq, ◌≡◌, ◌↔◌, refl, arith, All,
}
use kubvernor.Keys.{ResourceKey, namespaced_key}
use kubvernor.Listeners.Certificates.{Certificate, Bytes, resource_key}
use kubvernor.Listeners.Validation.{Secret, validate_certificate}
use kubvernor.Listeners.Verdicts.{IsUsable, validate_certificate_iff}
use kubvernor.Routes.{Route}
use kubvernor.Storage.Locks.{envoy}
use kubvernor.Listeners.Conditions.{
  ListenerCondition, ListenerConditions, ResolvedRefs, resolved_refs, accepted, get, discriminant,
  approved_routes, supported_routes, resolved_type,
}
use kubvernor.Listeners.Convert.{
  GatewayListener, AllowedRoutes, ProtocolType, Listener, Converted, validate_allowed_routes,
  tls_config, protocol_of, listener_of, content_of, is_approved, update_routes,
}
use kubvernor.Listeners.Gateways.{Gateway, KubeGateway, ok, gateway_of}
use kubvernor.Listeners.Laws.{
  Ascending, protocol_name, LacksMode, listener_of-eq-ok_iff, refused, update_routes_lem,
}
use kubvernor.Listeners.Kinds.{validate_allowed_routes_lem}
use kubvernor.Listeners.Names.{Converts, IsConversion, gateway_of_lem}

abbrev only_unknown : AllowedRoutes
only_unknown = record { kinds = some (record { kind = "UDPRoute" } ∷ []); namespaces = none }

abbrev plain : GatewayListener
plain = record {
  name = "plain";
  port = 80;
  hostname = some "*.example.com";
  protocol = "HTTP";
  allowed_routes = some only_unknown;
  tls = none;
}

abbrev plain_listener : Listener
plain_listener = record { protocol = ProtocolType.http; content = content_of plain none }

abbrev two_conditions : ListenerConditions
two_conditions = resolved_refs (ResolvedRefs.resolved []) ∷ accepted ∷ []

two_conditions-Ascending : Ascending two_conditions
unfolding discriminant
two_conditions-Ascending = ((omega arith, tt), (tt, tt))

plain_converts : listener_of plain ≡ Converted.ok plain_listener
unfolding listener_of tls_config protocol_of
plain_converts = refl

listener_of-eq-ok_example :
    ((x : Listener) × (listener_of plain ≡ Converted.ok x))
    ↔ ((¬ LacksMode plain) × ((p : ProtocolType) × (protocol_name p ≡ plain.protocol)))
listener_of-eq-ok_example = listener_of-eq-ok_iff plain

-- A listener that lists unknown kinds only says that it supports all approved kinds.
validate_allowed_routes_example :
    let kinds : List String = "UDPRoute" ∷ [] in
    (((resolved_type (validate_allowed_routes plain)).0 ≡ "True")
      ↔ All (λ k. is_approved k ≡ true) kinds)
    × (supported_routes (validate_allowed_routes plain) ≡ (
        if is_empty kinds || any is_approved kinds
        then filter_by is_approved kinds
        else approved_routes))
validate_allowed_routes_example =
    validate_allowed_routes_lem plain only_unknown (record { kind = "UDPRoute" } ∷ []) refl refl

abbrev no_routes : List Route
no_routes = []

update_routes_example :
    let content = (update_routes [] [] plain_listener).content in
    ((update_routes [] [] plain_listener).protocol ≡ plain_listener.protocol)
    × (content.config ≡ plain_listener.content.config)
    × (content.resolved_routes ≡ [])
    × (content.unresolved_routes ≡ [])
    × (content.attached_routes ≡ length no_routes + length no_routes)
    × ((q : ListenerCondition)
        → get q content.conditions ≡ (
            if refused [] && nat_eq (discriminant q) 0
            then some (resolved_refs (ResolvedRefs.invalid_backend approved_routes))
            else get q plain_listener.content.conditions))
update_routes_example = update_routes_lem [] [] plain_listener

abbrev front : KubeGateway
front = record {
  meta = record { namespace = some "shop"; name_any = "front" };
  uid = some "id";
  listeners = plain ∷ [];
}

gateway_of_example :
    (((x : Gateway String) × (gateway_of some front envoy ≡ ok x)) ↔ (
      ((id : String) × (some (unwrap_or front.uid "") ≡ some id)) × All Converts front.listeners))
    × ((x : Gateway String) → gateway_of some front envoy ≡ ok x → IsConversion some front envoy x)
gateway_of_example = gateway_of_lem some front envoy

abbrev stored : ResourceKey → Option Secret
stored k = some (record {
  secret_type = some "kubernetes.io/tls";
  content = some (("tls.key", 1 ∷ []) ∷ ("tls.crt", 2 ∷ []) ∷ []);
})

abbrev no_grant : ResourceKey → ResourceKey → ResourceKey → Bool
no_grant _ _ _ = false

abbrev is_pem : Bytes → Bool
is_pem bytes = not (is_empty bytes)

abbrev front_key : ResourceKey
front_key = namespaced_key "front" "shop"

abbrev shop_certificate : Certificate
shop_certificate = Certificate.not_resolved (namespaced_key "secret" "shop")

validate_certificate_example :
    let (c', condition) =
      validate_certificate stored no_grant is_pem is_pem front_key approved_routes
        shop_certificate in
    ((condition ≡ none) ↔ IsUsable stored no_grant is_pem is_pem front_key shop_certificate c')
    × (resource_key c' ≡ resource_key shop_certificate)
validate_certificate_example =
    validate_certificate_iff stored no_grant is_pem is_pem front_key approved_routes
      shop_certificate
