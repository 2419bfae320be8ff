-- ===== src/Listeners/Laws.antt =====
-- The set of conditions, the conversion of a listener and the attachment of routes.
use kubvernor.Prelude.{
  ℕ, ◌+◌, ◌<◌, ◌≤◌, String, eq_iff, Bool, false, Option, none, some, List, [], ◌∷◌, map, length,
  if◌then◌else◌, unwrap_or, ◌≡◌, ◌≢◌, ◌↔◌, ◌⊎◌, inl, inr, refl, arith, nat_eq, All, Option-cases,
  ◌&&◌,
}
use kubvernor.Routes.{Route}
use kubvernor.Listeners.Conditions.{
  ListenerCondition, ListenerConditions, ResolvedRefs, resolved_refs, replace, get, discriminant,
  approved_routes,
}
use kubvernor.Listeners.Convert.{
  GatewayListener, ListenerTls, TlsMode, TlsType, ProtocolType, http, https, tls, tcp, udp,
  Listener, Converted, validate_allowed_routes, tls_config, protocol_of, listener_of,
  unknown_tls_mode, certificate, content_of, is_ref_not_permitted, update_routes,
}

-- Each condition's discriminant is above those before it, so no two are of one kind.
abbrev pub Ascending : ListenerConditions → Type 0
Ascending [] = Unit
Ascending (c ∷ cs) = All (λ d. discriminant c < discriminant d) cs × Ascending cs

All-replace :
    (n : ℕ) (c : ListenerCondition) (cs : ListenerConditions)
    → n < discriminant c
    → All (λ d. n < discriminant d) cs
    → All (λ d. n < discriminant d) (replace c cs)
unfolding replace
All-replace n c [] h _ = (h, tt)
All-replace n c (d ∷ cs) h (k, hs) = ground (arith, All-replace n c cs h hs)

All-weaken :
    (m n : ℕ) (cs : ListenerConditions)
    → m ≤ n
    → All (λ d. n < discriminant d) cs
    → All (λ d. m < discriminant d) cs
All-weaken m n [] le h = tt
All-weaken m n (c ∷ cs) le (h, hs) = (omega arith, All-weaken m n cs le hs)

pub replace-Ascending :
    (c : ListenerCondition) (cs : ListenerConditions) → Ascending cs → Ascending (replace c cs)
unfolding replace
replace-Ascending c [] a = (tt, tt)
replace-Ascending c (d ∷ cs) (h, a) = ground (
  arith,
  replace-Ascending c cs a,
  All-replace (discriminant d) c cs,
  All-weaken (discriminant c) (discriminant d) cs,
  All-weaken (discriminant d) (discriminant c) cs,
)

pub get-replace :
    (q c : ListenerCondition) (cs : ListenerConditions)
    → get q (replace c cs) ≡ (if nat_eq (discriminant q) (discriminant c) then some c else get q cs)
unfolding replace get
get-replace q c [] = refl
get-replace q c (d ∷ cs) = ground (arith, get-replace q c cs)

-- In a set of conditions with at most one of each kind, `replace` leaves at most one of each kind: the
-- new condition is the one of its kind, and the others are as before.
pub replace_lem :
    (c : ListenerCondition) (cs : ListenerConditions)
    → Ascending cs
    → Ascending (replace c cs)
      × ((q : ListenerCondition)
          → get q (replace c cs)
            ≡ (if nat_eq (discriminant q) (discriminant c) then some c else get q cs))
replace_lem c cs a = (replace-Ascending c cs a, λ q. get-replace q c cs)

-- The text that names a protocol in a gateway's specification.
abbrev pub protocol_name : ProtocolType → String
protocol_name http = "HTTP"
protocol_name https = "HTTPS"
protocol_name tls = "TLS"
protocol_name tcp = "TCP"
protocol_name udp = "UDP"

-- A listener with a TLS configuration that names no mode.
abbrev pub LacksMode : GatewayListener → Type 0
LacksMode l = (t : ListenerTls) × (l.tls ≡ some t) × (t.mode ≡ none)

protocol_of-name : (p : ProtocolType) → protocol_of (protocol_name p) ≡ some p
unfolding protocol_of
protocol_of-name http = refl
protocol_of-name https = refl
protocol_of-name tls = refl
protocol_of-name tcp = refl
protocol_of-name udp = refl

name-protocol_of : (s : String) (p : ProtocolType) → protocol_of s ≡ some p → protocol_name p ≡ s
unfolding protocol_of
name-protocol_of s p e =
    ground
      (arith, eq_iff s "HTTP", eq_iff s "HTTPS", eq_iff s "TCP", eq_iff s "TLS", eq_iff s "UDP")

-- A TLS configuration converts, or it names no mode.
tls_config_cases :
    (o : Option ListenerTls)
    → ((t : Option TlsType) × (tls_config o ≡ Converted.ok t)
        × ((t : ListenerTls) → o ≡ some t → t.mode ≢ none))
      ⊎ ((t : ListenerTls) × (o ≡ some t)
          × (t.mode ≡ none)
          × (tls_config o ≡ Converted.err unknown_tls_mode))
unfolding tls_config
tls_config_cases none = inl (none, refl, λ t e _. cc)
tls_config_cases (some t) = mode_cases t t.mode refl
  where
    mode_cases :
        (t : ListenerTls) (m : Option TlsMode)
        → t.mode ≡ m
        → ((o : Option TlsType) × (tls_config (some t) ≡ Converted.ok o)
            × ((u : ListenerTls) → some t ≡ some u → u.mode ≢ none))
          ⊎ ((u : ListenerTls) × (some t ≡ some u)
              × (u.mode ≡ none)
              × (tls_config (some t) ≡ Converted.err unknown_tls_mode))
    mode_cases t none e = inr (t, refl, e, rw (e, tls_config) refl)
    mode_cases t (some TlsMode.passthrough) e =
        inl (some TlsType.passthrough, rw (e, tls_config) refl, λ u f g. cc)
    mode_cases t (some TlsMode.terminate) e = inl (
      some (TlsType.terminate (map certificate (unwrap_or t.certificate_refs []))),
      rw (e, tls_config) refl,
      λ u f g. cc,
    )

protocol_cases :
    (s : String)
    → ((p : ProtocolType) × (protocol_of s ≡ some p) × (protocol_name p ≡ s))
      ⊎ ((protocol_of s ≡ none) × ((p : ProtocolType) → protocol_name p ≢ s))
protocol_cases s = elim (Option-cases (protocol_of s)) [
  | inl e ↦ inr (e, λ p f. ground (arith, protocol_of-name p))
  | inr (p, e) ↦ inl (p, e, name-protocol_of s p e)
]

-- A listener of a specification converts exactly if it does not lack a TLS mode and its protocol has
-- one of the five names.
pub listener_of-eq-ok_iff :
    (l : GatewayListener)
    → ((x : Listener) × (listener_of l ≡ Converted.ok x))
      ↔ ((¬ LacksMode l) × ((p : ProtocolType) × (protocol_name p ≡ l.protocol)))
unfolding listener_of
listener_of-eq-ok_iff l = elim (tls_config_cases l.tls) [
  | inl (t, e, has) ↦ elim (protocol_cases l.protocol) [
    | inl (p, f, named) ↦ (
      λ _. ((λ (u, g, lacks). has u g lacks), (p, named)),
      λ _. (record { protocol = p; content = content_of l t }, ground arith),
    )
    | inr (f, unnamed) ↦
        (λ (x, g). absurd (ground arith), λ (_, (p, named)). absurd (unnamed p named))
  ]
  | inr (t, e, lacks, f) ↦ (λ (x, g). absurd (ground arith), λ (has, _). absurd (has (t, e, lacks)))
]

-- What a listener is converted to: its protocol, name, port and host name are those of the
-- specification, its one condition is that of the allowed routes, and it has no routes yet.
pub listener_of_ok :
    (l : GatewayListener) (x : Listener)
    → listener_of l ≡ Converted.ok x
    → let content = x.content in
      let config = content.config in
      (protocol_name x.protocol ≡ l.protocol)
      × (config.name ≡ l.name)
      × (config.port ≡ l.port)
      × (config.hostname ≡ l.hostname)
      × (tls_config l.tls ≡ Converted.ok config.tls_type)
      × (content.conditions ≡ validate_allowed_routes l ∷ [])
      × (content.resolved_routes ≡ [])
      × (content.unresolved_routes ≡ [])
      × (content.attached_routes ≡ 0)
unfolding listener_of replace
listener_of_ok l x e = ground (arith, name-protocol_of l.protocol x.protocol)

-- Whether the first of the unresolved routes was refused for want of a reference grant.
abbrev pub refused : List Route → Bool
refused [] = false
refused (r ∷ rs) = is_ref_not_permitted r.resolution_status

-- `update_routes` attaches the routes and counts them, and touches the conditions only if the first
-- unresolved route was refused for want of a reference grant: then it says so under the kind
-- `ResolvedRefs`. In no case does it set the condition `UnresolvedRouteRefs`.
pub update_routes_lem :
    (rs us : List Route) (l : Listener)
    → let content = (update_routes rs us l).content in
      ((update_routes rs us l).protocol ≡ l.protocol)
      × (content.config ≡ l.content.config)
      × (content.resolved_routes ≡ rs)
      × (content.unresolved_routes ≡ us)
      × (content.attached_routes ≡ length rs + length us)
      × ((q : ListenerCondition)
          → get q content.conditions ≡ (
              if refused us && nat_eq (discriminant q) 0
              then some (resolved_refs (ResolvedRefs.invalid_backend approved_routes))
              else get q l.content.conditions))
unfolding update_routes discriminant
update_routes_lem rs [] l = (refl, refl, refl, refl, omega arith, λ q. refl)
update_routes_lem rs (u ∷ us) l = (
  refl,
  refl,
  refl,
  refl,
  omega arith,
  λ q. ground (
    arith,
    get-replace q (resolved_refs (ResolvedRefs.invalid_backend approved_routes))
        l.content.conditions,
  ),
)
