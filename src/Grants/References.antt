-- ===== src/Grants/References.antt =====
-- What `search_references` collects: the references of a gateway's routes and of its listeners.
use mathlib.Core.List.{Memᴰ}
use mathlib.Core.List.Memᴰ
use kubvernor.Prelude.{
  true, true≢false, Option, none, some, List, [], ◌∷◌, map, filter_map, if◌then◌else◌, ◌≡◌, ◌↔◌,
  ◌⊎◌, inl, inr, refl, sym, ◌∙◌, subst, arith, Bool-cases,
}
use kubvernor.Prelude.Maps.{values}
use kubvernor.Prelude.Distinct.{mem-filter_map_iff}
use kubvernor.Keys.{ResourceKey}
use kubvernor.Routes.{Route, Backend, BackendType, ServiceTypeConfig, backends}
use kubvernor.Listeners.Certificates.{Certificate, resource_key}
use kubvernor.Listeners.Convert.{Listener, ProtocolType, TlsType}
use kubvernor.Listeners.Gateways.{Gateway}
use kubvernor.Listeners.Validation.{is_secured}
use kubvernor.Grants.Resolver.{
  ReferenceGrantRef, reference_of, target_of, certificates_of, route_references, secret_references,
  search_references,
}

-- A backend that is not resolved yet and a service, or of a kind that is not known.
abbrev pub IsTarget : Backend → ResourceKey → Type 0
IsTarget b to =
    (config : ServiceTypeConfig) × ((b ≡ Backend.maybe (BackendType.service config))
      ⊎ (b ≡ Backend.maybe (BackendType.invalid_type config)))
    × (config.resource_key ≡ to)

target_of_iff : (b : Backend) (to : ResourceKey) → (target_of b ≡ some to) ↔ IsTarget b to
target_of_iff (Backend.maybe (BackendType.service config)) to =
    (λ e. (config, inl refl, ground arith), λ (d, o, e). ground arith)
target_of_iff (Backend.maybe (BackendType.invalid_type config)) to =
    (λ e. (config, inr refl, ground arith), λ (d, o, e). ground arith)
target_of_iff (Backend.maybe (BackendType.inference_pool config)) to =
    (λ e. absurd (ground arith), λ (d, o, e). absurd (ground arith))
target_of_iff (Backend.resolved t) to =
    (λ e. absurd (ground arith), λ (d, o, e). absurd (ground arith))
target_of_iff (Backend.unresolved t) to =
    (λ e. absurd (ground arith), λ (d, o, e). absurd (ground arith))
target_of_iff (Backend.not_allowed t) to =
    (λ e. absurd (ground arith), λ (d, o, e). absurd (ground arith))
target_of_iff (Backend.invalid t) to =
    (λ e. absurd (ground arith), λ (d, o, e). absurd (ground arith))

-- A reference from one of the routes to a backend of it.
abbrev pub RouteRefers : ResourceKey → List Route → ReferenceGrantRef → Type 0
RouteRefers gateway routes x =
    (route : Route) × (b : Backend) × (to : ResourceKey) × Memᴰ route routes
    × Memᴰ b (backends route)
    × IsTarget b to
    × (reference_of route.resource_key to gateway ≡ x)

-- A reference from the gateway to a certificate of one of the listeners that are secured.
abbrev pub ListenerRefers : ResourceKey → List Listener → ReferenceGrantRef → Type 0
ListenerRefers gateway ls x =
    (l : Listener) × (certificates : List Certificate) × (c : Certificate) × Memᴰ l ls
    × ((l.protocol ≡ ProtocolType.https) ⊎ (l.protocol ≡ ProtocolType.tls))
    × (l.content.config.tls_type ≡ some (TlsType.terminate certificates))
    × Memᴰ c certificates
    × (reference_of gateway (resource_key c) gateway ≡ x)

abbrev of_route : ResourceKey → Route → List ReferenceGrantRef
of_route gateway route =
    map (λ to. reference_of route.resource_key to gateway) (filter_map target_of (backends route))

mem-of_route_iff :
    (gateway : ResourceKey) (route : Route) (x : ReferenceGrantRef)
    → Memᴰ x (of_route gateway route) ↔ (
        (b : Backend) × (to : ResourceKey) × Memᴰ b (backends route)
        × IsTarget b to
        × (reference_of route.resource_key to gateway ≡ x))
mem-of_route_iff gateway route x =
    let f : ResourceKey → ReferenceGrantRef = λ to. reference_of route.resource_key to gateway in
    let targets = filter_map target_of (backends route) in
    (
      λ m.
          let (to, n, e) = Memᴰ.of_map f targets m in
          let (b, k, q) = (mem-filter_map_iff target_of to (backends route)).0 n in
          (b, to, k, (target_of_iff b to).0 q, e),
      λ (b, to, k, q, e).
          subst (λ y. Memᴰ y (map f targets)) e
            (Memᴰ.map f (
              (mem-filter_map_iff target_of to (backends route)).1
                (b, k, (target_of_iff b to).1 q))),
    )

mem-route_references_iff :
    (gateway : ResourceKey) (routes : List Route) (x : ReferenceGrantRef)
    → Memᴰ x (route_references gateway routes) ↔ RouteRefers gateway routes x
unfolding route_references
mem-route_references_iff gateway [] x = (λ m. elim m [ ], λ (route, b, to, m, _, _, _). elim m [ ])
mem-route_references_iff gateway (route ∷ routes) x =
    let here = mem-of_route_iff gateway in
    let rest = mem-route_references_iff gateway routes x in
    (
      λ m. elim (Memᴰ.append_cases (of_route gateway route) m) [
        | inl h ↦
            let (b, to, k, q, e) = (here route x).0 h in (route, b, to, Memᴰ.head refl, k, q, e)
        | inr h ↦ let (r, b, to, n, k, q, e) = rest.0 h in (r, b, to, Memᴰ.tail n, k, q, e)
      ],
      λ (r, b, to, n, k, q, e). elim n [
        | Memᴰ.head p ↦
            Memᴰ.append_left (route_references gateway routes)
              (subst (λ u. Memᴰ x (of_route gateway u)) p ((here r x).1 (b, to, k, q, e)))
        | Memᴰ.tail j ↦ Memᴰ.append_right (of_route gateway route) (rest.1 (r, b, to, j, k, q, e))
      ],
    )

abbrev of_listener : ResourceKey → Listener → List ReferenceGrantRef
of_listener gateway l =
    map (λ c. reference_of gateway (resource_key c) gateway)
      (certificates_of l.content.config.tls_type)

secured_iff :
    (p : ProtocolType) → (is_secured p ≡ true) ↔ ((p ≡ ProtocolType.https) ⊎ (p ≡ ProtocolType.tls))
secured_iff p = ground arith

mem-certificates_of_iff :
    (tls : Option TlsType) (c : Certificate)
    → Memᴰ c (certificates_of tls) ↔ (
        (certificates : List Certificate) × (tls ≡ some (TlsType.terminate certificates))
        × Memᴰ c certificates)
mem-certificates_of_iff none c = (λ m. elim m [ ], λ (cs, e, m). absurd (ground arith))
mem-certificates_of_iff (some TlsType.passthrough) c =
    (λ m. elim m [ ], λ (cs, e, m). absurd (ground arith))
mem-certificates_of_iff (some (TlsType.terminate ds)) c =
    (λ m. (ds, refl, m), λ (cs, e, m). subst (λ t. Memᴰ c (certificates_of t)) (sym e) m)

abbrev OfListener : ResourceKey → ReferenceGrantRef → Listener → Type 0
OfListener gateway x l =
    (certificates : List Certificate) × (c : Certificate) × ((l.protocol ≡ ProtocolType.https)
      ⊎ (l.protocol ≡ ProtocolType.tls))
    × (l.content.config.tls_type ≡ some (TlsType.terminate certificates))
    × Memᴰ c certificates
    × (reference_of gateway (resource_key c) gateway ≡ x)

mem-of_listener_iff :
    (gateway : ResourceKey) (l : Listener) (x : ReferenceGrantRef)
    → is_secured l.protocol ≡ true
    → Memᴰ x (of_listener gateway l) ↔ OfListener gateway x l
mem-of_listener_iff gateway l x secured =
    let f : Certificate → ReferenceGrantRef = λ c. reference_of gateway (resource_key c) gateway in
    let certificates = certificates_of l.content.config.tls_type in
    (
      λ m.
          let (c, n, e) = Memᴰ.of_map f certificates m in
          let (cs, q, k) = (mem-certificates_of_iff l.content.config.tls_type c).0 n in
          (cs, c, (secured_iff l.protocol).0 secured, q, k, e),
      λ (cs, c, _, q, k, e).
          subst (λ y. Memᴰ y (map f certificates)) e
            (Memᴰ.map f ((mem-certificates_of_iff l.content.config.tls_type c).1 (cs, q, k))),
    )

mem-secret_references_iff :
    (gateway : ResourceKey) (ls : List Listener) (x : ReferenceGrantRef)
    → Memᴰ x (secret_references gateway ls) ↔ ((l : Listener) × Memᴰ l ls × OfListener gateway x l)
unfolding secret_references
mem-secret_references_iff gateway [] x = (λ m. elim m [ ], λ (l, m, _). elim m [ ])
mem-secret_references_iff gateway (l ∷ ls) x =
    let rest = mem-secret_references_iff gateway ls x in
    elim (Bool-cases (is_secured l.protocol)) [
      | inl e ↦
          let here = mem-of_listener_iff gateway l x e in
          rw (e, if◌then◌else◌)
            (
              (λ m. elim (Memᴰ.append_cases (of_listener gateway l) m) [
                | inl h ↦ (l, Memᴰ.head refl, here.0 h)
                | inr h ↦ let (k, n, o) = rest.0 h in (k, Memᴰ.tail n, o)
              ]),
              (λ (k, n, o). elim n [
                | Memᴰ.head p ↦
                    Memᴰ.append_left (secret_references gateway ls)
                      (here.1 (subst (OfListener gateway x) p o))
                | Memᴰ.tail j ↦ Memᴰ.append_right (of_listener gateway l) (rest.1 (k, j, o))
              ]),
            )
      | inr e ↦
          rw (e, if◌then◌else◌)
            (
              (λ m. let (k, n, o) = rest.0 m in (k, Memᴰ.tail n, o)),
              (λ (k, n, o). elim n [
                | Memᴰ.head p ↦
                    let (cs, c, secured, _, _, _) = subst (OfListener gateway x) p o in
                    absurd (true≢false (sym ((secured_iff l.protocol).1 secured) ∙ e))
                | Memᴰ.tail j ↦ rest.1 (k, j, o)
              ]),
            )
    ]

-- What a gateway needs grants for: a reference from one of the routes that are linked to it to a
-- backend that is not resolved yet, or from the gateway to a certificate of a secured listener.
abbrev pub IsReferenced : {Uuid : Type 0} → List Route → Gateway Uuid → ReferenceGrantRef → Type 0
IsReferenced routes g x =
    RouteRefers g.resource_key routes x ⊎ ListenerRefers g.resource_key (values g.listeners) x

pub mem-search_references_iff :
    {Uuid : Type 0} (linked_routes : ResourceKey → List Route) (g : Gateway Uuid)
    (x : ReferenceGrantRef)
    → Memᴰ x (search_references linked_routes g) ↔ IsReferenced (linked_routes g.resource_key) g x
unfolding search_references
mem-search_references_iff linked_routes g x =
    let key = g.resource_key in
    let routes = linked_routes key in
    let first = mem-route_references_iff key routes x in
    let second = mem-secret_references_iff key (values g.listeners) x in
    (
      λ m. elim (Memᴰ.append_cases (route_references key routes) m) [
        | inl h ↦ inl (first.0 h)
        | inr h ↦ let (l, n, (cs, c, s, q, k, e)) = second.0 h in inr (l, cs, c, n, s, q, k, e)
      ],
      λ o. elim o [
        | inl r ↦ Memᴰ.append_left (secret_references key (values g.listeners)) (first.1 r)
        | inr (l, cs, c, n, s, q, k, e) ↦
            Memᴰ.append_right (route_references key routes) (second.1 (l, n, (cs, c, s, q, k, e)))
      ],
    )
