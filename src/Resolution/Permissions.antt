-- ===== src/Resolution/Permissions.antt =====
-- Which services a route may use.
use kubvernor.Prelude.{
  String, str_eq, eq_iff, Bool, true, false, true≢false, false≢true, ◌||◌, Option, none, some, List,
  ◌≡◌, ◌≢◌, ◌↔◌, ◌⊎◌, inl, inr, refl, ap, if◌then◌else◌, sym, ◌∙◌, arith, Bool-cases,
}
use kubvernor.Prelude.Sets
use kubvernor.Keys.{ResourceKey}
use kubvernor.Routes.{
  Backend, BackendType, ServiceTypeConfig, ResolutionStatus, NotResolvedReason, not_resolved,
}
use kubvernor.Grants.Resolver.{
  Grant, GrantsResolver, ReferenceGrantRef, ReferenceGrantRef-discrete, reference_of, without_name,
  resolve_internal,
}
use kubvernor.Grants.Permits.{IsConfigured, is_allowed-resolve_internal_iff}
use kubvernor.Resolution.Backends.{
  Lookups, Service, is_permitted, resolve_service, process_service_backend, backend_remap_port,
}
use kubvernor.Resolution.Totals.{is_resolved_backend}

is_permitted_iff :
    (gateway route backend : String)
    → (is_permitted gateway route backend ≡ true) ↔ ((gateway ≢ route) ⊎ (backend ≡ gateway))
unfolding is_permitted
is_permitted_iff gateway route backend =
    let same = eq_iff gateway route in
    let near = eq_iff backend gateway in
    elim (Bool-cases (str_eq gateway route)) [
      | inl e ↦ (
        λ h. inr (near.0 (ground arith)),
        λ o. elim o [ inl n ↦ absurd (n (same.0 e)) | inr b ↦ let f = near.1 b in ground arith ],
      )
      | inr e ↦ (λ _. inl (λ q. true≢false (sym (same.1 q) ∙ e)), λ _. ground arith)
    ]

or_iff : {a b : Bool} {A B : Type 0} → (a ≡ true) ↔ A → (b ≡ true) ↔ B → ((a || b) ≡ true) ↔ (A ⊎ B)
or_iff {a = true} f g = (λ _. inl (f.0 refl), λ _. refl)
or_iff {a = false} f g =
    (λ e. inr (g.0 e), λ o. elim o [ inl x ↦ absurd (false≢true (f.1 x)) | inr y ↦ g.1 y ])

-- What the arm for a service answers, from whether the route may use it and whether it is known.
abbrev decided : ServiceTypeConfig → Bool → Option Service → Backend
decided c may_use known =
    (if◌then◌else◌ {A = Backend × ResolutionStatus} may_use
      (elim known [
        | none ↦ (
          Backend.unresolved (BackendType.service c),
          not_resolved NotResolvedReason.backend_not_found,
        )
        | some service ↦ (
          Backend.resolved (
              BackendType.service
                (record c { effective_port = backend_remap_port c.port service })),
          ResolutionStatus.resolved,
        )
      ])
      (
        Backend.not_allowed (BackendType.service c),
        not_resolved NotResolvedReason.ref_not_permitted,
      )).0

decided_lem :
    (c : ServiceTypeConfig) (M : Type 0) (may_use : Bool) (known : Option Service)
    → (may_use ≡ true) ↔ M
    → ((is_resolved_backend (decided c may_use known) ≡ true)
        ↔ (((service : Service) × (known ≡ some service)) × M))
      × ((service : Service)
          → known ≡ some service
          → M
          → decided c may_use known
            ≡ Backend.resolved (
                BackendType.service
                  (record c { effective_port = backend_remap_port c.port service })))
      × (¬ M → decided c may_use known ≡ Backend.not_allowed (BackendType.service c))
decided_lem c M true none m = (
  (λ e. absurd (false≢true e), λ ((service, e), _). absurd (ground arith)),
  λ service e _. absurd (ground arith),
  λ n. absurd (n (m.0 refl)),
)
decided_lem c M true (some known) m = (
  (λ _. ((known, refl), m.0 refl), λ _. refl),
  λ service e _.
      (let same : known ≡ service = (ground arith) in
        ap
          (λ s.
            Backend.resolved
              (BackendType.service (record c { effective_port = backend_remap_port c.port s })))
          same),
  λ n. absurd (n (m.0 refl)),
)
decided_lem c M false known m = (
  (λ e. absurd (false≢true e), λ (_, x). absurd (false≢true (m.1 x))),
  λ service e x. absurd (false≢true (m.1 x)),
  λ _. refl,
)

module _ (list_grants : ReferenceGrantRef → String → Option (List Grant)) where
  -- The reference of a route to a service is tracked for the gateway, and a grant permits it, by the
  -- service's name or for all services.
  abbrev pub IsGranted : GrantsResolver → ResourceKey → ResourceKey → ResourceKey → Type 0
  IsGranted r route_key service_key gateway_key =
      let x = reference_of route_key service_key gateway_key in
      (Sets.contains ReferenceGrantRef-discrete x r.references ≡ true)
      × (IsConfigured list_grants r.references x
          ⊎ IsConfigured list_grants r.references (without_name x))

  module _ (l : Lookups) (r : GrantsResolver) (gateway_key route_key : ResourceKey)
      (c : ServiceTypeConfig) where
    abbrev pub processed : Backend
    processed =
        (process_service_backend l (resolve_internal list_grants r).0 gateway_key route_key
          (Backend.maybe (BackendType.service c))).0

    abbrev pub MayUse : Type 0
    MayUse =
        IsGranted r route_key c.resource_key gateway_key
        ⊎ ((gateway_key.namespace ≢ route_key.namespace)
            ⊎ (c.resource_key.namespace ≡ gateway_key.namespace))

    -- After a turn of the resolver of reference grants, a service that is not resolved yet is resolved
    -- exactly if it is known and the route may use it: a grant permits it, or the route's namespace is
    -- not the gateway's, or the service's namespace is the gateway's. Its port is then remapped. A
    -- service that the route may not use is marked so.
    pub process_service_backend_iff :
        ((is_resolved_backend processed ≡ true) ↔ (
          ((service : Service) × (l.get_service_reference c.resource_key ≡ some service)) × MayUse))
        × ((service : Service)
            → l.get_service_reference c.resource_key ≡ some service
            → MayUse
            → processed
              ≡ Backend.resolved (
                  BackendType.service
                    (record c { effective_port = backend_remap_port c.port service })))
        × (¬ MayUse → processed ≡ Backend.not_allowed (BackendType.service c))
    unfolding process_service_backend resolve_service
    process_service_backend_iff =
        let allowed =
          is_allowed-resolve_internal_iff list_grants route_key c.resource_key gateway_key r in
        let permitted =
          is_permitted_iff gateway_key.namespace route_key.namespace c.resource_key.namespace in
        decided_lem c MayUse _ (l.get_service_reference c.resource_key) (or_iff allowed permitted)
