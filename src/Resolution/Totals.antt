-- ===== src/Resolution/Totals.antt =====
-- When a route counts as resolved.
use kubvernor.Prelude.{
  String, Bool, true, false, ◌&&◌, Option, List, [], ◌∷◌, ◌++◌, unwrap_or, ◌≡◌, refl, sym, ◌∙◌, ap₂,
  arith, Bool-cases, Option-cases, inl, inr,
}
use kubvernor.Prelude.Maps
use kubvernor.Keys.{ResourceKey, ResourceKey-discrete, inference_pool_key}
use kubvernor.Routes.{
  NotResolvedReason, Backend, BackendType, ResolutionStatus, not_resolved, ServiceTypeConfig,
  InferencePoolTypeConfig,
}
use kubvernor.Storage.Locks.{KubeTypes, State, Result, ok, write}
use kubvernor.Storage.Objects.{get_inference_pool, save_inference_pool}
use kubvernor.Storage.Pools.{gateways_by_pool, find_gateways_by_inference_pool}
use kubvernor.Storage.Refinement.{IsHealthy}
use kubvernor.Grants.Resolver.{GrantsResolver}
use kubvernor.Statuses.Kube.{InferencePool, key_meta, with_objects}
use kubvernor.Resolution.Backends.{
  clean_pool, with_pool, resolved_endpoint_picker, pool_answer, save_pool, Lookups,
  process_service_backend, process_inference_pool_backend, resolve_service, resolve_pool,
  found_pool, is_permitted,
}
use kubvernor.Resolution.Resolver.{later, Processed, is_resolved, process_services}

abbrev pub is_resolved_backend : Backend → Bool
is_resolved_backend (Backend.resolved _) = true
is_resolved_backend (Backend.unresolved _) = false
is_resolved_backend (Backend.not_allowed _) = false
is_resolved_backend (Backend.maybe _) = false
is_resolved_backend (Backend.invalid _) = false

abbrev pub all : {A : Type 0} → (A → Bool) → List A → Bool
all p [] = true
all p (x ∷ xs) = p x && all p xs

all-snoc :
    {A : Type 0} (p : A → Bool) (xs : List A) (y : A) → all p (xs ++ y ∷ []) ≡ (all p xs && p y)
all-snoc p [] y = ground arith
all-snoc p (x ∷ xs) y = ground (arith, all-snoc p xs y)

pub is_resolved-later :
    (a b : ResolutionStatus) → is_resolved (later a b) ≡ (is_resolved a && is_resolved b)
unfolding is_resolved later
is_resolved-later a ResolutionStatus.resolved = ground arith
is_resolved-later a (not_resolved r) = ground arith

-- The status says whether all backends are resolved.
abbrev pub Agrees : Processed → Type 0
Agrees (bs, status) = is_resolved status ≡ all is_resolved_backend bs

pub step-Agrees :
    (bs : List Backend) (b : Backend) (status st : ResolutionStatus)
    → Agrees (bs, status)
    → is_resolved st ≡ is_resolved_backend b
    → Agrees (bs ++ b ∷ [], later status st)
step-Agrees bs b status st e f =
    is_resolved-later status st ∙ ap₂ ◌&&◌ e f ∙ sym (all-snoc is_resolved_backend bs b)

module _ (l : Lookups) (grants : GrantsResolver) (gateway_key : ResourceKey) where
  resolve_service-status :
      (route_key : ResourceKey) (c : ServiceTypeConfig)
      → is_resolved (resolve_service l grants gateway_key route_key c).1
        ≡ is_resolved_backend (resolve_service l grants gateway_key route_key c).0
  unfolding resolve_service is_resolved
  resolve_service-status route_key c = ground arith

  process_service_backend-status :
      (route_key : ResourceKey) (b : Backend)
      → is_resolved (process_service_backend l grants gateway_key route_key b).1
        ≡ is_resolved_backend (process_service_backend l grants gateway_key route_key b).0
  unfolding process_service_backend is_resolved
  process_service_backend-status k (Backend.maybe (BackendType.service c)) =
      resolve_service-status k c
  process_service_backend-status k (Backend.maybe (BackendType.invalid_type c)) =
      resolve_service-status k c
  process_service_backend-status k (Backend.maybe (BackendType.inference_pool c)) = refl
  process_service_backend-status k (Backend.unresolved t) = refl
  process_service_backend-status k (Backend.not_allowed t) = refl
  process_service_backend-status k (Backend.invalid t) = refl
  process_service_backend-status k (Backend.resolved t) = refl

  pub process_services-Agrees :
      (route_key : ResourceKey) (bs : List Backend) (done : Processed)
      → Agrees done
      → Agrees (process_services l grants gateway_key route_key bs done)
  unfolding process_services
  process_services-Agrees k [] done e = e
  process_services-Agrees k (b ∷ bs) (new, status) e =
      let (n, st) = process_service_backend l grants gateway_key k b in
      process_services-Agrees k bs (new ++ n ∷ [], later status st)
        (step-Agrees new n status st e (process_service_backend-status k b))

  module _ (O : KubeTypes) (controller_name : String) where
    -- A step succeeds, leaves no lock poisoned, and answers what agrees.
    abbrev IsAnswered : Result ((Backend × ResolutionStatus) × State (with_objects O)) → Type 0
    IsAnswered m =
        (b : Backend) × (st : ResolutionStatus) × (s' : State (with_objects O)) × (m
          ≡ ok ((b, st), s'))
        × IsHealthy s'
        × (is_resolved st ≡ is_resolved_backend b)

    abbrev saved : ResourceKey → InferencePool → State (with_objects O) → State (with_objects O)
    saved key p s = record s {
      inference_pools =
          write s.inference_pools (Maps.insert ResourceKey-discrete key p s.inference_pools.value);
    }

    save_inference_pool_lem :
        (key : ResourceKey) (p : InferencePool) (s : State (with_objects O))
        → IsHealthy s
        → (save_inference_pool (with_objects O) key p s ≡ ok (tt, saved key p s))
          × IsHealthy (saved key p s)
    unfolding save_inference_pool
    save_inference_pool_lem key p s h = (
      ground (arith, h.inference_pools_healthy),
      record {
        gateway_classes_healthy = h.gateway_classes_healthy;
        gateways_healthy = h.gateways_healthy;
        http_routes_healthy = h.http_routes_healthy;
        grpc_routes_healthy = h.grpc_routes_healthy;
        gateways_with_routes_healthy = h.gateways_with_routes_healthy;
        inference_pools_healthy = h.inference_pools_healthy;
        gateways_with_routes_with_inference_pools_healthy =
            h.gateways_with_routes_with_inference_pools_healthy;
        gateway_implementation_types_healthy = h.gateway_implementation_types_healthy;
      },
    )

    pool_answer_lem :
        (patched : Bool) (c : InferencePoolTypeConfig) (s : State (with_objects O))
        → IsHealthy s
        → IsAnswered (ok (pool_answer l grants gateway_key O controller_name patched c s))
    unfolding is_resolved
    pool_answer_lem true c s h = (
      Backend.resolved (BackendType.inference_pool c),
      ResolutionStatus.resolved,
      s,
      refl,
      h,
      refl,
    )
    pool_answer_lem false c s h = (
      Backend.unresolved (BackendType.inference_pool c),
      not_resolved NotResolvedReason.backend_not_found,
      s,
      refl,
      h,
      refl,
    )

    save_pool_lem :
        (key : ResourceKey) (p updated : InferencePool) (c : InferencePoolTypeConfig)
        (s : State (with_objects O))
        → IsHealthy s
        → IsAnswered (save_pool l grants gateway_key O controller_name key p updated c s)
    save_pool_lem key p updated c s h = elim (Option-cases p.metadata.name) [
      | inl e ↦ rw e (pool_answer_lem false c s h)
      | inr (n, e) ↦
          let (f, h') = save_inference_pool_lem key updated s h in
          rw (e, f) (pool_answer_lem (l.patch_pool key updated) c (saved key updated s) h')
    ]

    reads :
        (key : ResourceKey) (s : State (with_objects O))
        → IsHealthy s
        → ((o : Option InferencePool) × (get_inference_pool (with_objects O) key s ≡ ok o))
          × ((gs : List ResourceKey) × (find_gateways_by_inference_pool (with_objects O) key s
                ≡ ok gs))
    unfolding get_inference_pool find_gateways_by_inference_pool
    reads key s h = (
      (
        Maps.get ResourceKey-discrete key s.inference_pools.value,
        ground (arith, h.inference_pools_healthy),
      ),
      (
        gateways_by_pool s.gateways_with_routes_with_inference_pools.value key [],
        ground (arith, h.gateways_with_routes_with_inference_pools_healthy),
      ),
    )

    found_pool_lem :
        (route_key : ResourceKey) (c : InferencePoolTypeConfig) (known : InferencePool)
        (s : State (with_objects O))
        → IsHealthy s
        → IsAnswered (found_pool l grants gateway_key O controller_name route_key c known s)
    unfolding found_pool
    found_pool_lem k c known s h =
        let ((o, e), (gs, f)) = reads (inference_pool_key (key_meta known.metadata)) s h in
        let p = unwrap_or o known in
        let picker = resolved_endpoint_picker l grants gateway_key k.namespace p.spec in
        rw (e, f)
          (save_pool_lem (inference_pool_key (key_meta known.metadata)) p
            (clean_pool l grants gateway_key O controller_name gs p picker)
            (with_pool l grants gateway_key k.namespace p.spec c) s h)

    resolve_pool_lem :
        (route_key : ResourceKey) (c : InferencePoolTypeConfig) (s : State (with_objects O))
        → IsHealthy s
        → IsAnswered (resolve_pool l grants gateway_key O controller_name route_key c s)
    unfolding resolve_pool is_resolved
    resolve_pool_lem k c s h =
        elim (Bool-cases
          (is_permitted gateway_key.namespace k.namespace c.resource_key.namespace)) [
            | inl e ↦ elim (Option-cases (l.get_inference_pool_reference c.resource_key)) [
              | inl f ↦ rw (e, f) (pool_answer_lem false c s h)
              | inr (known, f) ↦ rw (e, f) (found_pool_lem k c known s h)
            ]
            | inr e ↦ rw e (
              Backend.not_allowed (BackendType.inference_pool c),
              not_resolved NotResolvedReason.ref_not_permitted,
              s,
              refl,
              h,
              refl,
            )
          ]

    pub process_inference_pool_backend_lem :
        (route_key : ResourceKey) (b : Backend) (s : State (with_objects O))
        → IsHealthy s
        → IsAnswered
            (process_inference_pool_backend l grants gateway_key O controller_name route_key b s)
    unfolding process_inference_pool_backend is_resolved
    process_inference_pool_backend_lem k (Backend.maybe (BackendType.inference_pool c)) s h =
        resolve_pool_lem k c s h
    process_inference_pool_backend_lem k (Backend.maybe (BackendType.service c)) s h =
        (_, _, s, refl, h, refl)
    process_inference_pool_backend_lem k (Backend.maybe (BackendType.invalid_type c)) s h =
        (_, _, s, refl, h, refl)
    process_inference_pool_backend_lem k (Backend.unresolved t) s h = (_, _, s, refl, h, refl)
    process_inference_pool_backend_lem k (Backend.not_allowed t) s h = (_, _, s, refl, h, refl)
    process_inference_pool_backend_lem k (Backend.invalid t) s h = (_, _, s, refl, h, refl)
    process_inference_pool_backend_lem k (Backend.resolved t) s h = (_, _, s, refl, h, refl)
