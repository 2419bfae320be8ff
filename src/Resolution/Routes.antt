-- ===== src/Resolution/Routes.antt =====
-- A route is resolved exactly if its backends are.
use kubvernor.Prelude.{
  String, Bool, not, ◌&&◌, List, [], ◌∷◌, ◌++◌, filter_by, ◌≡◌, refl, sym, ◌∙◌, arith,
}
use kubvernor.Keys.{ResourceKey}
use kubvernor.Routes.{
  Backend, Route, RouteType, RoutingRule, RouteMatch, GrpcRouteMatch, ResolutionStatus, backends,
  filter_backends, backends_of, filter_backends_of,
}
use kubvernor.Storage.Locks.{KubeTypes, State, Result, ok}
use kubvernor.Storage.Refinement.{IsHealthy}
use kubvernor.Grants.Resolver.{GrantsResolver}
use kubvernor.Statuses.Kube.{with_objects}
use kubvernor.Resolution.Backends.{Lookups}
use kubvernor.Resolution.Resolver.{
  is_service, later, Processed, is_resolved, process_services, process_pools, process_backends,
  resolve_http, resolve_grpc, resolve, Rules,
}
use kubvernor.Resolution.Totals.{
  is_resolved_backend, all, Agrees, step-Agrees, is_resolved-later, process_services-Agrees,
  process_inference_pool_backend_lem,
}

all-append :
    {A : Type 0} (p : A → Bool) (xs ys : List A) → all p (xs ++ ys) ≡ (all p xs && all p ys)
all-append p [] ys = refl
all-append p (x ∷ xs) ys = ground (arith, all-append p xs ys)

-- The backends that a route of the type is resolved by: those of filters do not count for gRPC.
abbrev pub counted : Route → List Backend
counted r = elim r.route_type [
  | RouteType.http _ ↦ backends r ++ filter_backends r
  | RouteType.grpc _ ↦ backends r
]

module _ (l : Lookups) (grants : GrantsResolver) (gateway_key : ResourceKey) (O : KubeTypes)
    (controller_name : String) where
  abbrev IsDone : Result (Processed × State (with_objects O)) → Type 0
  IsDone m =
      (done : Processed) × (s' : State (with_objects O)) × (m ≡ ok (done, s'))
      × IsHealthy s'
      × Agrees done

  process_pools_lem :
      (route_key : ResourceKey) (bs : List Backend) (done : Processed) (s : State (with_objects O))
      → IsHealthy s
      → Agrees done
      → IsDone (process_pools l grants gateway_key O controller_name route_key bs done s)
  unfolding process_pools
  process_pools_lem k [] done s h e = (done, s, refl, h, e)
  process_pools_lem k (b ∷ bs) (new, status) s h e =
      let (n, st, s', f, h', g) =
        process_inference_pool_backend_lem l grants gateway_key O controller_name k b s h in
      rw f (
        process_pools_lem k bs (new ++ n ∷ [], later status st) s' h'
          (step-Agrees new n status st e g))

  process_backends_lem :
      (route_key : ResourceKey) (bs : List Backend) (s : State (with_objects O))
      → IsHealthy s
      → IsDone (process_backends l grants gateway_key O controller_name route_key bs s)
  unfolding process_backends is_resolved
  process_backends_lem k bs s h =
      process_pools_lem k (filter_by (λ b. not (is_service b)) bs)
        (process_services l grants gateway_key k (filter_by is_service bs)
          ([], ResolutionStatus.resolved))
        s h
        (process_services-Agrees l grants gateway_key k (filter_by is_service bs)
          ([], ResolutionStatus.resolved) refl)

  abbrev IsHttp :
      ResolutionStatus → Result (Rules l grants gateway_key O controller_name RouteMatch) → Type 0
  IsHttp status m =
      (new : List (RoutingRule RouteMatch)) × (st : ResolutionStatus) × (s' : State
        (with_objects O))
      × (m ≡ ok ((new, st), s'))
      × IsHealthy s'
      × (is_resolved st ≡ (
          is_resolved status
          && (all is_resolved_backend (backends_of new)
              && all is_resolved_backend (filter_backends_of new))))

  resolve_http_lem :
      (route_key : ResourceKey) (rules : List (RoutingRule RouteMatch)) (status : ResolutionStatus)
      (s : State (with_objects O))
      → IsHealthy s
      → IsHttp status (resolve_http l grants gateway_key O controller_name route_key rules status s)
  unfolding resolve_http backends_of filter_backends_of
  resolve_http_lem k [] status s h = ([], status, s, refl, h, ground arith)
  resolve_http_lem k (rule ∷ rules) status s h =
      let ((bs, st), s', e, h', a) = process_backends_lem k rule.backends s h in
      let ((fs, ft), s'', f, h'', b) = process_backends_lem k rule.filter_backends s' h' in
      let (new, st', t, g, k', c) = resolve_http_lem k rules (later (later status st) ft) s'' h'' in
      (
        record rule { backends = bs; filter_backends = fs } ∷ new,
        st',
        t,
        rw (e, f, g) refl,
        k',
        ground (
          arith,
          a,
          b,
          c,
          is_resolved-later (later status st) ft,
          is_resolved-later status st,
          all-append is_resolved_backend bs (backends_of new),
          all-append is_resolved_backend fs (filter_backends_of new),
        ),
      )

  abbrev IsGrpc :
      ResolutionStatus
      → Result (Rules l grants gateway_key O controller_name GrpcRouteMatch)
      → Type 0
  IsGrpc status m =
      (new : List (RoutingRule GrpcRouteMatch)) × (st : ResolutionStatus) × (s' : State
        (with_objects O))
      × (m ≡ ok ((new, st), s'))
      × IsHealthy s'
      × (is_resolved st ≡ (is_resolved status && all is_resolved_backend (backends_of new)))

  resolve_grpc_lem :
      (route_key : ResourceKey) (rules : List (RoutingRule GrpcRouteMatch))
      (status : ResolutionStatus) (s : State (with_objects O))
      → IsHealthy s
      → IsGrpc status (resolve_grpc l grants gateway_key O controller_name route_key rules status s)
  unfolding resolve_grpc backends_of
  resolve_grpc_lem k [] status s h = ([], status, s, refl, h, ground arith)
  resolve_grpc_lem k (rule ∷ rules) status s h =
      let ((bs, st), s', e, h', a) = process_backends_lem k rule.backends s h in
      let (new, st', t, g, k', c) = resolve_grpc_lem k rules (later status st) s' h' in
      (
        record rule { backends = bs } ∷ new,
        st',
        t,
        rw (e, g) refl,
        k',
        ground (
          arith,
          a,
          c,
          is_resolved-later status st,
          all-append is_resolved_backend bs (backends_of new),
        ),
      )

  -- With no lock poisoned, a route is resolved to one with the same key, parents and host names, and no
  -- lock is poisoned after it. The route's status is that it is resolved exactly if all its backends
  -- are: those of its rules, and for an HTTP route those of its filters.
  pub resolve_lem :
      (route : Route) (s : State (with_objects O))
      → IsHealthy s
      → (r : Route) × (s' : State (with_objects O)) × (resolve l grants gateway_key O
            controller_name route s
          ≡ ok (r, s'))
        × IsHealthy s'
        × (is_resolved r.resolution_status ≡ all is_resolved_backend (counted r))
        × (r.resource_key ≡ route.resource_key)
        × (r.parents ≡ route.parents)
        × (r.hostnames ≡ route.hostnames)
  unfolding resolve backends filter_backends is_resolved
  resolve_lem route s h = by_type route.route_type refl
    where
      by_type :
          (t : RouteType)
          → route.route_type ≡ t
          → (r : Route) × (s' : State (with_objects O)) × (resolve l grants gateway_key O
                controller_name route s
              ≡ ok (r, s'))
            × IsHealthy s'
            × (is_resolved r.resolution_status ≡ all is_resolved_backend (counted r))
            × (r.resource_key ≡ route.resource_key)
            × (r.parents ≡ route.parents)
            × (r.hostnames ≡ route.hostnames)
      by_type (RouteType.http rules) e =
          let (new, st, s', f, h', a) =
            resolve_http_lem route.resource_key rules ResolutionStatus.resolved s h in
          (
            record route { route_type = RouteType.http new; resolution_status = st },
            s',
            rw (e, f) refl,
            h',
            a ∙ sym (all-append is_resolved_backend (backends_of new) (filter_backends_of new)),
            refl,
            refl,
            refl,
          )
      by_type (RouteType.grpc rules) e =
          let (new, st, s', f, h', a) =
            resolve_grpc_lem route.resource_key rules ResolutionStatus.resolved s h in
          (
            record route { route_type = RouteType.grpc new; resolution_status = st },
            s',
            rw (e, f) refl,
            h',
            a,
            refl,
            refl,
            refl,
          )
