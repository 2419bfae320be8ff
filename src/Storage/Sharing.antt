-- ===== src/Storage/Sharing.antt =====
-- Which gateways share an inference pool with a route.
use kubvernor.Prelude.{
  Bool, true, false≢true, ◌&&◌, ◌||◌, Option, none, some, List, [], ◌∷◌, ◌≡◌, ◌↔◌, ap, ◌∙◌, inl,
  inr, refl, arith, Option-cases, any, any_iff,
}
use kubvernor.Prelude.Maps.{Map}
use kubvernor.Prelude.Maps
use kubvernor.Prelude.Sets
use kubvernor.Prelude.Sets.{same, contains-insert, contains-union}
use kubvernor.Prelude.Distinct.{
  get-All, any_at_key, test_found, mem-get_iff, Distinct, mem-contains_iff,
}
use kubvernor.Keys.{ResourceKey, ResourceKey-discrete}
use kubvernor.Storage.Locks.{KubeTypes, State, ok, RouteToInferencePool}
use kubvernor.Storage.Pools.{
  pools_of, pools_by_route, shared_from, sharing_from, gateways_by_pools,
  find_gateways_by_route_and_inference_pool,
}
use kubvernor.Storage.Spec.{view, pools_in}
use kubvernor.Storage.Refinement.{IsHealthy}
use kubvernor.Storage.Searches.{Names, names_of_route, pools_of_mem}
use kubvernor.Storage.WellFormed.{IsWellFormed, OneEach}

abbrev dec : Discrete ResourceKey
dec = ResourceKey-discrete

abbrev holds_pool : ResourceKey → RouteToInferencePool → Bool
holds_pool pool e = Sets.contains dec pool e.inference_pool_ids

-- Whether an element of the set names one of the pools.
abbrev names_any : List ResourceKey → List RouteToInferencePool → Bool
names_any pools es = any (λ e. any (λ p. holds_pool p e) pools) es

contains-shared_from :
    (g gateway : ResourceKey) (pools : List ResourceKey) (e : RouteToInferencePool)
    (found : List ResourceKey)
    → Sets.contains dec g (shared_from gateway pools e found)
      ≡ (Sets.contains dec g found || (same dec g gateway && any (λ p. holds_pool p e) pools))
unfolding shared_from
contains-shared_from g gateway [] e found = ground arith
contains-shared_from g gateway (p ∷ pools) e found = ground (
  arith,
  contains-shared_from g gateway pools e found,
  contains-shared_from g gateway pools e (Sets.insert dec gateway found),
  contains-insert dec g gateway found,
)

contains-sharing_from :
    (g gateway : ResourceKey) (pools : List ResourceKey) (es : List RouteToInferencePool)
    (found : List ResourceKey)
    → Sets.contains dec g (sharing_from gateway pools es found)
      ≡ (Sets.contains dec g found || (same dec g gateway && names_any pools es))
unfolding sharing_from
contains-sharing_from g gateway pools [] found = ground arith
contains-sharing_from g gateway pools (e ∷ es) found = ground (
  arith,
  contains-sharing_from g gateway pools es (shared_from gateway pools e found),
  contains-shared_from g gateway pools e found,
)

contains-gateways_by_pools :
    (g : ResourceKey) (m : Map ResourceKey (List RouteToInferencePool))
    (pools found : List ResourceKey)
    → Sets.contains dec g (gateways_by_pools m pools found)
      ≡ (Sets.contains dec g found || any (λ e. same dec g e.0 && names_any pools e.1) m)
unfolding gateways_by_pools
contains-gateways_by_pools g [] pools found = ground arith
contains-gateways_by_pools g ((gateway, es) ∷ m) pools found = ground (
  arith,
  contains-gateways_by_pools g m pools (sharing_from gateway pools es found),
  contains-sharing_from g gateway pools es found,
)

contains-pools_by_route :
    (pool route : ResourceKey) (m : Map ResourceKey (List RouteToInferencePool))
    → Sets.contains dec pool (pools_by_route route m)
      ≡ any (λ e. test_found (Sets.contains dec pool) (pools_of route e.1)) m
unfolding pools_by_route Sets.contains
contains-pools_by_route pool route [] = refl
contains-pools_by_route pool route ((gateway, es) ∷ m) = elim (Option-cases (pools_of route es)) [
  | inl e ↦ rw (e, pools_by_route) (contains-pools_by_route pool route m)
  | inr (ids, e) ↦
      rw (e, pools_by_route)
        (contains-union dec pool ids (pools_by_route route m)
          ∙ ap (λ b. Sets.contains dec pool ids || b) (contains-pools_by_route pool route m))
]

-- Whether the route names the pool at some gateway.
abbrev NamedBy : ResourceKey → ResourceKey → Map ResourceKey (List RouteToInferencePool) → Type 0
NamedBy pool route m = (g : ResourceKey) × Names pool (pools_in route (Maps.get dec g m))

test_found_iff :
    (pool : ResourceKey) (o : Option (List ResourceKey))
    → (test_found (Sets.contains dec pool) o ≡ true) ↔ Names pool o
test_found_iff pool none = (λ e. absurd (false≢true e), λ (ids, e, _). absurd (cc))
test_found_iff pool (some ids) = (λ e. (ids, refl, e), λ (ids', e, h). ground arith)

pools_by_route_iff :
    (pool route : ResourceKey) (m : Map ResourceKey (List RouteToInferencePool))
    → Distinct dec m
    → (Sets.contains dec pool (pools_by_route route m) ≡ true) ↔ NamedBy pool route m
pools_by_route_iff pool route m d =
    let found =
      any_iff
        (λ (e : ResourceKey × List RouteToInferencePool).
          test_found (Sets.contains dec pool) (pools_of route e.1))
        m in
    (
      λ h.
          let ((g, es), member, named) = found.0 (rw (contains-pools_by_route pool route m) at h) in
          (
            g,
            rw ((mem-get_iff dec g es m d).0 member)
                ((test_found_iff pool (pools_of route es)).0 named),
          ),
      λ (g, named).
          rw (contains-pools_by_route pool route m) (entry_named g (Maps.get dec g m) refl named),
    )
  where
    entry_named :
        (g : ResourceKey) (o : Option (List RouteToInferencePool))
        → Maps.get dec g m ≡ o
        → Names pool (pools_in route o)
        → any (λ e. test_found (Sets.contains dec pool) (pools_of route e.1)) m ≡ true
    entry_named g none e (ids, absent, _) = absurd (cc)
    entry_named g (some es) e named =
        (any_iff _ m).1 (
          (g, es),
          (mem-get_iff dec g es m d).1 e,
          (test_found_iff pool (pools_of route es)).1 named,
        )

-- Whether the gateway has a route that names the pool.
abbrev NamedAt : ResourceKey → ResourceKey → Map ResourceKey (List RouteToInferencePool) → Type 0
NamedAt pool g m = (r : ResourceKey) × Names pool (pools_in r (Maps.get dec g m))

names_any_iff :
    (pools : List ResourceKey) (o : Option (List RouteToInferencePool))
    → ((es : List RouteToInferencePool) → o ≡ some es → OneEach es)
    → (test_found (names_any pools) o ≡ true) ↔ (
        (p : ResourceKey) × (Sets.contains dec p pools ≡ true)
        × ((r : ResourceKey) × Names p (pools_in r o)))
names_any_iff pools none one = (λ e. absurd (false≢true e), λ (p, _, (r, (ids, e, _))). absurd (cc))
names_any_iff pools (some es) one = (
  λ h.
      let (e, member, shared) = (any_iff _ es).0 h in
      let (p, listed, held) = (any_iff _ pools).0 shared in
      (
        p,
        (mem-contains_iff dec p pools).0 listed,
        (e.route_id, (e.inference_pool_ids, pools_of_mem e es (one es refl) member, held)),
      ),
  λ (p, listed, (r, named)).
      let (e, member, held) = (any_iff _ es).0 (names_of_route p r es named) in
      (any_iff _ es).1
        (e, member, (any_iff _ pools).1 (p, (mem-contains_iff dec p pools).1 listed, held)),
)

-- In a well-formed state with no lock poisoned, `find_gateways_by_route_and_inference_pool` succeeds,
-- and finds a gateway exactly if a route of it names a pool that the given route names at some gateway.
pub find_gateways_by_route_and_inference_pool_iff :
    {O : KubeTypes} (s : State O)
    → IsHealthy s
    → IsWellFormed s
    → (route : ResourceKey)
    → (found : List ResourceKey) × (find_gateways_by_route_and_inference_pool O route s ≡ ok found)
      × ((g : ResourceKey)
          → (Sets.contains dec g found ≡ true) ↔ (
              (pool : ResourceKey) × ((h : ResourceKey) × Names pool ((view s).pools h route))
              × ((r : ResourceKey) × Names pool ((view s).pools g r))))
unfolding find_gateways_by_route_and_inference_pool Sets.contains
find_gateways_by_route_and_inference_pool_iff s h w route =
    let table = s.gateways_with_routes_with_inference_pools.value in
    let pools = pools_by_route route table in
    (
      gateways_by_pools table pools [],
      ground (arith, h),
      λ g.
          let (to, from) =
            names_any_iff pools (Maps.get dec g table)
              (λ es. get-All dec OneEach g es table w.pools_sets) in
          rw
            (
              contains-gateways_by_pools g table pools [],
              any_at_key dec g (names_any pools) table w.pools_distinct,
            )
            (
              λ e.
                  let (p, listed, named) = to e in
                  (p, (pools_by_route_iff p route table w.pools_distinct).0 listed, named),
              λ (p, by_route, named).
                  from (p, (pools_by_route_iff p route table w.pools_distinct).1 by_route, named),
            ),
    )
