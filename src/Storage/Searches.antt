-- ===== src/Storage/Searches.antt =====
-- What the searches for gateways by inference pool find.
use mathlib.Core.List.{Memᴰ}
use kubvernor.Prelude.{
  Bool, true, false≢true, ◌&&◌, ◌||◌, Option, none, some, List, [], ◌∷◌, ◌≡◌, ◌↔◌, refl, arith, any,
  any_iff,
}
use kubvernor.Prelude.Maps.{Map}
use kubvernor.Prelude.Maps
use kubvernor.Prelude.Sets
use kubvernor.Prelude.Sets.{same, contains-insert, contains-union}
use kubvernor.Prelude.Distinct.{get-All, any_at_key, test_found}
use kubvernor.Keys.{ResourceKey, ResourceKey-discrete}
use kubvernor.Storage.Locks.{KubeTypes, State, ok, RouteToInferencePool}
use kubvernor.Storage.Pools.{
  pools_of, found_from, gateways_by_pool, find_gateways_by_inference_pool,
}
use kubvernor.Storage.Spec.{view, pools_in}
use kubvernor.Storage.Refinement.{IsHealthy}
use kubvernor.Storage.WellFormed.{IsWellFormed, OneEach}

abbrev dec : Discrete ResourceKey
dec = ResourceKey-discrete

-- Whether a route of the set names the pool.
abbrev pub names : ResourceKey → List RouteToInferencePool → Bool
names pool es = any (λ e. Sets.contains dec pool e.inference_pool_ids) es

contains-found_from :
    (g gateway : ResourceKey) (es : List RouteToInferencePool) (pool : ResourceKey)
    (found : List ResourceKey)
    → Sets.contains dec g (found_from gateway es pool found)
      ≡ (Sets.contains dec g found || (same dec g gateway && names pool es))
unfolding found_from
contains-found_from g gateway [] pool found = ground arith
contains-found_from g gateway (e ∷ es) pool found = ground (
  arith,
  contains-found_from g gateway es pool found,
  contains-found_from g gateway es pool (Sets.insert dec gateway found),
  contains-insert dec g gateway found,
)

contains-gateways_by_pool :
    (g : ResourceKey) (m : Map ResourceKey (List RouteToInferencePool)) (pool : ResourceKey)
    (found : List ResourceKey)
    → Sets.contains dec g (gateways_by_pool m pool found)
      ≡ (Sets.contains dec g found || any (λ e. same dec g e.0 && names pool e.1) m)
unfolding gateways_by_pool
contains-gateways_by_pool g [] pool found = ground arith
contains-gateways_by_pool g ((gateway, es) ∷ m) pool found = ground (
  arith,
  contains-gateways_by_pool g m pool (found_from gateway es pool found),
  contains-found_from g gateway es pool found,
)

-- Whether the pool stands in a list of pools that may be missing.
abbrev pub Names : ResourceKey → Option (List ResourceKey) → Type 0
Names pool o = (ids : List ResourceKey) × (o ≡ some ids) × (Sets.contains dec pool ids ≡ true)

pub names_of_route :
    (pool r : ResourceKey) (es : List RouteToInferencePool)
    → Names pool (pools_of r es)
    → names pool es ≡ true
unfolding pools_of
names_of_route pool r [] (ids, e, held) = absurd (cc)
names_of_route pool r (e ∷ es) (ids, found, held) =
    ground (arith, λ (f : pools_of r es ≡ some ids). names_of_route pool r es (ids, f, held))

pub pools_of_mem :
    (e : RouteToInferencePool) (es : List RouteToInferencePool)
    → OneEach es
    → Memᴰ e es
    → pools_of e.route_id es ≡ some e.inference_pool_ids
unfolding pools_of
pools_of_mem e [] one m = elim m [ ]
pools_of_mem e (f ∷ es) (new, one) (Memᴰ.head p) = ground arith
pools_of_mem e (f ∷ es) (new, one) (Memᴰ.tail m) = ground (arith, pools_of_mem e es one m)

-- In a set with one element for each route, the elements name the pool exactly if a route does.
pub names_at_route_iff :
    (pool : ResourceKey) (es : List RouteToInferencePool)
    → OneEach es
    → (names pool es ≡ true) ↔ ((r : ResourceKey) × Names pool (pools_of r es))
names_at_route_iff pool es one =
    let found =
      any_iff (λ (e : RouteToInferencePool). Sets.contains dec pool e.inference_pool_ids) es in
    (
      λ h.
          let (e, m, held) = found.0 h in
          (e.route_id, (e.inference_pool_ids, pools_of_mem e es one m, held)),
      λ (r, named). names_of_route pool r es named,
    )

test_names_iff :
    (pool : ResourceKey) (o : Option (List RouteToInferencePool))
    → ((es : List RouteToInferencePool) → o ≡ some es → OneEach es)
    → (test_found (names pool) o ≡ true) ↔ ((r : ResourceKey) × Names pool (pools_in r o))
test_names_iff pool none one = (λ e. absurd (false≢true e), λ (r, (ids, e, _)). absurd (cc))
test_names_iff pool (some es) one = names_at_route_iff pool es (one es refl)

-- In a well-formed state with no lock poisoned, `find_gateways_by_inference_pool` succeeds, and finds a
-- gateway exactly if a route of it names the pool.
pub find_gateways_by_inference_pool_iff :
    {O : KubeTypes} (s : State O)
    → IsHealthy s
    → IsWellFormed s
    → (pool : ResourceKey)
    → (found : List ResourceKey) × (find_gateways_by_inference_pool O pool s ≡ ok found)
      × ((g : ResourceKey)
          → (Sets.contains dec g found ≡ true) ↔ (
              (r : ResourceKey) × (ids : List ResourceKey) × ((view s).pools g r ≡ some ids)
              × (Sets.contains dec pool ids ≡ true)))
unfolding find_gateways_by_inference_pool Sets.contains
find_gateways_by_inference_pool_iff s h w pool =
    let table = s.gateways_with_routes_with_inference_pools.value in
    (
      gateways_by_pool table pool [],
      ground (arith, h),
      λ g.
          let (to, from) =
            test_names_iff pool (Maps.get dec g table)
              (λ es. get-All dec OneEach g es table w.pools_sets) in
          rw
            (
              contains-gateways_by_pool g table pool [],
              any_at_key dec g (names pool) table w.pools_distinct,
            )
            (
              λ e. let (r, (ids, named, held)) = to e in (r, ids, named, held),
              λ (r, ids, named, held). from (r, (ids, named, held)),
            ),
    )
