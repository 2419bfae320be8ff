-- ===== src/References/Release.antt =====
-- What the counters lose when a route is deleted.
use kubvernor.Prelude.{
  ℕ, zero, suc, ◌+◌, ◌-◌, none, List, [], ◌∷◌, All, ◌≡◌, refl, ◌∙◌, arith, unwrap_or, ltb,
  if◌then◌else◌,
}
use kubvernor.Prelude.Maps.{Map, get-insert, get-remove, contains_key}
use kubvernor.Prelude.Maps
use kubvernor.Prelude.Sets
use kubvernor.Prelude.Sets.{contains-union, contains-insert}
use kubvernor.Prelude.Distinct.{Distinct, remove-Distinct, IsSetList, insert-IsSetList, test_found}
use kubvernor.Keys.{ResourceKey, ResourceKey-discrete}
use kubvernor.References.Resolver.{
  Resolver, release_all, RouteToReferenceMapping, GatewayToRouteReferenceMapping, affected,
  resources_to_delete, without_route, delete_route_references,
}
use kubvernor.References.Counting.{
  occurs, mentions, total, is_unused, get-release_all, get-with_parents, with_parents-Distinct,
  release_all-Distinct,
}
use kubvernor.References.Counted.{Counted, counter}

abbrev dec : Discrete ResourceKey
dec = ResourceKey-discrete

-- The references to a key that go away with a route, over all gateways.
abbrev pub lost : ResourceKey → ResourceKey → GatewayToRouteReferenceMapping → ℕ
lost k route [] = 0
lost k route ((gateway, routes) ∷ m) =
    occurs k (unwrap_or (Maps.get dec route routes) []) + lost k route m

abbrev at_most_one : ℕ → ℕ
at_most_one zero = 0
at_most_one (suc n) = 1

union-IsSetList :
    (xs ys : List ResourceKey) → IsSetList dec xs → IsSetList dec (Sets.union dec xs ys)
unfolding Sets.union
union-IsSetList xs [] h = h
union-IsSetList xs (y ∷ ys) h =
    union-IsSetList (Sets.insert dec y xs) ys (insert-IsSetList dec y xs h)

occurs_of_set :
    (k : ResourceKey) (xs : List ResourceKey)
    → IsSetList dec xs
    → occurs k xs ≡ (if Sets.contains dec k xs then 1 else 0)
unfolding Sets.contains
occurs_of_set k [] h = refl
occurs_of_set k (x ∷ xs) (new, h) = ground (arith, occurs_of_set k xs h)

contains-occurs :
    (k : ResourceKey) (xs : List ResourceKey) → Sets.contains dec k xs ≡ ltb 0 (occurs k xs)
unfolding Sets.contains
contains-occurs k [] = refl
contains-occurs k (x ∷ xs) = ground (arith, contains-occurs k xs)

resources_to_delete-IsSetList :
    (route : ResourceKey) (m : GatewayToRouteReferenceMapping)
    → IsSetList dec (resources_to_delete route m)
unfolding resources_to_delete
resources_to_delete-IsSetList route [] = tt
resources_to_delete-IsSetList route ((g, routes) ∷ m) =
    union-IsSetList _ _ (resources_to_delete-IsSetList route m)

contains-resources_to_delete :
    (k route : ResourceKey) (m : GatewayToRouteReferenceMapping)
    → Sets.contains dec k (resources_to_delete route m) ≡ ltb 0 (lost k route m)
unfolding resources_to_delete Sets.contains
contains-resources_to_delete k route [] = refl
contains-resources_to_delete k route ((g, routes) ∷ m) = ground (
  arith,
  contains-resources_to_delete k route m,
  contains-union dec k (resources_to_delete route m) (unwrap_or (Maps.get dec route routes) []),
  contains-occurs k (unwrap_or (Maps.get dec route routes) []),
)

-- However many gateways a route refers to a key through, it is deleted once.
occurs-resources_to_delete :
    (k route : ResourceKey) (m : GatewayToRouteReferenceMapping)
    → occurs k (resources_to_delete route m) ≡ at_most_one (lost k route m)
occurs-resources_to_delete k route m = ground (
  arith,
  occurs_of_set k (resources_to_delete route m) (resources_to_delete-IsSetList route m),
  contains-resources_to_delete k route m,
)

mentions-remove_absent :
    (k route : ResourceKey) (routes : RouteToReferenceMapping)
    → Maps.get dec route routes ≡ none
    → mentions k (Maps.remove dec route routes) ≡ mentions k routes
unfolding Maps.remove Maps.get
mentions-remove_absent k route [] e = refl
mentions-remove_absent k route ((j, refs) ∷ routes) e =
    ground (arith, mentions-remove_absent k route routes)

mentions-remove :
    (k route : ResourceKey) (routes : RouteToReferenceMapping)
    → Distinct dec routes
    → mentions k (Maps.remove dec route routes)
        + occurs k (unwrap_or (Maps.get dec route routes) [])
      ≡ mentions k routes
unfolding Maps.remove Maps.get
mentions-remove k route [] d = refl
mentions-remove k route ((j, refs) ∷ routes) (new, d) =
    ground (arith, mentions-remove k route routes d, mentions-remove_absent k j routes new)

total-without_route :
    (k route : ResourceKey) (m : GatewayToRouteReferenceMapping)
    → All (λ e. Distinct dec e.1) m
    → total k (without_route route m) + lost k route m ≡ total k m
unfolding without_route
total-without_route k route [] h = refl
total-without_route k route ((g, routes) ∷ m) (d, h) =
    omega (arith, total-without_route k route m h, mentions-remove k route routes d)

get-without_route :
    (g route : ResourceKey) (m : GatewayToRouteReferenceMapping)
    → Maps.get dec g m ≡ none
    → Maps.get dec g (without_route route m) ≡ none
unfolding without_route Maps.get
get-without_route g route [] e = refl
get-without_route g route ((j, routes) ∷ m) e = ground (arith, get-without_route g route m)

without_route-Distinct :
    (route : ResourceKey) (m : GatewayToRouteReferenceMapping)
    → Distinct dec m
    → Distinct dec (without_route route m)
unfolding without_route
without_route-Distinct route [] d = tt
without_route-Distinct route ((g, routes) ∷ m) (new, d) =
    (get-without_route g route m new, without_route-Distinct route m d)

without_route-All :
    (route : ResourceKey) (m : GatewayToRouteReferenceMapping)
    → All (λ e. Distinct dec e.1) m
    → All (λ e. Distinct dec e.1) (without_route route m)
unfolding without_route
without_route-All route [] h = tt
without_route-All route ((g, routes) ∷ m) (d, h) =
    (remove-Distinct dec route routes d, without_route-All route m h)

contains-affected :
    (g route : ResourceKey) (m : GatewayToRouteReferenceMapping)
    → Distinct dec m
    → Sets.contains dec g (affected route m)
      ≡ test_found (contains_key dec route) (Maps.get dec g m)
unfolding affected Maps.get Sets.contains
contains-affected g route [] d = refl
contains-affected g route ((j, routes) ∷ m) (new, d) = ground (arith, contains-affected g route m d)

released :
    (k : ResourceKey) (ks : List ResourceKey) (p : Map ResourceKey ℕ) (n n' : ℕ)
    → Maps.get dec k p ≡ counter n
    → n' + occurs k ks ≡ n
    → let q = Maps.get dec k (release_all ks p) in (if is_unused q then none else q) ≡ counter n'
released k ks p n n' e moves = ground (arith, get-release_all k ks p)

module _ {R : Type 0} {extra : ResourceKey → ℕ} (r : Resolver R) (c : Counted extra r)
    (route : ResourceKey) where
  open r use {gateway_route_reference_mapping as before}

  -- Deleting a route takes one from the counter of each key that the route referred to, through
  -- however many gateways: the counters still cover every reference that is left, and a key that the
  -- route referred to through n + 1 gateways is counted n times more than it is referred to.
  pub delete_route_references-Counted :
      Counted (λ k. extra k + (lost k route before - 1)) (delete_route_references route r).0
  unfolding delete_route_references
  delete_route_references-Counted =
      let d = release_all-Distinct (resources_to_delete route before) _ c.parents_distinct in
      record {
        gateways_distinct = without_route-Distinct route before c.gateways_distinct;
        routes_distinct = without_route-All route before c.routes_distinct;
        parents_distinct = with_parents-Distinct _ r.references d;
        counted = λ k.
            (get-with_parents k _ r.references d).0
            ∙ released k (resources_to_delete route before) r.references.parents _ _ (c.counted k) (
                ground (
                  arith,
                  total-without_route k route before c.routes_distinct,
                  occurs-resources_to_delete k route before,
                ));
      }

  -- The gateways that `delete_route_references` returns are those that had references of the route.
  pub delete_route_references-affected :
      (g : ResourceKey)
      → Sets.contains dec g (delete_route_references route r).1
        ≡ test_found (contains_key dec route) (Maps.get dec g before)
  unfolding delete_route_references
  delete_route_references-affected g = contains-affected g route before c.gateways_distinct
