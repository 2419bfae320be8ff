-- ===== src/Matching/Partition.antt =====
-- How the routes are parted into those with listeners and those without.
use mathlib.Core.List.{Memᴰ}
use kubvernor.Prelude.{
  String, Bool, true, false, Option, none, some, unwrap_or, Bool-cases, arith, inl, inr, List, [],
  ◌∷◌, is_empty, if◌then◌else◌, ◌≡◌, ◌↔◌, refl, sym, ◌∙◌, ap, subst, false≢true, true≢false,
}
use kubvernor.Prelude.Maps.{Map}
use kubvernor.Keys.{ParentReference}
use kubvernor.Listeners.Convert.{GatewayListener}
use kubvernor.Matching.Selection.{IsEligible, filter_matching_route_iff}
use kubvernor.Matching.Ports.{is_empty_iff}
use kubvernor.Routes.{Route}
use kubvernor.Listeners.Gateways.{KubeGateway}
use kubvernor.Matching.Matcher.{
  Labels, RouteToListenersMapping, Found, filter_matching_route, with_status,
  filter_matching_routes,
}

-- The elements of a list that a property selects, under a function.
abbrev Picked : {A B : Type 0} → (A → B) → (A → Type 0) → List A → B → Type 0
Picked {A = A} f Sel xs y = (x : A) × Memᴰ x xs × Sel x × (y ≡ f x)

keep :
    {A B : Type 0} (f : A → B) (Sel : A → Type 0) (x : A) (xs : List A) (ys : List B)
    → Sel x
    → ((y : B) → Memᴰ y ys ↔ Picked f Sel xs y)
    → (y : B) → Memᴰ y (f x ∷ ys) ↔ Picked f Sel (x ∷ xs) y
keep f Sel x xs ys here rest y = (
  λ m. elim m [
    | Memᴰ.head e ↦ (x, Memᴰ.head refl, here, e)
    | Memᴰ.tail n ↦ let (z, k, chosen, e) = (rest y).0 n in (z, Memᴰ.tail k, chosen, e)
  ],
  λ (z, k, chosen, e). elim k [
    | Memᴰ.head q ↦ Memᴰ.head (e ∙ ap f q)
    | Memᴰ.tail n ↦ Memᴰ.tail ((rest y).1 (z, n, chosen, e))
  ],
)

skip :
    {A B : Type 0} (f : A → B) (Sel : A → Type 0) (x : A) (xs : List A) (ys : List B)
    → ¬ Sel x
    → ((y : B) → Memᴰ y ys ↔ Picked f Sel xs y)
    → (y : B) → Memᴰ y ys ↔ Picked f Sel (x ∷ xs) y
skip f Sel x xs ys out rest y = (
  λ n. let (z, k, chosen, e) = (rest y).0 n in (z, Memᴰ.tail k, chosen, e),
  λ (z, k, chosen, e). elim k [
    | Memᴰ.head q ↦ absurd (out (subst Sel q chosen))
    | Memᴰ.tail n ↦ (rest y).1 (z, n, chosen, e)
  ],
)

module _ (pattern : String → Option (String → Bool)) (gateway : KubeGateway)
    (resolved_namespaces : Map String Labels) where
  -- whether a route has found no listener
  abbrev is_unmatched : Route → Bool
  is_unmatched route =
      is_empty (filter_matching_route pattern gateway resolved_namespaces route.parents route).0

  -- What the search for the listeners of a route finds, and the status that it sets, if any.
  abbrev pub search : Route → Found
  search route = filter_matching_route pattern gateway resolved_namespaces route.parents route

  abbrev pub updated : Route → Route
  updated route = record route {
    resolution_status = unwrap_or (search route).1 route.resolution_status;
  }

  with_status-updated :
      (route : Route)
      → with_status pattern gateway resolved_namespaces (search route).1 route ≡ updated route
  with_status-updated route =
      elim (search route).1
        as (λ o.
          with_status pattern gateway resolved_namespaces o route
          ≡ record route { resolution_status = unwrap_or o route.resolution_status }) [
            | none ↦ refl
            | some status ↦ refl
          ]

  abbrev mapping : Route → RouteToListenersMapping
  mapping route = record {
    route = updated route;
    listeners = (filter_matching_route pattern gateway resolved_namespaces route.parents route).0;
  }

  abbrev parted : List Route → List RouteToListenersMapping × List Route
  parted routes = filter_matching_routes pattern gateway resolved_namespaces routes

  parted-cons :
      (route : Route) (routes : List Route)
      → parted (route ∷ routes) ≡ (
          if is_unmatched route
          then ((parted routes).0, updated route ∷ (parted routes).1)
          else (mapping route ∷ (parted routes).0, (parted routes).1))
  unfolding filter_matching_routes
  parted-cons route routes =
      ap
        (λ u. if is_unmatched route then ((parted routes).0, u ∷ (parted routes).1) else (
          record { route = u; listeners = (search route).0 } ∷ (parted routes).0,
          (parted routes).1,
        ))
        (with_status-updated route)

  abbrev IsParted : List Route → List RouteToListenersMapping × List Route → Type 0
  IsParted routes (found, rest) =
      ((m : RouteToListenersMapping)
        → Memᴰ m found ↔ Picked mapping (λ r. is_unmatched r ≡ false) routes m)
      × ((u : Route) → Memᴰ u rest ↔ Picked updated (λ r. is_unmatched r ≡ true) routes u)

  parted_turn :
      (b : Bool) (route : Route) (routes : List Route)
      → is_unmatched route ≡ b
      → IsParted routes (parted routes)
      → IsParted (route ∷ routes) (
          if b
          then ((parted routes).0, updated route ∷ (parted routes).1)
          else (mapping route ∷ (parted routes).0, (parted routes).1))
  parted_turn true route routes e (found, rest) = (
    skip mapping (λ r. is_unmatched r ≡ false) route routes _ (λ f. true≢false (sym e ∙ f)) found,
    keep updated (λ r. is_unmatched r ≡ true) route routes _ e rest,
  )
  parted_turn false route routes e (found, rest) = (
    keep mapping (λ r. is_unmatched r ≡ false) route routes _ e found,
    skip updated (λ r. is_unmatched r ≡ true) route routes _ (λ f. false≢true (sym e ∙ f)) rest,
  )

  parted_lem : (routes : List Route) → IsParted routes (parted routes)
  unfolding filter_matching_routes
  parted_lem [] = (
    (λ m. (λ h. elim h [ ], λ (r, h, _, _). elim h [ ])),
    λ u. (λ h. elim h [ ], λ (r, h, _, _). elim h [ ]),
  )
  parted_lem (route ∷ routes) =
      subst (IsParted (route ∷ routes)) (sym (parted-cons route routes))
        (parted_turn (is_unmatched route) route routes refl (parted_lem routes))

  -- A listener that one of the parents of a route leads to.
  abbrev pub HasListener : Route → Type 0
  HasListener route =
      (ps : List ParentReference) × (p : ParentReference) × (l : GatewayListener) × (route.parents
        ≡ some ps)
      × Memᴰ p ps
      × IsEligible pattern gateway resolved_namespaces route l p

  found_iff :
      (route : Route) (o : Option (List ParentReference))
      → (is_empty (filter_matching_route pattern gateway resolved_namespaces o route).0 ≡ false) ↔ (
          (ps : List ParentReference) × (p : ParentReference) × (l : GatewayListener) × (o
            ≡ some ps)
          × Memᴰ p ps
          × IsEligible pattern gateway resolved_namespaces route l p)
  unfolding filter_matching_route
  found_iff route none = (λ e. absurd (true≢false e), λ (ps, p, l, e, _, _). absurd (ground arith))
  found_iff route (some qs) =
      let eligible = filter_matching_route_iff pattern gateway resolved_namespaces route in
      let some_found =
        is_empty_iff
          (filter_matching_route pattern gateway resolved_namespaces (some qs) route).0 in
      (
        λ e.
            let (l, m) = some_found.0 e in
            let (p, n, k) = (eligible qs l).0 m in (qs, p, l, refl, n, k),
        λ (ps, p, l, e, n, k). some_found.1 (
            let same : qs ≡ ps = (ground arith) in
            (l, (eligible qs l).1 (p, subst (Memᴰ p) (sym same) n, k))),
      )

  matched_iff : (route : Route) → (is_unmatched route ≡ false) ↔ HasListener route
  matched_iff route = found_iff route route.parents

  unmatched_iff : (route : Route) → (is_unmatched route ≡ true) ↔ ¬ HasListener route
  unmatched_iff route = (
    λ e h. true≢false (sym e ∙ (matched_iff route).1 h),
    λ n. elim (Bool-cases (is_unmatched route)) [
      | inl e ↦ e
      | inr e ↦ absurd (n ((matched_iff route).0 e))
    ],
  )

  -- `filter_matching_routes` parts the routes: one that has a listener is mapped to the listeners that
  -- the search for it finds, and any other is returned. A route has a listener if one of its parents
  -- leads to a listener of the gateway that admits the route. Either way the route's status is the
  -- one that the search set, or the route's own where it set none, and all else of it is as before.
  pub filter_matching_routes_iff :
      (routes : List Route)
      → ((m : RouteToListenersMapping)
          → Memᴰ m (filter_matching_routes pattern gateway resolved_namespaces routes).0 ↔ (
              (r : Route) × Memᴰ r routes
              × HasListener r
              × (m ≡ record { route = updated r; listeners = (search r).0 })))
        × ((u : Route)
            → Memᴰ u (filter_matching_routes pattern gateway resolved_namespaces routes).1
              ↔ ((r : Route) × Memᴰ r routes × ¬ HasListener r × (u ≡ updated r)))
  filter_matching_routes_iff routes =
      let (found, rest) = parted_lem routes in
      (
        λ m. (
          λ k. let (r, n, e, q) = (found m).0 k in (r, n, (matched_iff r).0 e, q),
          λ (r, n, h, q). (found m).1 (r, n, (matched_iff r).1 h, q),
        ),
        λ u. (
          λ k. let (r, n, e, q) = (rest u).0 k in (r, n, (unmatched_iff r).0 e, q),
          λ (r, n, h, q). (rest u).1 (r, n, (unmatched_iff r).1 h, q),
        ),
      )
