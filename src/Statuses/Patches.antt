-- ===== src/Statuses/Patches.antt =====
-- Which routes the handler patches, and with what.
use mathlib.Core.List.{Memᴰ}
use kubvernor.Prelude.{
  String, Bool, true, false, Option, none, some, List, [], ◌∷◌, unwrap_or, ◌≡◌, inl, inr, refl, sym,
  ◌∙◌, ap, arith, Option-cases,
}
use kubvernor.Keys.{ResourceKey}
use kubvernor.Routes.{Route}
use kubvernor.Storage.Locks.{KubeTypes, State, ok}
use kubvernor.Storage.Spec.{view}
use kubvernor.Storage.Refinement.{IsHealthy}
use kubvernor.Storage.Attachments.{get_http_routes_attached_iff, get_grpc_routes_attached_iff}
use kubvernor.Statuses.Kube.{Condition, KubeRoute, with_objects}
use kubvernor.Statuses.Parents.{
  update_grpc_route_parents, find, is_route, with_parents, updated, update_http_route_parents,
}

-- What a search finds is in the list and passes the test; it finds nothing if nothing does.
abbrev Searched : (KubeRoute → Bool) → List KubeRoute → Option KubeRoute → Type 0
Searched p xs o =
    ((x : KubeRoute) → o ≡ some x → Memᴰ x xs × (p x ≡ true))
    × (o ≡ none → (x : KubeRoute) → Memᴰ x xs → p x ≡ false)

find_lem : (p : KubeRoute → Bool) (xs : List KubeRoute) → Searched p xs (find p xs)
unfolding find
find_lem p [] = (λ x e. absurd (ground arith), λ _ x m. elim m [ ])
find_lem p (y ∷ ys) = turn (p y) refl (find_lem p ys)
  where
    turn : (b : Bool) → p y ≡ b → Searched p ys (find p ys) → Searched p (y ∷ ys) (find p (y ∷ ys))
    turn true e (found, absent) = (
      λ x q. let same : y ≡ x = (ground arith) in (Memᴰ.head (sym same), ap p (sym same) ∙ e),
      λ q. absurd (ground arith),
    )
    turn false e (found, absent) = (
      λ x q. let (m, h) = found x (ground arith) in (Memᴰ.tail m, h),
      λ q x m. elim m [ Memᴰ.head same ↦ ap p same ∙ e | Memᴰ.tail n ↦ absent (ground arith) x n ],
    )

module _ (controller_name : String) (gateway_id : ResourceKey) (O : KubeTypes) (route : Route)
    (conditions : List Condition) where
  updated_lem :
      (o : Option (List KubeRoute))
      → ((y : KubeRoute)
          → updated controller_name gateway_id conditions route o ≡ some y
          → (x : KubeRoute) × Memᴰ x (unwrap_or o [])
            × (is_route route x ≡ true)
            × (y ≡ with_parents controller_name gateway_id conditions x))
        × (updated controller_name gateway_id conditions route o ≡ none
            → (x : KubeRoute) → Memᴰ x (unwrap_or o [])
            → is_route route x ≡ false)
  updated_lem none = (λ y e. absurd (ground arith), λ _ x m. elim m [ ])
  updated_lem (some xs) =
      let (found, absent) = find_lem (is_route route) xs in
      elim (Option-cases (find (is_route route) xs)) [
        | inl e ↦ (λ y q. absurd (ground arith), λ _. absent e)
        | inr (x, e) ↦
            (λ y q. let (m, h) = found x e in (x, m, h, ground arith), λ q. absurd (ground arith))
      ]

  module _ (s : State (with_objects O)) (h : IsHealthy s) where
    -- With no lock poisoned, `update_http_route_parents` succeeds. A route that it returns is an HTTP
    -- route, stored and attached to the gateway, of the route's name and namespace, with its new status;
    -- it returns none only if there is no such HTTP route.
    pub update_http_route_parents_lem :
        (o : Option KubeRoute) × (update_http_route_parents controller_name gateway_id O route
            conditions s
          ≡ ok o)
        × ((y : KubeRoute)
            → o ≡ some y
            → (k : ResourceKey) × (x : KubeRoute) × ((view s).attached gateway_id k ≡ true)
              × ((view s).http_route k ≡ some x)
              × (is_route route x ≡ true)
              × (y ≡ with_parents controller_name gateway_id conditions x))
        × (o ≡ none
            → (k : ResourceKey) (x : KubeRoute) → (view s).attached gateway_id k ≡ true
            → (view s).http_route k ≡ some x
            → is_route route x ≡ false)
    unfolding update_http_route_parents
    update_http_route_parents_lem =
        let (found, e, _, held) = get_http_routes_attached_iff s h gateway_id in
        let (some_found, none_found) = updated_lem found in
        (
          updated controller_name gateway_id conditions route found,
          rw e refl,
          λ y q.
              let (x, m, is, same) = some_found y q in
              let (k, at, stored) = (held x).0 m in (k, x, at, stored, is, same),
          λ q k x at stored. none_found q x ((held x).1 (k, at, stored)),
        )

    -- With no lock poisoned, `update_grpc_route_parents` succeeds.
    pub update_grpc_route_parents_ok :
        (o : Option KubeRoute) × (update_grpc_route_parents controller_name gateway_id O route
            conditions s
          ≡ ok o)
    unfolding update_grpc_route_parents
    update_grpc_route_parents_ok =
        let (found, e, _, _) = get_grpc_routes_attached_iff s h gateway_id in
        (updated controller_name gateway_id conditions route found, rw e refl)
