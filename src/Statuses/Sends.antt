-- ===== src/Statuses/Sends.antt =====
-- Which patches the handler sends for HTTP routes.
use mathlib.Core.List.{Memᴰ}
use mathlib.Core.List.Memᴰ
use kubvernor.Prelude.{
  String, Bool, true, Option, none, some, List, [], ◌∷◌, ◌++◌, filter_by, ◌≡◌, ◌↔◌, ◌⊎◌, inl, inr,
  refl, sym, ◌∙◌, ap, arith, mem-filter_by_iff,
}
use kubvernor.Keys.{grpc_route_key, ResourceKey, Meta, http_route_key}
use kubvernor.Routes.{Route}
use kubvernor.Storage.Locks.{KubeTypes, State, Result, ok}
use kubvernor.Storage.Refinement.{IsHealthy}
use kubvernor.Listeners.Gateways.{Gateway}
use kubvernor.Statuses.Kube.{Condition, Constants, KubeRoute, key_meta, with_objects}
use kubvernor.Statuses.Conditions.{
  attached_conditions, unresolved_conditions, non_attached_conditions,
}
use kubvernor.Statuses.Parents.{update_grpc_route_parents, update_http_route_parents}
use kubvernor.Statuses.Patches.{update_http_route_parents_lem, update_grpc_route_parents_ok}
use kubvernor.Statuses.Handler.{
  PatchContext, patch, patch_each, routes, only_http_routes, update_http_routes, update_grpc_routes,
  only_grpc_routes, update_grpc_attached_route_parents, update_grpc_unresolved_route_parents,
  update_grpc_non_attached_route_parents, update_http_attached_route_parents,
  update_http_unresolved_route_parents, update_http_non_attached_route_parents,
}

mem-append_iff :
    {A : Type 0} (xs ys zs : List A) (a : A)
    → Memᴰ a (xs ++ ys ++ zs) ↔ (Memᴰ a xs ⊎ (Memᴰ a ys ⊎ Memᴰ a zs))
mem-append_iff xs ys zs a = (
  λ m. elim (Memᴰ.append_cases (xs ++ ys) m) [
    | inl n ↦ elim (Memᴰ.append_cases xs n) [ inl k ↦ inl k | inr k ↦ inr (inl k) ]
    | inr n ↦ inr (inr n)
  ],
  λ o. elim o [
    | inl m ↦ Memᴰ.append_left zs (Memᴰ.append_left ys m)
    | inr (inl m) ↦ Memᴰ.append_left zs (Memᴰ.append_right xs m)
    | inr (inr m) ↦ Memᴰ.append_right (xs ++ ys) m
  ],
)

-- A route is among those, and a patch of what the update makes of it is sent.
abbrev Sent :
    (Meta → ResourceKey)
    → String
    → (Route → Result (Option KubeRoute))
    → List Route
    → PatchContext
    → Type 0
Sent key_of controller_name update rs p =
    (r : Route) × (y : KubeRoute) × Memᴰ r rs
    × (update r ≡ ok (some y))
    × (p ≡ record {
      resource_key = key_of (key_meta y.metadata);
      resource = y;
      controller_name = controller_name;
    })

abbrev SentAll :
    (Meta → ResourceKey) → String → (Route → Result (Option KubeRoute)) → List Route → Type 0
SentAll key_of controller_name update rs =
    (ps : List PatchContext) × (patch_each key_of controller_name update rs ≡ ok ps)
    × ((p : PatchContext) → Memᴰ p ps ↔ Sent key_of controller_name update rs p)

patch_each_lem :
    (key_of : Meta → ResourceKey) (controller_name : String)
    (update : Route → Result (Option KubeRoute))
    → ((r : Route) → (o : Option KubeRoute) × (update r ≡ ok o))
    → (rs : List Route) → SentAll key_of controller_name update rs
unfolding patch_each
patch_each_lem key_of controller_name update runs [] =
    ([], refl, λ p. (λ m. elim m [ ], λ (r, y, m, _, _). elim m [ ]))
patch_each_lem key_of controller_name update runs (r ∷ rs) =
    let (o, e) = runs r in turn o e (patch_each_lem key_of controller_name update runs rs)
  where
    turn :
        (o : Option KubeRoute)
        → update r ≡ ok o
        → SentAll key_of controller_name update rs
        → SentAll key_of controller_name update (r ∷ rs)
    turn none e (ps, f, sent) = (
      ps,
      rw (e, f) refl,
      λ p. (
        λ m. let (q, y, n, u, is) = (sent p).0 m in (q, y, Memᴰ.tail n, u, is),
        λ (q, y, m, u, is). elim m [
          | Memᴰ.head same ↦ absurd (let other = ap update same in ground arith)
          | Memᴰ.tail n ↦ (sent p).1 (q, y, n, u, is)
        ],
      ),
    )
    turn (some x) e (ps, f, sent) = (
      patch key_of controller_name (some x) ps,
      rw (e, f) refl,
      λ p. (
        λ m. elim m [
          | Memᴰ.head same ↦ (r, x, Memᴰ.head refl, e, same)
          | Memᴰ.tail n ↦ let (q, y, k, u, is) = (sent p).0 n in (q, y, Memᴰ.tail k, u, is)
        ],
        λ (q, y, m, u, is). elim m [
          | Memᴰ.head same ↦
              let other = ap update same in
              let made : y ≡ x = (ground arith) in
              Memᴰ.head (
                is
                ∙ ap
                    (λ (z : KubeRoute). record {
                      resource_key = key_of (key_meta z.metadata);
                      resource = z;
                      controller_name = controller_name;
                    })
                    made)
          | Memᴰ.tail n ↦ Memᴰ.tail ((sent p).1 (q, y, n, u, is))
        ],
      ),
    )

module _ {Uuid : Type 0} (c : Constants) (O : KubeTypes) (controller_name : String)
    (g : Gateway Uuid) where
  -- The conditions that a route of the gateway gets: from whether a listener has it, resolved or not, or
  -- none has it. The routes of listeners count only if they are of the right type.
  abbrev pub Written : (Route → Bool) → Route → List Condition → Type 0
  Written right_type r conditions =
      (Memᴰ r (routes g).0 × (right_type r ≡ true) × (conditions ≡ attached_conditions))
      ⊎ ((Memᴰ r (routes g).1
            × (right_type r ≡ true)
            × (conditions ≡ unresolved_conditions c r.resolution_status))
          ⊎ (Memᴰ r g.orphaned_routes
              × (conditions ≡ non_attached_conditions c r.resolution_status)))

  runs :
      (s : State (with_objects O))
      → IsHealthy s
      → (conditions : Route → List Condition) (r : Route)
      → (o : Option KubeRoute) × (update_http_route_parents controller_name g.resource_key O r
            (conditions r)
            s
          ≡ ok o)
  runs s h conditions r =
      let (o, e, _, _) =
        update_http_route_parents_lem controller_name g.resource_key O r (conditions r) s h in
      (o, e)

  -- With no lock poisoned, `update_http_routes` succeeds, and sends a patch exactly for each route that
  -- has conditions to be written and for which `update_http_route_parents` returns an HTTP route: the
  -- HTTP routes of listeners, and the routes of no listener, whether they are HTTP routes or not.
  pub update_http_routes_iff :
      (s : State (with_objects O))
      → IsHealthy s
      → (ps : List PatchContext) × (update_http_routes c O controller_name g s ≡ ok ps)
        × ((p : PatchContext)
            → Memᴰ p ps ↔ (
                (r : Route) × (conditions : List Condition) × (y : KubeRoute) × Written
                  only_http_routes r conditions
                × (update_http_route_parents controller_name g.resource_key O r conditions s
                    ≡ ok (some y))
                × (p ≡ record {
                  resource_key = http_route_key (key_meta y.metadata);
                  resource = y;
                  controller_name = controller_name;
                })))
  unfolding update_http_routes update_http_attached_route_parents
      update_http_unresolved_route_parents update_http_non_attached_route_parents
  update_http_routes_iff s h =
      let (taken, e, attached) =
        patch_each_lem http_route_key controller_name
          (λ r. update_http_attached_route_parents c O controller_name g r s)
          (runs s h (λ _. attached_conditions)) (filter_by only_http_routes (routes g).0) in
      let (refused, f, rejected) =
        patch_each_lem http_route_key controller_name
          (λ r. update_http_unresolved_route_parents c O controller_name g r s)
          (runs s h (λ r. unresolved_conditions c r.resolution_status))
          (filter_by only_http_routes (routes g).1) in
      let (orphans, k, orphaned) =
        patch_each_lem http_route_key controller_name
          (λ r. update_http_non_attached_route_parents c O controller_name g r s)
          (runs s h (λ r. non_attached_conditions c r.resolution_status)) g.orphaned_routes in
      (
        taken ++ refused ++ orphans,
        rw (e, f, k) refl,
        λ p. (
          λ m. elim ((mem-append_iff taken refused orphans p).0 m) [
            | inl n ↦
                let (r, y, at, u, is) = (attached p).0 n in
                let (k, right) = (mem-filter_by_iff r only_http_routes (routes g).0).0 at in
                (r, attached_conditions, y, inl (k, right, refl), u, is)
            | inr (inl n) ↦
                let (r, y, at, u, is) = (rejected p).0 n in
                let (k, right) = (mem-filter_by_iff r only_http_routes (routes g).1).0 at in
                (
                  r,
                  unresolved_conditions c r.resolution_status,
                  y,
                  inr (inl (k, right, refl)),
                  u,
                  is,
                )
            | inr (inr n) ↦
                let (r, y, at, u, is) = (orphaned p).0 n in
                (r, non_attached_conditions c r.resolution_status, y, inr (inr (at, refl)), u, is)
          ],
          λ (r, conditions, y, written, u, is).
              (mem-append_iff taken refused orphans p).1 (elim written [
                | inl (m, right, same) ↦
                    let member = (mem-filter_by_iff r only_http_routes (routes g).0).1 (m, right) in
                    inl ((attached p).1 (r, y, member, rw (sym same) u, is))
                | inr (inl (m, right, same)) ↦
                    let member = (mem-filter_by_iff r only_http_routes (routes g).1).1 (m, right) in
                    inr (inl ((rejected p).1 (r, y, member, rw (sym same) u, is)))
                | inr (inr (m, same)) ↦ inr (inr ((orphaned p).1 (r, y, m, rw (sym same) u, is)))
              ]),
        ),
      )

  -- With no lock poisoned, `update_grpc_routes` succeeds.
  pub update_grpc_routes_ok :
      (s : State (with_objects O))
      → IsHealthy s
      → (ps : List PatchContext) × (update_grpc_routes c O controller_name g s ≡ ok ps)
  unfolding update_grpc_routes update_grpc_attached_route_parents
      update_grpc_unresolved_route_parents update_grpc_non_attached_route_parents
  update_grpc_routes_ok s h =
      let sent = λ (conditions : Route → List Condition) (rs : List Route).
        patch_each_lem grpc_route_key controller_name
          (λ r. update_grpc_route_parents controller_name g.resource_key O r (conditions r) s)
          (λ r. update_grpc_route_parents_ok controller_name g.resource_key O r (conditions r) s h)
          rs in
      let (taken, e, _) =
        sent (λ _. attached_conditions) (filter_by only_grpc_routes (routes g).0) in
      let (refused, f, _) =
        sent (λ r. unresolved_conditions c r.resolution_status)
          (filter_by only_grpc_routes (routes g).1) in
      let (orphans, k, _) =
        sent (λ r. non_attached_conditions c r.resolution_status) g.orphaned_routes in
      (taken ++ refused ++ orphans, rw (e, f, k) refl)
