-- ===== src/References/Counted.antt =====
-- The invariant of the counters.
use kubvernor.Prelude.{
  ℕ, zero, suc, ◌+◌, ◌≤◌, Bool, true, false, Option, none, some, List, [], ◌∷◌, ◌≡◌, refl, arith,
  unwrap_or, Option-cases, inl, inr, All, ◌⊎◌, ◌∙◌, is_empty, Bool-cases, if◌then◌else◌, ltb,
  nat_eq, ◌&&◌, true≢false, sym, ap,
}
use kubvernor.Prelude.Maps.{Map, get-insert, get-remove}
use kubvernor.Prelude.Maps
use kubvernor.Prelude.Distinct.{Distinct, insert-All, remove-All, insert-Distinct, remove-Distinct}
use kubvernor.Keys.{ResourceKey, ResourceKey-discrete}
use kubvernor.References.Resolver.{
  Resolver, usize_max, release_all, retain_all, all_references, RouteToReferenceMapping,
  GatewayToRouteReferenceMapping, add_references_for_gateway, delete_references_for_gateway,
  get_reference,
}
use kubvernor.References.Counting.{
  occurs, mentions, total, occurs-all_references, is_unused, get-release_all, get-retain_all,
  get-with_parents, with_parents-Distinct, release_all-Distinct, retain_all-Distinct, total-insert,
  total-remove, total-remove_absent,
}

abbrev dec : Discrete ResourceKey
dec = ResourceKey-discrete

-- A counter of `n` references, which is there only if `n` is not 0.
abbrev pub counter : ℕ → Option ℕ
counter zero = none
counter (suc n) = some (suc n)

-- The counter of each key is the number of references to it, over all routes of all gateways, and
-- `extra` more, which nothing refers to any longer.
pub record Counted {R : Type 0} (extra : ResourceKey → ℕ) (r : Resolver R) : Type 0 where
  pub gateways_distinct : Distinct dec r.gateway_route_reference_mapping
  pub routes_distinct : All (λ e. Distinct dec e.1) r.gateway_route_reference_mapping
  pub parents_distinct : Distinct dec r.references.parents
  pub counted :
      (k : ResourceKey)
      → Maps.get dec k r.references.parents
        ≡ counter (total k r.gateway_route_reference_mapping + extra k)

-- Taking references away and adding references to a counter that counts them.
counter_moves :
    (k : ResourceKey) (old new : List ResourceKey) (p : Map ResourceKey ℕ) (n n' : ℕ)
    → Maps.get dec k p ≡ counter n
    → n' + occurs k old ≡ n + occurs k new
    → occurs k old ≤ n
    → (occurs k new ≡ 0) ⊎ (n' ≤ usize_max)
    → let q = Maps.get dec k (retain_all new (release_all old p)) in
      (if is_unused q then none else q) ≡ counter n'
counter_moves k old new p n n' e moves enough fits =
    ground (arith, get-release_all k old p, get-retain_all k new (release_all old p))

-- A reference whose last mention went away is forgotten, any other is kept.
abbrev pub forgotten : ℕ → ℕ → Bool
forgotten before after = ltb 0 before && nat_eq after 0

unused_moves :
    (k : ResourceKey) (old new : List ResourceKey) (p : Map ResourceKey ℕ) (n n' : ℕ)
    → Maps.get dec k p ≡ counter n
    → n' + occurs k old ≡ n + occurs k new
    → occurs k old ≤ n
    → (occurs k new ≡ 0) ⊎ (n' ≤ usize_max)
    → is_unused (Maps.get dec k (retain_all new (release_all old p))) ≡ forgotten n n'
unused_moves k old new p n n' e moves enough fits =
    ground (arith, get-release_all k old p, get-retain_all k new (release_all old p))

mentions-le-total :
    (k g : ResourceKey) (m : GatewayToRouteReferenceMapping)
    → mentions k (unwrap_or (Maps.get dec g m) []) ≤ total k m
unfolding Maps.get
mentions-le-total k g [] = omega arith
mentions-le-total k g ((j, routes) ∷ m) = ground (arith, mentions-le-total k g m)

is_empty-eq : (m : RouteToReferenceMapping) → is_empty m ≡ true → m ≡ []
is_empty-eq [] e = refl
is_empty-eq (x ∷ m) e = absurd (true≢false (sym e))

module _ {R : Type 0} {extra : ResourceKey → ℕ} (r : Resolver R) (c : Counted extra r)
    (g : ResourceKey) where
  open r use {gateway_route_reference_mapping as before}

  -- What the routes of the gateway referred to.
  abbrev old : List ResourceKey
  old = all_references (unwrap_or (Maps.get dec g before) [])

  enough : (k : ResourceKey) → occurs k old ≤ total k before + extra k
  enough k = omega (
    arith,
    mentions-le-total k g before,
    occurs-all_references k (unwrap_or (Maps.get dec g before) []),
  )

  module _ (new : RouteToReferenceMapping) (distinct : Distinct dec new)
      (fits : (k : ResourceKey)
        → total k (Maps.insert dec g new before) + extra k ≤ usize_max) where
    retained-Distinct :
        Distinct dec (retain_all (all_references new) (release_all old r.references.parents))
    retained-Distinct =
        retain_all-Distinct (all_references new) _ (release_all-Distinct old _ c.parents_distinct)

    moved :
        (k : ResourceKey)
        → total k (Maps.insert dec g new before) + extra k + occurs k old
          ≡ total k before + extra k + occurs k (all_references new)
    moved k = omega (
      arith,
      total-insert k g new before,
      occurs-all_references k (unwrap_or (Maps.get dec g before) []),
      occurs-all_references k new,
    )

    add_references_for_gateway-Counted : Counted extra (add_references_for_gateway g new r)
    unfolding add_references_for_gateway
    add_references_for_gateway-Counted = elim (Bool-cases (is_empty new)) [
      | inl e ↦ rw e c
      | inr e ↦ rw e (record {
        gateways_distinct = insert-Distinct dec g new before c.gateways_distinct;
        routes_distinct = insert-All dec (Distinct dec) g new before distinct c.routes_distinct;
        parents_distinct = with_parents-Distinct _ r.references retained-Distinct;
        counted = λ k.
            (get-with_parents k _ r.references retained-Distinct).0
            ∙ counter_moves k old (all_references new) r.references.parents _ _ (c.counted k)
                (moved k) (enough k) (inr (fits k));
      })
    ]

    kept_or_forgotten :
        is_empty new ≡ false
        → (k : ResourceKey)
        → get_reference k (add_references_for_gateway g new r) ≡ (
            if forgotten
              (total k before + extra k)
              (total k (Maps.insert dec g new before) + extra k)
            then none
            else get_reference k r)
    unfolding add_references_for_gateway get_reference
    kept_or_forgotten e k = rw (
      e,
      (get-with_parents k _ r.references retained-Distinct).1,
      unused_moves k old (all_references new) r.references.parents _ _ (c.counted k) (moved k)
          (enough k) (inr (fits k)),
    )

    -- Where the counters count, and no count would pass the largest `usize`, adding references for a
    -- gateway keeps the counters counting. A mapping with no route changes nothing at all. One with a
    -- route takes the place of what the gateway had and leaves the other gateways' mappings as they
    -- are, and a resolved reference is forgotten exactly if its count goes from above 0 to 0.
    pub add_references_for_gateway_lem :
        let r' = add_references_for_gateway g new r in
        Counted extra r'
        × (is_empty new ≡ true → r' ≡ r)
        × (is_empty new ≡ false
            → (h : ResourceKey)
            → Maps.get dec h r'.gateway_route_reference_mapping
              ≡ (elim (dec h g) [ yes _ ↦ some new | no _ ↦ Maps.get dec h before ]))
        × (is_empty new ≡ false
            → (k : ResourceKey)
            → get_reference k r' ≡ (
                if forgotten
                  (total k before + extra k)
                  (total k (Maps.insert dec g new before) + extra k)
                then none
                else get_reference k r))
    unfolding add_references_for_gateway
    add_references_for_gateway_lem = (
      add_references_for_gateway-Counted,
      λ e. rw e refl,
      λ e h. rw e (get-insert dec h g new before),
      kept_or_forgotten,
    )

  held :
      (k : ResourceKey) (routes : RouteToReferenceMapping)
      → Maps.get dec g before ≡ some routes
      → occurs k (all_references routes) ≤ total k before + extra k
  held k routes e = ground (arith, enough k)

  left :
      (k : ResourceKey) (routes : RouteToReferenceMapping)
      → Maps.get dec g before ≡ some routes
      → total k (Maps.remove dec g before) + extra k + occurs k (all_references routes)
        ≡ total k before + extra k + 0
  left k routes e =
      ground (arith, total-remove k g before c.gateways_distinct, occurs-all_references k routes)

  delete_references_for_gateway-Counted : Counted extra (delete_references_for_gateway g r)
  unfolding delete_references_for_gateway retain_all
  delete_references_for_gateway-Counted = elim (Option-cases (Maps.get dec g before)) [
    | inl e ↦ rw (e, delete_references_for_gateway) c
    | inr (routes, e) ↦
        let d = release_all-Distinct (all_references routes) _ c.parents_distinct in
        rw (e, delete_references_for_gateway)
          (record {
            gateways_distinct = remove-Distinct dec g before c.gateways_distinct;
            routes_distinct = remove-All dec (Distinct dec) g before c.routes_distinct;
            parents_distinct = with_parents-Distinct _ r.references d;
            counted = λ k.
                (get-with_parents k _ r.references d).0
                ∙ counter_moves k (all_references routes) [] r.references.parents _ _ (c.counted k)
                    (left k routes e) (held k routes e) (inl refl);
          })
  ]

  absent_removed :
      Maps.get dec g before ≡ none
      → (h : ResourceKey)
      → Maps.get dec h before ≡ (elim (dec h g) [ yes _ ↦ none | no _ ↦ Maps.get dec h before ])
  absent_removed e h =
      elim (dec h g)
        as (λ d. Maps.get dec h before ≡ (elim d [ yes _ ↦ none | no _ ↦ Maps.get dec h before ])) [
          | yes p ↦ ap (λ q. Maps.get dec q before) p ∙ e
          | no _ ↦ refl
        ]

  gateway_removed :
      (h : ResourceKey)
      → Maps.get dec h (delete_references_for_gateway g r).gateway_route_reference_mapping
        ≡ (elim (dec h g) [ yes _ ↦ none | no _ ↦ Maps.get dec h before ])
  unfolding delete_references_for_gateway
  gateway_removed h = elim (Option-cases (Maps.get dec g before)) [
    | inl e ↦ rw (e, delete_references_for_gateway) (absent_removed e h)
    | inr (routes, e) ↦ rw (e, delete_references_for_gateway) (get-remove dec h g before)
  ]

  total_removed :
      (k : ResourceKey)
      → total k (delete_references_for_gateway g r).gateway_route_reference_mapping
        ≡ total k (Maps.remove dec g before)
  unfolding delete_references_for_gateway
  total_removed k = elim (Option-cases (Maps.get dec g before)) [
    | inl e ↦ rw (e, delete_references_for_gateway) (sym (total-remove_absent k g before e))
    | inr (routes, e) ↦ rw (e, delete_references_for_gateway) refl
  ]

  -- Where the counters count, they still do after a gateway is deleted: the mapping of the gateway is
  -- gone and those of the others are as before, so the counter of each key is the count without the
  -- gateway's routes.
  pub delete_references_for_gateway_lem :
      let r' = delete_references_for_gateway g r in
      Counted extra r'
      × ((h : ResourceKey)
          → Maps.get dec h r'.gateway_route_reference_mapping
            ≡ (elim (dec h g) [ yes _ ↦ none | no _ ↦ Maps.get dec h before ]))
      × ((k : ResourceKey)
          → Maps.get dec k r'.references.parents
            ≡ counter (total k (Maps.remove dec g before) + extra k))
  delete_references_for_gateway_lem = (
    delete_references_for_gateway-Counted,
    gateway_removed,
    λ k.
        delete_references_for_gateway-Counted.counted k
        ∙ ap (λ n. counter (n + extra k)) (total_removed k),
  )

  -- When a gateway is deleted, the reference of a key is forgotten exactly if the key's counter went
  -- from above 0 to 0, and else reads as before.
  pub get_reference-delete_references_for_gateway :
      (k : ResourceKey)
      → get_reference k (delete_references_for_gateway g r) ≡ (
          if forgotten (total k before + extra k) (total k (Maps.remove dec g before) + extra k)
          then none
          else get_reference k r)
  unfolding delete_references_for_gateway get_reference retain_all
  get_reference-delete_references_for_gateway k = elim (Option-cases (Maps.get dec g before)) [
    | inl e ↦ rw (e, delete_references_for_gateway, total-remove_absent k g before e) (ground arith)
    | inr (routes, e) ↦
        let d = release_all-Distinct (all_references routes) _ c.parents_distinct in
        rw (
          e,
          delete_references_for_gateway,
          (get-with_parents k _ r.references d).1,
          unused_moves k (all_references routes) [] r.references.parents _ _ (c.counted k)
              (left k routes e) (held k routes e) (inl refl),
        )
  ]
