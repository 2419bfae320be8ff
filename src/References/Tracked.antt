-- ===== src/References/Tracked.antt =====
-- References that are resolved and not counted.
use kubvernor.Prelude.{
  ℕ, Bool, Option, none, List, [], ◌∷◌, ◌≡◌, ◌≢◌, arith, Option-cases, inl, inr, ◌⊎◌, ◌↔◌,
  unwrap_or, is_empty, Bool-cases,
}
use kubvernor.Prelude.Maps.{Map, get-insert, get-remove}
use kubvernor.Prelude.Maps
use kubvernor.Keys.{ResourceKey, ResourceKey-discrete}
use kubvernor.References.Resolver.{
  References, Resolver, RouteToReferenceMapping, get_reference, release_all, retain_all,
  with_parents, decremented, incremented, all_references, resources_to_delete,
  add_references_for_gateway, delete_references_for_gateway, delete_route_references,
}
use kubvernor.References.Counting.{
  get-with_parents, release_all-Distinct, retain_all-Distinct, get-decremented,
}
use kubvernor.References.Counted.{Counted}
use kubvernor.Prelude.Distinct.{Distinct}
use kubvernor.References.Updates.{check_reference_lem}
use kubvernor.References.Watch.{check_reference}

abbrev dec : Discrete ResourceKey
dec = ResourceKey-discrete

-- What is resolved has a counter, so that the loop looks it up again and a release forgets it.
abbrev pub Tracked : {R : Type 0} → Resolver R → Type 0
Tracked r =
    (k : ResourceKey) → Maps.get dec k r.references.parents ≡ none → get_reference k r ≡ none

release_all_keeps :
    (k : ResourceKey) (ks : List ResourceKey) (p : Map ResourceKey ℕ)
    → Maps.get dec k (release_all ks p) ≡ none
    → Maps.get dec k p ≡ none
unfolding release_all
release_all_keeps k [] p e = e
release_all_keeps k (j ∷ ks) p e =
    ground
      (arith, release_all_keeps k ks (decremented j (Maps.get dec j p) p), get-decremented k j p)

retain_all_keeps :
    (k : ResourceKey) (ks : List ResourceKey) (p : Map ResourceKey ℕ)
    → Maps.get dec k (retain_all ks p) ≡ none
    → Maps.get dec k p ≡ none
unfolding retain_all
retain_all_keeps k [] p e = e
retain_all_keeps k (j ∷ ks) p e =
    let n = incremented (Maps.get dec j p) in
    ground (arith, retain_all_keeps k ks (Maps.insert dec j n p), get-insert dec k j n p)

-- Counters that keep every key they had, written back, keep every resolved reference counted.
with_parents-Tracked :
    {R : Type 0} (k : ResourceKey) (p : Map ResourceKey ℕ) (r : References R)
    → Distinct dec p
    → (Maps.get dec k p ≡ none → Maps.get dec k r.parents ≡ none)
    → (Maps.get dec k r.parents ≡ none → Maps.get dec k r.resolved_references ≡ none)
    → Maps.get dec k (with_parents p r).parents ≡ none
    → Maps.get dec k (with_parents p r).resolved_references ≡ none
with_parents-Tracked k p r d kept tracked e = ground (arith, get-with_parents k p r d)

module _ {R : Type 0} {extra : ResourceKey → ℕ} (r : Resolver R) (c : Counted extra r)
    (t : Tracked r) where
  add_references_for_gateway-Tracked :
      (g : ResourceKey) (new : RouteToReferenceMapping)
      → Tracked (add_references_for_gateway g new r)
  unfolding add_references_for_gateway get_reference
  add_references_for_gateway-Tracked g new k = elim (Bool-cases (is_empty new)) [
    | inl e ↦ rw e (t k)
    | inr e ↦
        let old =
          all_references (unwrap_or (Maps.get dec g r.gateway_route_reference_mapping) []) in
        let d = release_all-Distinct old _ c.parents_distinct in
        rw e (
          with_parents-Tracked k _ r.references (retain_all-Distinct (all_references new) _ d)
            (λ n. release_all_keeps k old _ (retain_all_keeps k (all_references new) _ n)) (t k))
  ]

  delete_references_for_gateway-Tracked :
      (g : ResourceKey) → Tracked (delete_references_for_gateway g r)
  unfolding delete_references_for_gateway get_reference
  delete_references_for_gateway-Tracked g k =
      elim (Option-cases (Maps.get dec g r.gateway_route_reference_mapping)) [
        | inl e ↦ rw (e, delete_references_for_gateway) (t k)
        | inr (routes, e) ↦
            let d = release_all-Distinct (all_references routes) _ c.parents_distinct in
            rw (e, delete_references_for_gateway)
              (with_parents-Tracked k _ r.references d
                (release_all_keeps k (all_references routes) _) (t k))
      ]

  delete_route_references-Tracked :
      (route : ResourceKey) → Tracked (delete_route_references route r).0
  unfolding delete_route_references get_reference
  delete_route_references-Tracked route k =
      let ks = resources_to_delete route r.gateway_route_reference_mapping in
      with_parents-Tracked k _ r.references (release_all-Distinct ks _ c.parents_distinct)
        (release_all_keeps k ks _) (t k)

  check_reference-Tracked_iff :
      (same : R → R → Bool) (key : ResourceKey) (answer : Option R)
      → Tracked (check_reference same key answer r).0
        ↔ ((Maps.get dec key r.references.parents ≢ none) ⊎ (answer ≡ none))
  check_reference-Tracked_iff same key answer =
      let lem = check_reference_lem same key answer r c.gateways_distinct in
      (
        λ tracked. elim (Option-cases (Maps.get dec key r.references.parents)) [
          | inl e ↦ inr (ground (arith, tracked key, lem.2, lem.0 key))
          | inr (n, e) ↦ inl (λ absent. cc)
        ],
        λ may k e. ground (arith, lem.0 k, lem.2, t k),
      )

  -- Where every resolved reference has a counter, that stays so whatever is added or deleted; a
  -- look-up keeps it so for a key that has a counter, and for one that has none exactly if the answer
  -- is an error. So an answer that comes after its key was released leaves an object behind which
  -- has no counter.
  pub Tracked_lem :
      ((g : ResourceKey) (new : RouteToReferenceMapping)
        → Tracked (add_references_for_gateway g new r))
      × ((g : ResourceKey) → Tracked (delete_references_for_gateway g r))
      × ((route : ResourceKey) → Tracked (delete_route_references route r).0)
      × ((same : R → R → Bool) (key : ResourceKey) (answer : Option R)
          → Tracked (check_reference same key answer r).0
            ↔ ((Maps.get dec key r.references.parents ≢ none) ⊎ (answer ≡ none)))
  Tracked_lem = (
    add_references_for_gateway-Tracked, delete_references_for_gateway-Tracked,
    delete_route_references-Tracked, check_reference-Tracked_iff,
  )
