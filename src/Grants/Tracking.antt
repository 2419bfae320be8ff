-- ===== src/Grants/Tracking.antt =====
-- Which references are tracked, and when gateways are told of a change.
use kubvernor.Prelude.{
  String, true, false, false≢true, ◌||◌, Option, List, [], ◌∷◌, ◌++◌, filter_by, is_empty, ◌≡◌, ◌↔◌,
  ◌⊎◌, inl, inr, refl, arith,
}
use kubvernor.Prelude.Sets
use kubvernor.Prelude.Sets.{contains-union, contains-difference}
use mathlib.Core.Logic.Iff
use kubvernor.Prelude.Distinct.{mem-contains_iff}
use kubvernor.Grants.References.{IsReferenced, mem-search_references_iff}
use kubvernor.Keys.{ResourceKey}
use kubvernor.Routes.{Route}
use kubvernor.Listeners.Gateways.{Gateway}
use kubvernor.Grants.Resolver.{
  Grant, GrantsResolver, ReferenceGrantRef, ReferenceGrantRef-discrete, search_references,
  add_references_by_gateway, delete_references_by_gateway, resolve_internal, is_valid, configured,
}

abbrev dec : Discrete ReferenceGrantRef
dec = ReferenceGrantRef-discrete

both_iff : {P Q P' Q' : Type 0} → (P ↔ P') → (Q ↔ Q') → (P ⊎ Q) ↔ (P' ⊎ Q')
both_iff e f = (
  λ o. elim o [ inl p ↦ inl (e.0 p) | inr q ↦ inr (f.0 q) ],
  λ o. elim o [ inl p ↦ inl (e.1 p) | inr q ↦ inr (f.1 q) ],
)

contains-union_iff :
    (x : ReferenceGrantRef) (xs ys : List ReferenceGrantRef)
    → (Sets.contains dec x (Sets.union dec xs ys) ≡ true)
      ↔ ((Sets.contains dec x xs ≡ true) ⊎ (Sets.contains dec x ys ≡ true))
contains-union_iff x xs ys = ground (arith, contains-union dec x xs ys)

contains-difference_iff :
    (x : ReferenceGrantRef) (xs ys : List ReferenceGrantRef)
    → (Sets.contains dec x (Sets.difference dec xs ys) ≡ true)
      ↔ ((Sets.contains dec x xs ≡ true) × ¬ (Sets.contains dec x ys ≡ true))
contains-difference_iff x xs ys = ground (arith, contains-difference dec x xs ys)

-- Adding a gateway tracks, beside what was tracked, exactly the references of the routes that are
-- linked to it to their backends that are not resolved yet, inference pools apart, and those of the
-- gateway to the certificates of its secured listeners. Deleting it later stops the tracking of the
-- same kinds of references, for the routes that are linked to it then, and of no others: what only a
-- route that is no longer linked referred to stays tracked.
pub add_references_by_gateway_iff :
    {Uuid : Type 0} (linked_routes linked_later : ResourceKey → List Route) (g : Gateway Uuid)
    (r : GrantsResolver) (x : ReferenceGrantRef)
    → let added = add_references_by_gateway linked_routes g r in
      let deleted = delete_references_by_gateway linked_later g added in
      ((Sets.contains dec x added.references ≡ true) ↔ (
        (Sets.contains dec x r.references ≡ true)
        ⊎ IsReferenced (linked_routes g.resource_key) g x))
      × ((Sets.contains dec x deleted.references ≡ true) ↔ (
          ((Sets.contains dec x r.references ≡ true)
            ⊎ IsReferenced (linked_routes g.resource_key) g x)
          × ¬ IsReferenced (linked_later g.resource_key) g x))
unfolding add_references_by_gateway delete_references_by_gateway
add_references_by_gateway_iff linked_routes linked_later g r x =
    let own = search_references linked_routes g in
    let gone = search_references linked_later g in
    let added = Iff.trans (contains-union_iff x r.references own) (
      both_iff (λ h. h, λ h. h)
        (Iff.trans (Iff.symm (mem-contains_iff dec x own))
          (mem-search_references_iff linked_routes g x))) in
    let is_gone =
      Iff.trans (Iff.symm (mem-contains_iff dec x gone))
        (mem-search_references_iff linked_later g x) in
    let kept = contains-difference_iff x (Sets.union dec r.references own) gone in
    (
      added,
      (
        λ e. let (m, out) = kept.0 e in (added.0 m, λ h. out (is_gone.1 h)),
        λ (m, out). kept.1 (added.1 m, λ e. out (is_gone.0 e)),
      ),
    )

contains-append :
    (x : ReferenceGrantRef) (xs ys : List ReferenceGrantRef)
    → Sets.contains dec x (xs ++ ys) ≡ (Sets.contains dec x xs || Sets.contains dec x ys)
unfolding Sets.contains
contains-append x [] ys = refl
contains-append x (y ∷ xs) ys = ground (arith, contains-append x xs ys)

nothing_contained_iff :
    (xs : List ReferenceGrantRef)
    → (is_empty xs ≡ true) ↔ ((x : ReferenceGrantRef) → Sets.contains dec x xs ≡ false)
unfolding Sets.contains
nothing_contained_iff [] = (λ _ x. refl, λ _. refl)
nothing_contained_iff (y ∷ ys) = (λ e. absurd (false≢true e), λ h. absurd (ground (arith, h y)))

-- A turn of the resolver sends requests exactly if the set of allowed references changes.
pub resolve_internal-eq-nil_iff :
    (list_grants : ReferenceGrantRef → String → Option (List Grant)) (r : GrantsResolver)
    → let (r', requests) = resolve_internal list_grants r in
      (requests ≡ []) ↔ (
        (x : ReferenceGrantRef)
        → Sets.contains dec x r'.resolved_reference_grants
          ≡ Sets.contains dec x r.resolved_reference_grants)
unfolding resolve_internal
resolve_internal-eq-nil_iff list_grants r =
    let allowed = filter_by (is_valid (configured list_grants r.references)) r.references in
    let old = r.resolved_reference_grants in
    let added = Sets.difference dec allowed old in
    let removed = Sets.difference dec old allowed in
    let none_changed = nothing_contained_iff (added ++ removed) in
    (
      λ e x. ground (
        arith,
        none_changed.0 (ground arith) x,
        contains-append x added removed,
        contains-difference dec x allowed old,
        contains-difference dec x old allowed,
      ),
      λ h.
          let empty : is_empty (added ++ removed) ≡ true = none_changed.1 (λ x. ground (
            arith,
            h x,
            contains-append x added removed,
            contains-difference dec x allowed old,
            contains-difference dec x old allowed,
          )) in
          rw empty refl,
    )
