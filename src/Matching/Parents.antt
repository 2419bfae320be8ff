-- ===== src/Matching/Parents.antt =====
-- Which gateways the parents of a route lead to.
use mathlib.Core.List.{Memᴰ}
use kubvernor.Prelude.{
  Option, none, some, List, [], ◌∷◌, filter_map, unwrap_or, ◌⊎◌, ◌≡◌, ◌↔◌, refl, arith,
}
use kubvernor.Prelude.Maps
use kubvernor.Prelude.Distinct.{mem-filter_map_iff}
use kubvernor.Keys.{
  ResourceKey-discrete, Meta, ParentReference, route_ref_key, gateway_key, default_group_name,
  default_kind_name, default_namespace_name,
}
use kubvernor.Storage.Spec.{view}
use kubvernor.Storage.Locks.{KubeTypes, State, ok}
use kubvernor.Storage.Objects.{get_gateway}
use kubvernor.Storage.Refinement.{IsHealthy}
use kubvernor.Matching.Matcher.{filter_matching_gateways}

module _ {O : KubeTypes} (meta_of : O.Gateway → Meta) (s : State O) where
  -- What is stored under the key of a gateway that a parent names by its whole key.
  abbrev stored_parent : ParentReference × Option O.Gateway → Option O.Gateway
  stored_parent (parent, none) = none
  stored_parent (parent, some gateway) =
      let key = gateway_key (meta_of gateway) in
      elim (ResourceKey-discrete (route_ref_key parent key.namespace).resource_key key) [
        | yes _ ↦ Maps.get ResourceKey-discrete key s.gateways.value
        | no _ ↦ none
      ]

  matched_gateways :
      (ps : List (ParentReference × Option O.Gateway))
      → IsHealthy s
      → filter_matching_gateways O meta_of s ps ≡ ok (filter_map stored_parent ps)
  unfolding filter_matching_gateways get_gateway
  matched_gateways [] h = refl
  matched_gateways ((parent, none) ∷ ps) h = matched_gateways ps h
  matched_gateways ((parent, some gateway) ∷ ps) h =
      ground (arith, matched_gateways ps h, h.gateways_healthy)

  -- A parent reference that means a gateway: its group and kind are those of a gateway or left out,
  -- its name is the gateway's, and its namespace is the gateway's or left out.
  abbrev pub MeansGateway : ParentReference → Meta → Type 0
  MeansGateway p g =
      ((p.group ≡ none) ⊎ (p.group ≡ some default_group_name))
      × ((p.kind ≡ none) ⊎ (p.kind ≡ some default_kind_name))
      × (p.name ≡ g.name_any)
      × ((p.namespace ≡ none) ⊎ (p.namespace ≡ some (unwrap_or g.namespace default_namespace_name)))

  route_ref_key-MeansGateway_iff :
      (p : ParentReference) (g : Meta)
      → ((route_ref_key p (gateway_key g).namespace).resource_key ≡ gateway_key g)
        ↔ MeansGateway p g
  unfolding gateway_key route_ref_key
  route_ref_key-MeansGateway_iff p g = ground arith

  stored_parent_iff :
      (parent : ParentReference) (gateway x : O.Gateway)
      → (stored_parent (parent, some gateway) ≡ some x) ↔ (
          MeansGateway parent (meta_of gateway)
          × ((view s).gateway (gateway_key (meta_of gateway)) ≡ some x))
  stored_parent_iff parent gateway x =
      let key = gateway_key (meta_of gateway) in
      let means = route_ref_key-MeansGateway_iff parent (meta_of gateway) in
      elim (ResourceKey-discrete (route_ref_key parent key.namespace).resource_key key)
        as (λ d.
          ((elim d [ yes _ ↦ Maps.get ResourceKey-discrete key s.gateways.value | no _ ↦ none ])
            ≡ some x)
          ↔ (MeansGateway parent (meta_of gateway) × ((view s).gateway key ≡ some x))) [
            | yes q ↦ (λ e. (means.0 q, e), λ (_, e). e)
            | no q ↦ (λ e. absurd (ground arith), λ (m, _). absurd (q (means.1 m)))
          ]

  -- With no lock poisoned, `filter_matching_gateways` succeeds, and finds what is stored under the keys
  -- of those resolved gateways that their parent reference means. A reference without a namespace
  -- means the gateway in whatever namespace it lies, not in the route's alone.
  pub filter_matching_gateways_iff :
      (ps : List (ParentReference × Option O.Gateway))
      → IsHealthy s
      → (found : List O.Gateway) × (filter_matching_gateways O meta_of s ps ≡ ok found)
        × ((x : O.Gateway)
            → Memᴰ x found ↔ (
                (p : ParentReference) × (g : O.Gateway) × Memᴰ (p, some g) ps
                × MeansGateway p (meta_of g)
                × ((view s).gateway (gateway_key (meta_of g)) ≡ some x)))
  filter_matching_gateways_iff ps h = (
    filter_map stored_parent ps,
    matched_gateways ps h,
    λ x.
        let found = mem-filter_map_iff stored_parent x ps in
        (
          λ m. let (q, n, e) = found.0 m in of_pair x q n e,
          λ (p, g, n, means, e). found.1 ((p, some g), n, (stored_parent_iff p g x).1 (means, e)),
        ),
  )
    where
      of_pair :
          (x : O.Gateway) (q : ParentReference × Option O.Gateway)
          → Memᴰ q ps
          → stored_parent q ≡ some x
          → (p : ParentReference) × (g : O.Gateway) × Memᴰ (p, some g) ps
            × MeansGateway p (meta_of g)
            × ((view s).gateway (gateway_key (meta_of g)) ≡ some x)
      of_pair x (p, none) n e = absurd (ground arith)
      of_pair x (p, some g) n e =
          let (means, stored) = (stored_parent_iff p g x).0 e in (p, g, n, means, stored)
