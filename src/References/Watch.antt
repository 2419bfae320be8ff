-- ===== src/References/Watch.antt =====
-- The loop that looks references up and tells who is concerned: `add_resolved_reference`,
-- `remove_resolved_reference`, the body of `resolve` and `update_gateways`
-- (kubvernor-controller/src/common/references_resolver/multi_references_resolver.rs). `same` stands for
-- the equality of two objects whose metadata is reset.
use kubvernor.Prelude.{Bool, true, false, Option, none, some, List, [], ◌∷◌, any, if◌then◌else◌}
use kubvernor.Prelude.Maps.{Map, is_some, keys}
use kubvernor.Prelude.Maps
use kubvernor.Prelude.Sets
use kubvernor.Keys.{ResourceKey, ResourceKey-discrete}
use kubvernor.References.Resolver.{
  References, Resolver, RouteToReferenceMapping, GatewayToRouteReferenceMapping,
}

abbrev dec : Discrete ResourceKey
dec = ResourceKey-discrete

-- The two requests of `ReferenceValidateRequest` that `update_gateways` sends.
pub data UpdateRequest : Type 0 where
  updated_gateways : ResourceKey → List ResourceKey → UpdateRequest
  updated_routes : ResourceKey → List ResourceKey → UpdateRequest

-- Whether a route of a gateway refers to the key.
abbrev pub refers : ResourceKey → RouteToReferenceMapping → Bool
refers key routes = any (λ e. Sets.contains dec key e.1) routes

unfoldable pub concerned : ResourceKey → GatewayToRouteReferenceMapping → List ResourceKey
concerned key [] = []
concerned key ((gateway, routes) ∷ m) =
    let rest = concerned key m in if refers key routes then gateway ∷ rest else rest

unfoldable pub changed_routes : ResourceKey → GatewayToRouteReferenceMapping → List ResourceKey
changed_routes key [] = []
changed_routes key ((gateway, routes) ∷ m) =
    let rest = changed_routes key m in
    if refers key routes then Sets.union dec rest (keys routes) else rest

module _ {R : Type 0} (same : R → R → Bool) where
  unfoldable pub add_resolved_reference : ResourceKey → R → References R → References R × Bool
  add_resolved_reference key reference r = elim (Maps.get dec key r.resolved_references) [
    | none ↦ (
      record r { resolved_references = Maps.insert dec key reference r.resolved_references },
      true,
    )
    | some f ↦ if same f reference then (r, false) else (
      record r { resolved_references = Maps.insert dec key reference r.resolved_references },
      true,
    )
  ]

  unfoldable pub remove_resolved_reference : ResourceKey → References R → References R × Bool
  remove_resolved_reference key r = (
    record r { resolved_references = Maps.remove dec key r.resolved_references },
    is_some (Maps.get dec key r.resolved_references),
  )

  -- What the answer of the API server does to the references; an error is `none`.
  unfoldable pub store_answer : ResourceKey → Option R → References R → References R × Bool
  unfolding add_resolved_reference remove_resolved_reference
  store_answer key none r = remove_resolved_reference key r
  store_answer key (some reference) r = add_resolved_reference key reference r

  unfoldable pub update_gateways : ResourceKey → Resolver R → List UpdateRequest
  unfolding concerned changed_routes
  update_gateways key r =
      let m = r.gateway_route_reference_mapping in
      updated_gateways key (concerned key m) ∷ updated_routes key (changed_routes key m) ∷ []

  -- One task of `resolve`: the state that it leaves and the requests that it sends.
  unfoldable pub check_reference :
      ResourceKey → Option R → Resolver R → Resolver R × List UpdateRequest
  unfolding store_answer update_gateways
  check_reference key answer r =
      let (references, changed) = store_answer key answer r.references in
      let r' = record r { references = references } in
      (r', if changed then update_gateways key r' else [])
