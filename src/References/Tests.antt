-- ===== src/References/Tests.antt =====
-- The resolver of references, run on two gateways that share a route.
use kubvernor.Prelude.{
  ℕ, is_empty, true, false, ◌+◌, ◌-◌, ◌≤◌, Bool, Option, none, some, List, [], ◌∷◌, nat_eq, ◌≡◌,
  ◌≢◌, ◌↔◌, ◌⊎◌, refl, arith, any, ◌&&◌, if◌then◌else◌,
}
use kubvernor.Prelude.Maps.{Map, keys, contains_key}
use kubvernor.Prelude.Maps
use kubvernor.Prelude.Sets
use kubvernor.Prelude.Distinct.{Distinct, test_found}
use kubvernor.Keys.{ResourceKey, ResourceKey-discrete, new_key}
use kubvernor.References.Resolver.{
  Resolver, RouteToReferenceMapping, usize_max, get_reference, add_references_for_gateway,
  delete_references_for_gateway, delete_route_references,
}
use kubvernor.References.Counting.{total}
use kubvernor.References.Counted.{
  Counted, counter, add_references_for_gateway_lem, delete_references_for_gateway_lem,
  get_reference-delete_references_for_gateway, forgotten,
}
use kubvernor.References.Release.{
  lost, delete_route_references-Counted, delete_route_references-affected,
}
use kubvernor.References.Watch.{check_reference, refers, updated_gateways, updated_routes}
use kubvernor.References.Updates.{check_reference_lem, answered, differs}
use kubvernor.References.Tracked.{Tracked, Tracked_lem}

abbrev dec : Discrete ResourceKey
dec = ResourceKey-discrete

abbrev secret : ResourceKey
secret = new_key "secret"

abbrev shared_route : ResourceKey
shared_route = new_key "route"

abbrev east : ResourceKey
east = new_key "east"

abbrev west : ResourceKey
west = new_key "west"

abbrev secret_of_route : RouteToReferenceMapping
secret_of_route = (shared_route, secret ∷ []) ∷ []

-- Two gateways with one route, which refers to one object.
abbrev two_gateways : Resolver ℕ
two_gateways = record {
  gateway_route_reference_mapping = (east, secret_of_route) ∷ (west, secret_of_route) ∷ [];
  references = record { parents = (secret, 2) ∷ []; resolved_references = (secret, 7) ∷ [] };
}

abbrev no_gateway : Resolver ℕ
no_gateway = record {
  gateway_route_reference_mapping = [];
  references = record { parents = []; resolved_references = [] };
}

both_added :
    add_references_for_gateway west secret_of_route
      (add_references_for_gateway east secret_of_route no_gateway)
    ≡ record two_gateways {
      references = record { parents = (secret, 2) ∷ []; resolved_references = [] };
    }
unfolding add_references_for_gateway Maps.get Maps.insert new_key ResourceKey-discrete
both_added = refl

two_gateways-Counted : Counted (λ _. 0) two_gateways
unfolding Maps.get new_key ResourceKey-discrete
two_gateways-Counted = record {
  gateways_distinct = (refl, (refl, tt));
  routes_distinct = ((refl, tt), ((refl, tt), tt));
  parents_distinct = (refl, tt);
  counted = λ k. ground arith;
}

two_gateways-Tracked : Tracked two_gateways
unfolding Maps.get get_reference
two_gateways-Tracked k e = ground arith

third_secret-Distinct : Distinct dec secret_of_route
unfolding Maps.get
third_secret-Distinct = (refl, tt)

third_gateway_fits :
    (k : ResourceKey)
    → total k (
          Maps.insert dec
            (new_key "third")
            secret_of_route
            two_gateways.gateway_route_reference_mapping)
        + 0
      ≤ usize_max
unfolding Maps.insert new_key ResourceKey-discrete
third_gateway_fits k = ground arith

abbrev third : ResourceKey
third = new_key "third"

add_references_for_gateway_example :
    let before = two_gateways.gateway_route_reference_mapping in
    let r' = add_references_for_gateway third secret_of_route two_gateways in
    Counted (λ _. 0) r'
    × (is_empty secret_of_route ≡ true → r' ≡ two_gateways)
    × (is_empty secret_of_route ≡ false
        → (h : ResourceKey)
        → Maps.get dec h r'.gateway_route_reference_mapping
          ≡ (elim (dec h third) [ yes _ ↦ some secret_of_route | no _ ↦ Maps.get dec h before ]))
    × (is_empty secret_of_route ≡ false
        → (k : ResourceKey)
        → get_reference k r' ≡ (
            if forgotten
              (total k before + 0)
              (total k (Maps.insert dec third secret_of_route before) + 0)
            then none
            else get_reference k two_gateways))
add_references_for_gateway_example =
    add_references_for_gateway_lem two_gateways two_gateways-Counted third secret_of_route
      third_secret-Distinct third_gateway_fits

delete_references_for_gateway_example :
    let before = two_gateways.gateway_route_reference_mapping in
    let r' = delete_references_for_gateway east two_gateways in
    Counted (λ _. 0) r'
    × ((h : ResourceKey)
        → Maps.get dec h r'.gateway_route_reference_mapping
          ≡ (elim (dec h east) [ yes _ ↦ none | no _ ↦ Maps.get dec h before ]))
    × ((k : ResourceKey)
        → Maps.get dec k r'.references.parents
          ≡ counter (total k (Maps.remove dec east before) + 0))
delete_references_for_gateway_example =
    delete_references_for_gateway_lem two_gateways two_gateways-Counted east

get_reference-delete_references_for_gateway_example :
    get_reference secret (delete_references_for_gateway east two_gateways) ≡ (
      if forgotten
        (total secret two_gateways.gateway_route_reference_mapping + 0)
        (total secret (Maps.remove dec east two_gateways.gateway_route_reference_mapping) + 0)
      then none
      else get_reference secret two_gateways)
get_reference-delete_references_for_gateway_example =
    get_reference-delete_references_for_gateway two_gateways two_gateways-Counted east secret

delete_route_references-Counted_example :
    Counted
      (λ k. 0 + (lost k shared_route two_gateways.gateway_route_reference_mapping - 1))
      (delete_route_references shared_route two_gateways).0
delete_route_references-Counted_example =
    delete_route_references-Counted two_gateways two_gateways-Counted shared_route

delete_route_references-affected_example :
    Sets.contains dec west (delete_route_references shared_route two_gateways).1
    ≡ test_found
        (contains_key dec shared_route)
        (Maps.get dec west two_gateways.gateway_route_reference_mapping)
delete_route_references-affected_example =
    delete_route_references-affected two_gateways two_gateways-Counted shared_route west

two_gateways-Distinct : Distinct dec two_gateways.gateway_route_reference_mapping
unfolding Maps.get new_key ResourceKey-discrete
two_gateways-Distinct = (refl, (refl, tt))

check_reference_example :
    let (r', requests) = check_reference nat_eq secret (some 8) two_gateways in
    let old = get_reference secret two_gateways in
    let before = two_gateways.gateway_route_reference_mapping in
    ((q : ResourceKey)
      → get_reference q r' ≡ (elim (dec q secret) [
        | yes _ ↦ answered nat_eq (some 8) old
        | no _ ↦ get_reference q two_gateways
      ]))
    × (r'.gateway_route_reference_mapping ≡ before)
    × (r'.references.parents ≡ two_gateways.references.parents)
    × ((gateways : List ResourceKey) × (routes : List ResourceKey) × (requests ≡ (
          if differs nat_eq (some 8) old
          then updated_gateways secret gateways ∷ updated_routes secret routes ∷ []
          else []))
        × ((g : ResourceKey)
            → Sets.contains dec g gateways ≡ test_found (refers secret) (Maps.get dec g before))
        × ((q : ResourceKey)
            → Sets.contains dec q routes
              ≡ any (λ e. refers secret e.1 && Sets.contains dec q (keys e.1)) before))
check_reference_example =
    check_reference_lem nat_eq secret (some 8) two_gateways two_gateways-Distinct

Tracked_example :
    ((g : ResourceKey) (new : RouteToReferenceMapping)
      → Tracked (add_references_for_gateway g new two_gateways))
    × ((g : ResourceKey) → Tracked (delete_references_for_gateway g two_gateways))
    × ((route : ResourceKey) → Tracked (delete_route_references route two_gateways).0)
    × ((same : ℕ → ℕ → Bool) (key : ResourceKey) (answer : Option ℕ)
        → Tracked (check_reference same key answer two_gateways).0
          ↔ ((Maps.get dec key two_gateways.references.parents ≢ none) ⊎ (answer ≡ none)))
Tracked_example = Tracked_lem two_gateways two_gateways-Counted two_gateways-Tracked
