-- ===== src/References/Resolver.antt =====
-- `References` and `MultiReferencesResolver`
-- (kubvernor-controller/src/common/references_resolver/multi_references_resolver.rs). A counter is a
-- `usize` of 64 bits, which wraps as the release profile has it.
use kubvernor.Prelude.{
  ℕ, ◌+◌, ◌-◌, ◌^◌, Option, none, some, List, [], ◌∷◌, ◌++◌, filter_map, is_empty, ltb, nat_eq,
  if◌then◌else◌, unwrap_or,
}
use kubvernor.Prelude.Maps.{Map, is_some, keys}
use kubvernor.Prelude.Maps
use kubvernor.Prelude.Sets
use kubvernor.Keys.{ResourceKey, ResourceKey-discrete}

abbrev dec : Discrete ResourceKey
dec = ResourceKey-discrete

abbrev pub RouteToReferenceMapping : Type 0
RouteToReferenceMapping = Map ResourceKey (List ResourceKey)

abbrev pub GatewayToRouteReferenceMapping : Type 0
GatewayToRouteReferenceMapping = Map ResourceKey RouteToReferenceMapping

pub record References (R : Type 0) : Type 0 where
  pub parents : Map ResourceKey ℕ
  pub resolved_references : Map ResourceKey R

-- The two fields behind the locks of a `MultiReferencesResolver`.
pub record Resolver (R : Type 0) : Type 0 where
  pub gateway_route_reference_mapping : GatewayToRouteReferenceMapping
  pub references : References R

abbrev pub usize_max : ℕ
usize_max = 2 ^ 64 - 1

-- `*f -= 1` and `*f += 1`
abbrev pub decrement : ℕ → ℕ
decrement n = if nat_eq n 0 then usize_max else n - 1

abbrev pub increment : ℕ → ℕ
increment n = if nat_eq n usize_max then 0 else n + 1

abbrev pub decremented : ResourceKey → Option ℕ → Map ResourceKey ℕ → Map ResourceKey ℕ
decremented k none parents = parents
decremented k (some n) parents = Maps.insert dec k (decrement n) parents

-- `entry(k).and_modify(|f| *f -= 1)` for each key
unfoldable pub release_all : List ResourceKey → Map ResourceKey ℕ → Map ResourceKey ℕ
release_all [] parents = parents
release_all (k ∷ ks) parents = release_all ks (decremented k (Maps.get dec k parents) parents)

abbrev pub incremented : Option ℕ → ℕ
incremented none = 1
incremented (some n) = increment n

-- `entry(k).and_modify(|f| *f += 1).or_insert(1)` for each key
unfoldable pub retain_all : List ResourceKey → Map ResourceKey ℕ → Map ResourceKey ℕ
retain_all [] parents = parents
retain_all (k ∷ ks) parents =
    retain_all ks (Maps.insert dec k (incremented (Maps.get dec k parents)) parents)

-- The keys of all routes, in a row.
unfoldable pub all_references : RouteToReferenceMapping → List ResourceKey
all_references [] = []
all_references ((route, resources) ∷ m) = resources ++ all_references m

-- The keys whose counter is below 1.
unfoldable pub unused : Map ResourceKey ℕ → List ResourceKey
unused parents = filter_map (λ e. if ltb e.1 1 then some e.0 else none) parents

module _ {R : Type 0} where
  -- `References::remove`
  abbrev pub remove : ResourceKey → References R → References R
  remove k r = record {
    parents = Maps.remove dec k r.parents;
    resolved_references = Maps.remove dec k r.resolved_references;
  }

  unfoldable pub remove_all : List ResourceKey → References R → References R
  remove_all [] r = r
  remove_all (k ∷ ks) r = remove_all ks (remove k r)

  -- The counters written back, and the references with none left removed.
  unfoldable pub with_parents : Map ResourceKey ℕ → References R → References R
  unfolding remove_all unused
  with_parents parents r = remove_all (unused parents) (record r { parents = parents })

  unfoldable pub add_references_for_gateway :
      ResourceKey → RouteToReferenceMapping → Resolver R → Resolver R
  unfolding release_all retain_all all_references with_parents
  add_references_for_gateway gateway_key new r =
      let old = unwrap_or (Maps.get dec gateway_key r.gateway_route_reference_mapping) [] in
      let released = release_all (all_references old) r.references.parents in
      let retained = retain_all (all_references new) released in
      if is_empty new then r else record {
        gateway_route_reference_mapping =
            Maps.insert dec gateway_key new r.gateway_route_reference_mapping;
        references = with_parents retained r.references;
      }

  unfoldable pub delete_references_for_gateway : ResourceKey → Resolver R → Resolver R
  unfolding release_all all_references with_parents
  delete_references_for_gateway gateway_key r =
      elim (Maps.get dec gateway_key r.gateway_route_reference_mapping) [
        | none ↦ r
        | some old ↦ record {
          gateway_route_reference_mapping =
              Maps.remove dec gateway_key r.gateway_route_reference_mapping;
          references =
              with_parents (release_all (all_references old) r.references.parents) r.references;
        }
      ]

  unfoldable pub get_reference : ResourceKey → Resolver R → Option R
  get_reference k r = Maps.get dec k r.references.resolved_references

-- The gateways that a route is removed from, the keys that it referred to there, each once, and the
-- mapping that is left.
unfoldable pub affected : ResourceKey → GatewayToRouteReferenceMapping → List ResourceKey
affected route [] = []
affected route ((gateway, routes) ∷ m) =
    let rest = affected route m in
    if Maps.contains_key dec route routes then gateway ∷ rest else rest

unfoldable pub resources_to_delete : ResourceKey → GatewayToRouteReferenceMapping → List ResourceKey
resources_to_delete route [] = []
resources_to_delete route ((gateway, routes) ∷ m) =
    Sets.union dec (resources_to_delete route m) (unwrap_or (Maps.get dec route routes) [])

unfoldable pub without_route :
    ResourceKey → GatewayToRouteReferenceMapping → GatewayToRouteReferenceMapping
without_route route [] = []
without_route route ((gateway, routes) ∷ m) =
    (gateway, Maps.remove dec route routes) ∷ without_route route m

module _ {R : Type 0} where
  unfoldable pub delete_route_references : ResourceKey → Resolver R → Resolver R × List ResourceKey
  unfolding affected resources_to_delete without_route release_all with_parents
  delete_route_references route r =
      let m = r.gateway_route_reference_mapping in
      let parents = release_all (resources_to_delete route m) r.references.parents in
      (
        record {
          gateway_route_reference_mapping = without_route route m;
          references = with_parents parents r.references;
        },
        affected route m,
      )
