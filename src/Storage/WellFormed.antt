-- ===== src/Storage/WellFormed.antt =====
-- What a well-formed state is, and what the writes to its two nested tables keep.
use kubvernor.Prelude.{none, List, [], ◌∷◌, ◌≡◌, inl, inr, refl, arith, Option-cases, All}
use kubvernor.Prelude.Maps.{Map}
use kubvernor.Prelude.Maps
use kubvernor.Prelude.Sets
use kubvernor.Prelude.Distinct.{
  Distinct, insert-All, get-All, insert-Distinct, IsSetList, insert-IsSetList, remove-IsSetList,
}
use kubvernor.Keys.{ResourceKey, ResourceKey-discrete}
use kubvernor.Storage.Locks.{KubeTypes, State, RouteToInferencePool, write}
use kubvernor.Storage.Attached.{attached_set, detached_table}
use kubvernor.Storage.Pools.{pools_of, insert_pools, drop_pools, pooled_set, left_over}
use kubvernor.Storage.Tables.{pools_of-insert_pools, pools_of-drop_pools}

abbrev dec : Discrete ResourceKey
dec = ResourceKey-discrete

-- No two elements of a set of `RouteToInferencePool` have one route.
abbrev pub OneEach : List RouteToInferencePool → Type 0
OneEach [] = Unit
OneEach (e ∷ es) = (pools_of e.route_id es ≡ none) × OneEach es

pub record IsWellFormed {O : KubeTypes} (s : State O) : Type 0 where
  pub gateway_classes_distinct : Distinct dec s.gateway_classes.value
  pub gateways_distinct : Distinct dec s.gateways.value
  pub http_routes_distinct : Distinct dec s.http_routes.value
  pub grpc_routes_distinct : Distinct dec s.grpc_routes.value
  pub inference_pools_distinct : Distinct dec s.inference_pools.value
  pub types_distinct : Distinct dec s.gateway_implementation_types.value
  pub attached_distinct : Distinct dec s.gateways_with_routes.value
  pub attached_sets : All (λ e. IsSetList dec e.1) s.gateways_with_routes.value
  pub pools_distinct : Distinct dec s.gateways_with_routes_with_inference_pools.value
  pub pools_sets : All (λ e. OneEach e.1) s.gateways_with_routes_with_inference_pools.value

pub insert_pools-OneEach :
    (k : ResourceKey) (ids : List ResourceKey) (es : List RouteToInferencePool)
    → OneEach es
    → OneEach (insert_pools k ids es)
unfolding insert_pools pools_of
insert_pools-OneEach k ids [] h = (refl, tt)
insert_pools-OneEach k ids (e ∷ es) (new, h) =
    ground (arith, insert_pools-OneEach k ids es h, pools_of-insert_pools e.route_id k ids es)

pub drop_pools-OneEach :
    (k : ResourceKey) (es : List RouteToInferencePool) → OneEach es → OneEach (drop_pools k es)
unfolding drop_pools pools_of
drop_pools-OneEach k [] h = tt
drop_pools-OneEach k (e ∷ es) (new, h) =
    ground (arith, drop_pools-OneEach k es h, pools_of-drop_pools e.route_id k es)

module _ (id k : ResourceKey) where
  pub attached_set-IsSetList :
      (m : Map ResourceKey (List ResourceKey))
      → All (λ e. IsSetList dec e.1) m
      → IsSetList dec (attached_set k (Maps.get dec id m))
  unfolding attached_set Sets.contains
  attached_set-IsSetList m h = elim (Option-cases (Maps.get dec id m)) [
    | inl e ↦ rw (e, attached_set) (refl, tt)
    | inr (routes, e) ↦
        rw (e, attached_set)
          (insert-IsSetList dec k routes (get-All dec (IsSetList dec) id routes m h e))
  ]

  pub detached_table_keeps :
      (m : Map ResourceKey (List ResourceKey))
      → Distinct dec m
      → All (λ e. IsSetList dec e.1) m
      → let m' = detached_table id k (Maps.get dec id m) m in
        Distinct dec m' × All (λ e. IsSetList dec e.1) m'
  unfolding detached_table
  detached_table_keeps m d h = elim (Option-cases (Maps.get dec id m)) [
    | inl e ↦ rw (e, detached_table) (d, h)
    | inr (routes, e) ↦
        let kept = remove-IsSetList dec k routes (get-All dec (IsSetList dec) id routes m h e) in
        rw (e, detached_table)
          (insert-Distinct dec id _ m d, insert-All dec (IsSetList dec) id _ m kept h)
  ]

  pub pooled_set-OneEach :
      (ids : List ResourceKey) (m : Map ResourceKey (List RouteToInferencePool))
      → All (λ e. OneEach e.1) m
      → OneEach (pooled_set k ids (Maps.get dec id m))
  unfolding pooled_set
  pooled_set-OneEach ids m h = elim (Option-cases (Maps.get dec id m)) [
    | inl e ↦ rw (e, pooled_set) (insert_pools-OneEach k ids [] tt)
    | inr (es, e) ↦
        rw (e, pooled_set) (insert_pools-OneEach k ids es (get-All dec OneEach id es m h e))
  ]

  pub left_over-OneEach :
      (m : Map ResourceKey (List RouteToInferencePool))
      → All (λ e. OneEach e.1) m
      → OneEach (left_over k (Maps.get dec id m))
  unfolding left_over
  left_over-OneEach m h = elim (Option-cases (Maps.get dec id m)) [
    | inl e ↦ rw (e, left_over) tt
    | inr (es, e) ↦ rw (e, left_over) (drop_pools-OneEach k es (get-All dec OneEach id es m h e))
  ]

module _ {O : KubeTypes} {s : State O} (w : IsWellFormed s) where
  -- A new table of attached routes, or of inference pools, in a well-formed state.
  pub with_attached :
      (m : Map ResourceKey (List ResourceKey))
      → Distinct dec m
      → All (λ e. IsSetList dec e.1) m
      → IsWellFormed (record s { gateways_with_routes = write s.gateways_with_routes m })
  with_attached m d h = record {
    gateway_classes_distinct = w.gateway_classes_distinct;
    gateways_distinct = w.gateways_distinct;
    http_routes_distinct = w.http_routes_distinct;
    grpc_routes_distinct = w.grpc_routes_distinct;
    inference_pools_distinct = w.inference_pools_distinct;
    types_distinct = w.types_distinct;
    attached_distinct = d;
    attached_sets = h;
    pools_distinct = w.pools_distinct;
    pools_sets = w.pools_sets;
  }

  pub with_pools :
      (m : Map ResourceKey (List RouteToInferencePool))
      → Distinct dec m
      → All (λ e. OneEach e.1) m
      → IsWellFormed (record s {
        gateways_with_routes_with_inference_pools =
            write s.gateways_with_routes_with_inference_pools m;
      })
  with_pools m d h = record {
    gateway_classes_distinct = w.gateway_classes_distinct;
    gateways_distinct = w.gateways_distinct;
    http_routes_distinct = w.http_routes_distinct;
    grpc_routes_distinct = w.grpc_routes_distinct;
    inference_pools_distinct = w.inference_pools_distinct;
    types_distinct = w.types_distinct;
    attached_distinct = w.attached_distinct;
    attached_sets = w.attached_sets;
    pools_distinct = d;
    pools_sets = h;
  }
