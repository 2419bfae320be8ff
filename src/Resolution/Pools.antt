-- ===== src/Resolution/Pools.antt =====
-- The status of an inference pool (kubvernor-controller/src/controllers/inference_pool.rs).
use kubvernor.Prelude.{
  ℕ, String, str_eq, Bool, Option, none, some, List, [], ◌∷◌, map, filter_by, if◌then◌else◌,
  unwrap_or,
}
use kubvernor.Keys.{ResourceKey}
use kubvernor.Statuses.Kube.{Condition, InferencePool, InferencePoolStatusParents}

pub data InferencePoolCondition : Type 0 where
  accepted : Option ℕ → InferencePoolCondition
  resolved not_resolved : InferencePoolCondition

abbrev pool_condition_message : String
pool_condition_message = "Inference Pool status updated by controller"

unfoldable pub get_condition : InferencePoolCondition → Condition
get_condition (accepted generation) = record {
  message = pool_condition_message;
  observed_generation = generation;
  reason = "Accepted";
  status = "True";
  type_ = "Accepted";
}
get_condition resolved = record {
  message = pool_condition_message;
  observed_generation = none;
  reason = "ResolvedRefs";
  status = "True";
  type_ = "ResolvedRefs";
}
get_condition not_resolved = record {
  message = pool_condition_message;
  observed_generation = none;
  reason = "ResolvedRefs";
  status = "False";
  type_ = "ResolvedRefs";
}

abbrev pub parent_of : String → String → List Condition → ResourceKey → InferencePoolStatusParents
parent_of kind controller_name conditions id = record {
  conditions = some conditions;
  parent_ref = record {
    group = none;
    kind = some kind;
    name = id.name;
    namespace = some id.namespace;
  };
  controller_name = some controller_name;
}

unfoldable pub create_inference_pool_status_with_conditions :
    String → InferencePool → List ResourceKey → List Condition → InferencePool
create_inference_pool_status_with_conditions controller_name inference_pool gateways_ids
      conditions =
    record inference_pool {
      status = some (record {
        parents = some (
            map (λ (id : ResourceKey). parent_of id.kind controller_name conditions id)
              gateways_ids);
      });
    }

unfoldable pub create_accepted_inference_pool_status :
    String → InferencePool → List ResourceKey → InferencePool
create_accepted_inference_pool_status controller_name inference_pool gateways_ids =
    create_inference_pool_status_with_conditions controller_name
      (record inference_pool { status = none }) gateways_ids (get_condition (accepted none) ∷ [])

abbrev is_gateway_parent : InferencePoolStatusParents → Bool
is_gateway_parent p = str_eq (unwrap_or p.parent_ref.kind "") "Gateway"

unfoldable pub update_inference_pool_parents :
    String → List ResourceKey → InferencePool → Bool → InferencePool
update_inference_pool_parents controller_name gateways inference_pool resolved_endpoint_picker =
    let conditions =
      get_condition (accepted inference_pool.metadata.generation)
      ∷ (if resolved_endpoint_picker then get_condition resolved else get_condition not_resolved)
      ∷ [] in
    let parents = map (parent_of "Gateway" controller_name conditions) gateways in
    record inference_pool {
      status = some (record { parents = some (filter_by is_gateway_parent parents) });
    }
