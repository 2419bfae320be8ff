-- ===== src/Statuses/Conditions.antt =====
-- The conditions that are written into the status of a route
-- (kubvernor-controller/src/services/gateway_deployer/gateway_processed_handler.rs). The handler has the
-- same tables for HTTP routes and for gRPC routes.
use kubvernor.Prelude.{String, none, List, [], ◌∷◌}
use kubvernor.Routes.{ResolutionStatus, NotResolvedReason, resolved, not_resolved}
use kubvernor.Listeners.Conditions.{ConditionType, ConditionReason}
use kubvernor.Statuses.Kube.{Condition, Constants}

abbrev pub route_condition_message : String
route_condition_message = "Route status updated by controller"

abbrev pub condition : String → String → String → Condition
condition reason status type_ = record {
  message = route_condition_message;
  observed_generation = none;
  reason = reason;
  status = status;
  type_ = type_;
}

abbrev pub attached_conditions : List Condition
attached_conditions =
    condition "Accepted" "True" "Accepted" ∷ condition "ResolvedRefs" "True" "ResolvedRefs" ∷ []

module _ (c : Constants) where
  abbrev resolved_refs_type : String
  resolved_refs_type = c.type_text ConditionType.resolved_refs

  abbrev accepted_type : String
  accepted_type = c.type_text ConditionType.accepted

  abbrev not_programmed : Condition
  not_programmed =
      condition (c.reason_text ConditionReason.programmed) "False"
        (c.type_text ConditionType.programmed)

  abbrev accepted_anyway : Condition
  accepted_anyway = condition (c.reason_text ConditionReason.accepted) "True" accepted_type

  abbrev no_parent_conditions : List Condition
  no_parent_conditions =
      condition "NoMatchingParent" "True" resolved_refs_type
      ∷ condition "NoMatchingParent" "False" accepted_type
      ∷ []

  abbrev not_resolved_conditions : List Condition
  not_resolved_conditions =
      condition (c.reason_text ConditionReason.resolved_refs) "False" resolved_refs_type
      ∷ not_programmed
      ∷ []

  -- The `match` on the reason in `update_http_unresolved_route_parents`.
  abbrev reason_conditions : NotResolvedReason → List Condition
  reason_conditions NotResolvedReason.invalid_backend =
      condition "InvalidKind" "False" resolved_refs_type ∷ not_programmed ∷ accepted_anyway ∷ []
  reason_conditions NotResolvedReason.backend_not_found =
      condition "BackendNotFound" "False" resolved_refs_type ∷ not_programmed ∷ accepted_anyway ∷ []
  reason_conditions NotResolvedReason.ref_not_permitted =
      condition "RefNotPermitted" "False" resolved_refs_type ∷ accepted_anyway ∷ []
  reason_conditions NotResolvedReason.no_matching_parent = no_parent_conditions
  reason_conditions _ = not_resolved_conditions

  unfoldable pub unresolved_conditions : ResolutionStatus → List Condition
  unresolved_conditions resolved =
      condition (c.reason_text ConditionReason.invalid) "False"
        (c.type_text ConditionType.conflicted)
      ∷ []
  unresolved_conditions (not_resolved reason) = reason_conditions reason

  abbrev refs_resolved : Condition
  refs_resolved = condition resolved_refs_type "True" resolved_refs_type

  -- The `match` on the reason in `update_http_non_attached_route_parents`.
  abbrev non_attached_reason_conditions : NotResolvedReason → List Condition
  non_attached_reason_conditions NotResolvedReason.unknown =
      condition "Uknown reason" "False" (c.type_text ConditionType.programmed) ∷ []
  non_attached_reason_conditions NotResolvedReason.not_allowed_by_listeners =
      condition "NotAllowedByListeners" "False" accepted_type ∷ refs_resolved ∷ []
  non_attached_reason_conditions NotResolvedReason.ref_not_permitted =
      condition "RefNotPermitted" "False" accepted_type
      ∷ condition "RefNotPermitted" "False" resolved_refs_type
      ∷ []
  non_attached_reason_conditions NotResolvedReason.no_matching_listener_hostname =
      condition "NoMatchingListenerHostname" "False" accepted_type ∷ refs_resolved ∷ []
  non_attached_reason_conditions NotResolvedReason.no_matching_parent = no_parent_conditions
  non_attached_reason_conditions NotResolvedReason.invalid_backend = not_resolved_conditions
  non_attached_reason_conditions NotResolvedReason.backend_not_found = not_resolved_conditions

  unfoldable pub non_attached_conditions : ResolutionStatus → List Condition
  non_attached_conditions resolved =
      condition accepted_type "True" accepted_type ∷ refs_resolved ∷ []
  non_attached_conditions (not_resolved reason) = non_attached_reason_conditions reason
