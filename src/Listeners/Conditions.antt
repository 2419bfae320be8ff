-- ===== src/Listeners/Conditions.antt =====
-- The conditions of a listener: `ResolvedRefs` (kubvernor-controller/src/common/mod.rs),
-- `ListenerCondition` and the ordered set `ListenerConditions`, whose elements compare by their
-- discriminants (kubvernor-controller/src/common/listener.rs).
use kubvernor.Prelude.{ℕ, String, Option, none, some, List, [], ◌∷◌, ltb, nat_eq, if◌then◌else◌}

pub data ResolvedRefs : Type 0 where
  resolved resolved_with_not_allowed_routes : List String → ResolvedRefs
  invalid_allowed_routes : ResolvedRefs
  invalid_certificates invalid_backend ref_not_permitted : List String → ResolvedRefs

pub data ListenerCondition : Type 0 where
  resolved_refs : ResolvedRefs → ListenerCondition
  unresolved_route_refs accepted not_accepted programmed not_programmed : ListenerCondition

unfoldable pub discriminant : ListenerCondition → ℕ
discriminant (resolved_refs _) = 0
discriminant accepted = 1
discriminant not_accepted = 1
discriminant programmed = 2
discriminant not_programmed = 2
discriminant unresolved_route_refs = 3

abbrev pub ListenerConditions : Type 0
ListenerConditions = List ListenerCondition

-- `BTreeSet::replace`, in a list that ascends.
unfoldable pub replace : ListenerCondition → ListenerConditions → ListenerConditions
replace c [] = c ∷ []
replace c (d ∷ ds) =
    let rest = replace c ds in
    if ltb (discriminant c) (discriminant d)
    then c ∷ d ∷ ds
    else if nat_eq (discriminant c) (discriminant d)
    then c ∷ ds
    else d ∷ rest

-- `BTreeSet::get`
unfoldable pub get : ListenerCondition → ListenerConditions → Option ListenerCondition
get c [] = none
get c (d ∷ ds) =
    let rest = get c ds in if nat_eq (discriminant c) (discriminant d) then some d else rest

abbrev pub approved_routes : List String
approved_routes = "GRPCRoute" ∷ "HTTPRoute" ∷ "TCPRoute" ∷ []

unfoldable pub supported_routes : ListenerCondition → List String
supported_routes (resolved_refs (resolved routes)) = routes
supported_routes (resolved_refs (resolved_with_not_allowed_routes routes)) = routes
supported_routes (resolved_refs (invalid_certificates routes)) = routes
supported_routes _ = approved_routes

-- The status, the type and the reason of the Kubernetes condition; the last two are enumerations of
-- the Gateway API.
pub data ConditionType : Type 0 where
  resolved_refs accepted programmed conflicted : ConditionType

pub data ConditionReason : Type 0 where
  invalid_route_kinds resolved_refs invalid_certificate_ref : ConditionReason
  ref_not_permitted accepted programmed invalid : ConditionReason

unfoldable pub resolved_type : ListenerCondition → String × ConditionType × ConditionReason
resolved_type (resolved_refs invalid_allowed_routes) =
    ("False", ConditionType.resolved_refs, ConditionReason.invalid_route_kinds)
resolved_type (resolved_refs (resolved_with_not_allowed_routes _)) =
    ("False", ConditionType.resolved_refs, ConditionReason.invalid_route_kinds)
resolved_type (resolved_refs (invalid_backend _)) =
    ("True", ConditionType.resolved_refs, ConditionReason.invalid_route_kinds)
resolved_type (resolved_refs (resolved _)) =
    ("True", ConditionType.resolved_refs, ConditionReason.resolved_refs)
resolved_type (resolved_refs (invalid_certificates _)) =
    ("False", ConditionType.resolved_refs, ConditionReason.invalid_certificate_ref)
resolved_type (resolved_refs (ref_not_permitted _)) =
    ("False", ConditionType.resolved_refs, ConditionReason.ref_not_permitted)
resolved_type unresolved_route_refs =
    ("False", ConditionType.resolved_refs, ConditionReason.resolved_refs)
resolved_type accepted = ("True", ConditionType.accepted, ConditionReason.accepted)
resolved_type not_accepted = ("False", ConditionType.accepted, ConditionReason.accepted)
resolved_type programmed = ("True", ConditionType.programmed, ConditionReason.programmed)
resolved_type not_programmed = ("False", ConditionType.programmed, ConditionReason.programmed)
