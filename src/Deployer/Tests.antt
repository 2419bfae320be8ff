-- ===== src/Deployer/Tests.antt =====
-- A gateway that is deployed, and what its backend's answer leads to.
use mathlib.Core.List.{Memᴰ}
use kubvernor.Prelude.{
  ◌<◌, ◌^◌, ◌&&◌, not, true, none, some, List, [], ◌∷◌, unwrap_or, All, ◌≡◌, ◌↔◌, refl, arith,
}
use kubvernor.Storage.Locks.{State, ok}
use kubvernor.Listeners.Conditions.{
  ListenerConditions, ResolvedRefs, resolved_refs, accepted, programmed, unresolved_route_refs,
  discriminant, get,
}
use kubvernor.Listeners.Laws.{Ascending}
use kubvernor.Statuses.Kube.{Condition, with_objects}
use kubvernor.Statuses.Handler.{update_gateway_resource}
use kubvernor.Statuses.Samples.{
  constants, controller, front, front_gateway, front_object, listener, kinds, cart_state,
  cart_state-IsHealthy,
}
use kubvernor.Deployer.Internal.{adjust_conditions, any_resolved_refs, listener_status}
use kubvernor.Deployer.Verdicts.{usable, blocked, adjust_conditions_iff}
use kubvernor.Deployer.Bounds.{DistinctTypes, listener_status_lem}
use kubvernor.Deployer.Service.{Message, gateway_status, is_ready, on_processed}
use kubvernor.Deployer.Saved.{Stored, IsPatchedReady, class_message, on_processed_lem}

abbrev refs : ResolvedRefs
refs = ResolvedRefs.resolved ("HTTPRoute" ∷ [])

abbrev two_conditions : ListenerConditions
two_conditions = resolved_refs refs ∷ unresolved_route_refs ∷ []

two_conditions-Ascending : Ascending two_conditions
unfolding discriminant
two_conditions-Ascending = ((omega arith, tt), (tt, tt))

refs_found : get any_resolved_refs two_conditions ≡ some (resolved_refs refs)
unfolding get discriminant
refs_found = refl

not_yet_programmed : get programmed two_conditions ≡ none
unfolding get discriminant
not_yet_programmed = refl

adjust_conditions_example :
    Ascending (adjust_conditions 1 two_conditions)
    × ((get programmed (adjust_conditions 1 two_conditions) ≡ some programmed)
        ↔ ((usable refs && not (blocked 1 two_conditions)) ≡ true))
    × ((get accepted (adjust_conditions 1 two_conditions) ≡ some accepted)
        ↔ ((usable refs && not (blocked 1 two_conditions)) ≡ true))
adjust_conditions_example =
    adjust_conditions_iff 1 refs two_conditions two_conditions-Ascending refs_found
      not_yet_programmed

listener_status_example :
    let status = listener_status constants (some 3) listener in
    (status.name ≡ "plain")
    × (status.attached_routes < 2 ^ 31)
    × (1 < 2 ^ 31 → status.attached_routes ≡ 1)
    × DistinctTypes status.conditions
    × All (λ (q : Condition). q.observed_generation ≡ some 3) status.conditions
listener_status_example = listener_status_lem constants (some 3) listener

on_processed_example :
    let updated = update_gateway_resource constants kinds controller front_gateway front_object in
    (ms : List Message) × (s' : State (with_objects kinds)) × (on_processed constants kinds
        controller some front_gateway front_object "class" cart_state
      ≡ ok (ms, s'))
    × Stored constants kinds controller front (unwrap_or (some updated) front_object) cart_state s'
    × Memᴰ (gateway_status front updated) ms
    × (is_ready constants kinds controller updated ≡ true)
    × (Memᴰ (class_message constants kinds controller "class") ms
        ↔ IsPatchedReady constants kinds controller (some updated))
on_processed_example =
    on_processed_lem constants kinds controller some front_gateway front_object "class" cart_state
      cart_state-IsHealthy
