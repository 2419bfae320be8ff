-- ===== src/Deployer/Internal.antt =====
-- `GatewayDeployer` (kubvernor-controller/src/services/gateway_deployer/gateway_deployer_internal.rs):
-- the conditions of listeners before a gateway is deployed, and its status.
use kubvernor.Prelude.{
  ℕ, ◌^◌, String, str_eq, ltb, nat_eq, Bool, not, Option, none, some, List, [], ◌∷◌, ◌++◌, map,
  filter_by, length, if◌then◌else◌, unwrap_or,
}
use kubvernor.Prelude.Maps.{values, is_some}
use kubvernor.Storage.Locks.{GatewayImplementationType}
use kubvernor.Listeners.Conditions.{
  ListenerCondition, ListenerConditions, ResolvedRefs, resolved_refs, accepted, not_accepted,
  programmed, not_programmed, unresolved_route_refs, replace, get, discriminant, supported_routes,
  resolved_type,
}
use kubvernor.Listeners.Convert.{Listener}
use kubvernor.Listeners.Gateways.{Gateway}
use kubvernor.Statuses.Kube.{
  Condition, Constants, Kind, ListenerStatus, GatewayObject, GatewayStatus,
}

-- `BTreeSet::insert`, which keeps an element that is equal.
unfoldable pub insert : ListenerCondition → ListenerConditions → ListenerConditions
insert c cs = if is_some (get c cs) then cs else replace c cs

-- `BTreeSet::remove`
unfoldable pub remove : ListenerCondition → ListenerConditions → ListenerConditions
remove c [] = []
remove c (d ∷ ds) =
    let rest = remove c ds in if nat_eq (discriminant c) (discriminant d) then ds else d ∷ rest

-- The discriminant by which the code looks for any `ResolvedRefs`.
abbrev pub any_resolved_refs : ListenerCondition
any_resolved_refs = resolved_refs ResolvedRefs.invalid_allowed_routes

abbrev pub accept : ListenerConditions → ListenerConditions
accept cs = replace programmed (replace accepted cs)

abbrev pub reject : ListenerConditions → ListenerConditions
reject cs = replace not_accepted (insert not_programmed cs)

-- The `match` on the references of a listener.
unfoldable pub adjust_refs : ResolvedRefs → ListenerConditions → ListenerConditions
adjust_refs (ResolvedRefs.resolved _) cs = accept cs
adjust_refs (ResolvedRefs.resolved_with_not_allowed_routes _) cs = accept cs
adjust_refs (ResolvedRefs.invalid_backend _) cs = accept cs
adjust_refs ResolvedRefs.invalid_allowed_routes cs = reject cs
adjust_refs (ResolvedRefs.ref_not_permitted _) cs = reject cs
adjust_refs (ResolvedRefs.invalid_certificates _) cs = replace not_programmed (remove accepted cs)

unfoldable pub adjust_resolved : Option ListenerCondition → ListenerConditions → ListenerConditions
adjust_resolved (some (resolved_refs refs)) cs = adjust_refs refs cs
adjust_resolved _ cs = cs

unfoldable pub adjust_unresolved : ℕ → ListenerConditions → ListenerConditions
adjust_unresolved resolved_count cs =
    if is_some (get unresolved_route_refs cs)
    then remove any_resolved_refs
        (if nat_eq resolved_count 0 then replace not_accepted (replace not_programmed cs) else cs)
    else cs

unfoldable pub adjust_conditions : ℕ → ListenerConditions → ListenerConditions
adjust_conditions resolved_count cs =
    adjust_unresolved resolved_count (adjust_resolved (get any_resolved_refs cs) cs)

unfoldable pub adjust_listener : Listener → Listener
adjust_listener l = record l {
  content = record (l.content) {
    conditions = adjust_conditions (length l.content.resolved_routes) l.content.conditions;
  };
}

unfoldable pub adjust_statuses : {Uuid : Type 0} → Gateway Uuid → Gateway Uuid
adjust_statuses g = record g {
  listeners = map (λ (name, l). (name, adjust_listener l)) g.listeners;
}

-- `i32::try_from(n).unwrap_or_default()`
unfoldable pub to_i32 : ℕ → ℕ
to_i32 n = if ltb n (2 ^ 31) then n else 0

module _ (c : Constants) where
  -- The condition of the status that a listener's condition leads to.
  unfoldable pub status_condition : Option ℕ → ListenerCondition → Condition
  status_condition generation lc =
      let (status, type_, reason) = resolved_type lc in
      record {
        message = "Gateway updated by controller";
        observed_generation = generation;
        reason = c.reason_text reason;
        status = status;
        type_ = c.type_text type_;
      }

  abbrev kinds_of : ListenerCondition → List Kind
  kinds_of lc = map (λ r. record { group = none; kind = r }) (supported_routes lc)

  -- The supported kinds that the `match` on the condition sets, if it sets any.
  unfoldable pub supported_kinds : ListenerCondition → Option (List Kind) → Option (List Kind)
  supported_kinds (resolved_refs ResolvedRefs.invalid_allowed_routes) kinds = kinds
  supported_kinds (resolved_refs (ResolvedRefs.resolved rs)) kinds =
      some (kinds_of (resolved_refs (ResolvedRefs.resolved rs)))
  supported_kinds (resolved_refs (ResolvedRefs.invalid_backend rs)) kinds =
      some (kinds_of (resolved_refs (ResolvedRefs.invalid_backend rs)))
  supported_kinds (resolved_refs (ResolvedRefs.resolved_with_not_allowed_routes rs)) kinds =
      some (kinds_of (resolved_refs (ResolvedRefs.resolved_with_not_allowed_routes rs)))
  supported_kinds (resolved_refs (ResolvedRefs.invalid_certificates rs)) kinds =
      some (kinds_of (resolved_refs (ResolvedRefs.invalid_certificates rs)))
  supported_kinds (resolved_refs (ResolvedRefs.ref_not_permitted rs)) kinds =
      some (kinds_of (resolved_refs (ResolvedRefs.ref_not_permitted rs)))
  supported_kinds unresolved_route_refs kinds = some (kinds_of unresolved_route_refs)
  supported_kinds _ kinds = kinds

  -- The loop over the conditions of a listener.
  unfoldable pub add_conditions : Option ℕ → ListenerConditions → ListenerStatus → ListenerStatus
  add_conditions generation [] status = status
  add_conditions generation (lc ∷ lcs) status =
      let new = status_condition generation lc in
      add_conditions generation lcs (record status {
        conditions =
            filter_by (λ (q : Condition). not (str_eq q.type_ new.type_)) status.conditions
            ++ new ∷ [];
        supported_kinds = supported_kinds lc status.supported_kinds;
      })

  unfoldable pub listener_status : Option ℕ → Listener → ListenerStatus
  listener_status generation l = add_conditions generation l.content.conditions (record {
    name = l.content.config.name;
    attached_routes = to_i32 l.content.attached_routes;
    conditions = [];
    supported_kinds = none;
  })

  abbrev pub default_status : GatewayStatus
  default_status = record { addresses = none; conditions = none; listeners = none }

  unfoldable pub resolve_listeners_statuses :
      {Uuid : Type 0} → Gateway Uuid → GatewayObject → GatewayObject
  resolve_listeners_statuses g kube_gateway = record kube_gateway {
    status = some (record (unwrap_or kube_gateway.status default_status) {
      listeners =
          some (map (listener_status kube_gateway.metadata.generation) (values g.listeners));
    });
  }

  pub record ChangedContext (Uuid : Type 0) : Type 0 where
    pub kube_gateway : GatewayObject
    pub gateway : Gateway Uuid
    pub gateway_class_name : String

  -- What is sent to the backend of the gateway's type; `none` is the panic where there is no sender
  -- for that type.
  unfoldable pub deploy_gateway :
      {Uuid : Type 0}
      → (GatewayImplementationType → Bool)
      → String
      → Gateway Uuid
      → GatewayObject
      → Option (ChangedContext Uuid)
  deploy_gateway senders gateway_class_name gateway kube_gateway =
      let backend_gateway = adjust_statuses gateway in
      if senders gateway.backend_type
      then some (record {
        kube_gateway = resolve_listeners_statuses backend_gateway kube_gateway;
        gateway = backend_gateway;
        gateway_class_name = gateway_class_name;
      })
      else none
