-- ===== src/Deployer/Saved.antt =====
-- What a turn of the deployer's loop stores and sends.
use mathlib.Core.List.{Memᴰ}
use mathlib.Core.List.Memᴰ
use kubvernor.Prelude.{
  String, str_eq, true, Option, none, some, List, [], ◌∷◌, ◌++◌, map, if◌then◌else◌, unwrap_or, ◌≡◌,
  ◌↔◌, refl, ◌∙◌, arith, Bool-cases, any_intro, eq_refl, inl, inr,
}
use kubvernor.Prelude.Maps
use kubvernor.Prelude.Maps.{get-insert}
use kubvernor.Keys.{ResourceKey, ResourceKey-discrete}
use kubvernor.Storage.Locks.{KubeTypes, State, ok, write}
use kubvernor.Storage.Objects.{save_gateway}
use kubvernor.Storage.Spec.{view}
use kubvernor.Storage.Refinement.{IsHealthy}
use kubvernor.Listeners.Gateways.{Gateway}
use kubvernor.Statuses.Kube.{Condition, Constants, GatewayObject, with_objects}
use kubvernor.Statuses.Handler.{
  PatchContext, update_gateway_resource, update_gateway_status_conditions, ready_conditions,
  clear_meta,
}
use kubvernor.Statuses.Handler
use kubvernor.Statuses.Sends.{update_http_routes_iff, update_grpc_routes_ok}
use kubvernor.Deployer.Service.{
  Message, http_route_status, grpc_route_status, gateway_status, add_finalizer,
  add_finalizer_to_gateway_class, is_ready, has_finalizer, on_version_not_changed, patched,
  on_processed,
}

abbrev dec : Discrete ResourceKey
dec = ResourceKey-discrete

module _ (c : Constants) (O : KubeTypes) (controller_name : String) where
  abbrev saved : ResourceKey → GatewayObject → State (with_objects O) → State (with_objects O)
  saved k g s = record s { gateways = write s.gateways (Maps.insert dec k g s.gateways.value) }

  save_gateway_lem :
      (k : ResourceKey) (g : GatewayObject) (s : State (with_objects O))
      → IsHealthy s
      → (save_gateway (with_objects O) k g s ≡ ok (tt, saved k g s)) × IsHealthy (saved k g s)
  unfolding save_gateway
  save_gateway_lem k g s h = (
    ground (arith, h.gateways_healthy),
    record {
      gateway_classes_healthy = h.gateway_classes_healthy;
      gateways_healthy = h.gateways_healthy;
      http_routes_healthy = h.http_routes_healthy;
      grpc_routes_healthy = h.grpc_routes_healthy;
      gateways_with_routes_healthy = h.gateways_with_routes_healthy;
      inference_pools_healthy = h.inference_pools_healthy;
      gateways_with_routes_with_inference_pools_healthy =
          h.gateways_with_routes_with_inference_pools_healthy;
      gateway_implementation_types_healthy = h.gateway_implementation_types_healthy;
    },
  )

  -- A status that the handler has made is that of a gateway that is ready.
  is_ready-update_gateway_resource :
      {Uuid : Type 0} (g : Gateway Uuid) (kube_gateway : GatewayObject)
      → is_ready c O controller_name (update_gateway_resource c O controller_name g kube_gateway)
        ≡ true
  unfolding update_gateway_resource update_gateway_status_conditions ready_conditions clear_meta
      is_ready
  is_ready-update_gateway_resource g kube_gateway =
      any_intro (λ (q : Condition). str_eq q.type_ c.ready) (Memᴰ.append_right _ (Memᴰ.head refl))
        (eq_refl c.ready)

  -- What is stored for the gateway at the end.
  abbrev pub Stored :
      ResourceKey → GatewayObject → State (with_objects O) → State (with_objects O) → Type 0
  Stored k g s s' =
      IsHealthy s'
      × ((q : ResourceKey)
          → (view s').gateway q ≡ (elim (dec q k) [ yes _ ↦ some g | no _ ↦ (view s).gateway q ]))
      × (s'.http_routes ≡ s.http_routes)
      × (s'.grpc_routes ≡ s.grpc_routes)
      × (s'.gateways_with_routes ≡ s.gateways_with_routes)

  Stored-saved :
      (k : ResourceKey) (g : GatewayObject) (s : State (with_objects O))
      → IsHealthy s
      → Stored k g s (saved k g s)
  Stored-saved k g s h =
      ((save_gateway_lem k g s h).1, λ q. get-insert dec q k g s.gateways.value, refl, refl, refl)

  Stored-trans :
      (k : ResourceKey) (g g' : GatewayObject) (s s' s'' : State (with_objects O))
      → Stored k g s s'
      → Stored k g' s' s''
      → Stored k g' s s''
  Stored-trans k g g' s s' s'' (_, at, e, f, i) (h, at', e', f', i') =
      (h, λ q. ground (arith, at q, at' q), e' ∙ e, f' ∙ f, i' ∙ i)

  -- The message that puts a finalizer on the gateway's class.
  abbrev pub class_message : String → Message
  class_message gateway_class_name =
      add_finalizer_to_gateway_class gateway_class_name controller_name

  -- A gateway that was patched is stored, and is ready.
  abbrev pub IsPatchedReady : Option GatewayObject → Type 0
  IsPatchedReady o = (g : GatewayObject) × (o ≡ some g) × (is_ready c O controller_name g ≡ true)

  abbrev finalizers : ResourceKey → String → GatewayObject → List Message
  finalizers k class g =
      if has_finalizer c O controller_name g
      then class_message class ∷ []
      else class_message class ∷ add_finalizer k controller_name ∷ []

  class_sent :
      (k : ResourceKey) (class : String) (g : GatewayObject)
      → Memᴰ (class_message class) (finalizers k class g)
  class_sent k class g = elim (Bool-cases (has_finalizer c O controller_name g)) [
    | inl e ↦ rw e (Memᴰ.head refl)
    | inr e ↦ rw e (Memᴰ.head refl)
  ]

  patched_lem :
      (k : ResourceKey) (class : String) (o : Option GatewayObject) (kube_gateway : GatewayObject)
      (s s' : State (with_objects O))
      → Stored k kube_gateway s s'
      → (ms : List Message) × (s'' : State (with_objects O)) × (patched c O controller_name k class
            o s'
          ≡ ok (ms, s''))
        × Stored k (unwrap_or o kube_gateway) s s''
        × (Memᴰ (class_message class) ms ↔ IsPatchedReady o)
  unfolding on_version_not_changed
  patched_lem k class none kube_gateway s s' st =
      ([], s', refl, st, (λ m. elim m [ ], λ (g, e, _). absurd (ground arith)))
  patched_lem k class (some g) kube_gateway s s' st =
      let (e, h') = save_gateway_lem k g s' (st.0) in
      let (e', _) = save_gateway_lem k g (saved k g s') h' in
      let once =
        Stored-trans k kube_gateway g s s' (saved k g s') st (Stored-saved k g s' (st.0)) in
      let twice =
        Stored-trans k g g s (saved k g s') (saved k g (saved k g s')) once
          (Stored-saved k g (saved k g s') h') in
      elim (Bool-cases (is_ready c O controller_name g)) [
        | inl r ↦ (
          finalizers k class g,
          saved k g (saved k g s'),
          rw (e, on_version_not_changed, r, e') refl,
          twice,
          (λ _. (g, refl, r), λ _. class_sent k class g),
        )
        | inr n ↦ (
          [],
          saved k g s',
          rw (e, on_version_not_changed, n) refl,
          once,
          (λ m. elim m [ ], λ (x, f, r). absurd (ground arith)),
        )
      ]

  sent_iff :
      (class : String) (http grpc : List PatchContext) (k : ResourceKey) (g : GatewayObject)
      (ms : List Message)
      → Memᴰ
          (class_message class)
          (map http_route_status http ++ map grpc_route_status grpc ++ gateway_status k g ∷ ms)
        ↔ Memᴰ (class_message class) ms
  unfolding add_finalizer_to_gateway_class
  sent_iff class http grpc k g ms = (
    λ m. elim (Memᴰ.append_cases (map http_route_status http ++ map grpc_route_status grpc) m) [
      | inl n ↦ elim (Memᴰ.append_cases (map http_route_status http) n) [
        | inl i ↦ let (x, _, e) = Memᴰ.of_map http_route_status http i in absurd (cc)
        | inr i ↦ let (x, _, e) = Memᴰ.of_map grpc_route_status grpc i in absurd (cc)
      ]
      | inr (Memᴰ.head e) ↦ absurd (cc)
      | inr (Memᴰ.tail n) ↦ n
    ],
    λ m. Memᴰ.append_right (map http_route_status http ++ map grpc_route_status grpc) (Memᴰ.tail m),
  )

  -- With no lock poisoned, a turn of the loop for a gateway that a backend has processed succeeds, and no
  -- lock is poisoned after it. It stores what the patcher answers, or, if it does not answer with a
  -- gateway, the gateway that was processed, and changes no other gateway, no route and no attachment.
  -- The patcher is sent a gateway that is ready. A finalizer is put on the gateway's class exactly if the
  -- patcher answers with a gateway that is ready.
  pub on_processed_lem :
      {Uuid : Type 0} (answer : GatewayObject → Option GatewayObject) (g : Gateway Uuid)
      (kube_gateway : GatewayObject) (class : String) (s : State (with_objects O))
      → IsHealthy s
      → let updated = update_gateway_resource c O controller_name g kube_gateway in
        (ms : List Message) × (s' : State (with_objects O)) × (on_processed c O controller_name
            answer g kube_gateway class s
          ≡ ok (ms, s'))
        × Stored g.resource_key (unwrap_or (answer updated) kube_gateway) s s'
        × Memᴰ (gateway_status g.resource_key updated) ms
        × (is_ready c O controller_name updated ≡ true)
        × (Memᴰ (class_message class) ms ↔ IsPatchedReady (answer updated))
  unfolding on_processed Handler.deploy_gateway
  on_processed_lem answer g kube_gateway class s h =
      let k = g.resource_key in
      let updated = update_gateway_resource c O controller_name g kube_gateway in
      let (http, e, _) = update_http_routes_iff c O controller_name g s h in
      let (grpc, f) = update_grpc_routes_ok c O controller_name g s h in
      let (save, _) = save_gateway_lem k kube_gateway s h in
      let (ms, s', run, stored, class_iff) =
        patched_lem k class (answer updated) kube_gateway s (saved k kube_gateway s)
          (Stored-saved k kube_gateway s h) in
      let (to, from) = sent_iff class http grpc k updated ms in
      (
        map http_route_status http ++ map grpc_route_status grpc ++ gateway_status k updated ∷ ms,
        s',
        rw (e, f, save, run) refl,
        stored,
        Memᴰ.append_right (map http_route_status http ++ map grpc_route_status grpc)
            (Memᴰ.head refl),
        is_ready-update_gateway_resource g kube_gateway,
        (λ m. class_iff.0 (to m), λ r. from (class_iff.1 r)),
      )
