-- ===== src/Lifecycle/Effects.antt =====
-- What a controller's handler does: it reads and writes the state, sends messages, and ends with an
-- action, with an error of the controller, which keeps what was done before, or with the panic of an
-- `expect` (kubvernor-controller/src/controllers/mod.rs).
use kubvernor.Prelude.{◌≡◌, refl, String, List, [], ◌∷◌, ◌++◌}
use kubvernor.Keys.{ResourceKey}
use kubvernor.Storage.Locks.{KubeTypes, State, Result, ok, err}
use kubvernor.Listeners.Gateways.{Gateway}
use kubvernor.Statuses.Kube.{KubeRoute, GatewayObject, InferencePool, with_objects}
use kubvernor.Deployer.Service.{FinalizerContext}

-- the errors that the handlers of routes end with
pub data ControllerError : Type 0 where
  invalid_payload : String → ControllerError
  unknown_gateway_class : String → ControllerError
  unknown_gateway_type already_added : ControllerError

pub data Message (Uuid : Type 0) : Type 0 where
  add_route delete_route : ResourceKey → List ResourceKey → Message Uuid
  add_gateway : Gateway Uuid → GatewayObject → String → Message Uuid
  patch_finalizer : FinalizerContext → Message Uuid
  delete : ResourceKey → KubeRoute → Message Uuid
  patch_pool_status : ResourceKey → InferencePool → Message Uuid

module _ (Uuid : Type 0) (O : KubeTypes) where
  pub record World : Type 0 where
    pub state : State (with_objects O)
    pub sent : List (Message Uuid)

  pub data Ending (A : Type 0) : Type 0 where
    done : A → World → Ending A
    failed : ControllerError → World → Ending A
    panicked : Ending A

  abbrev pub Effect : Type 0 → Type 0
  Effect A = World → Ending A

module _ {Uuid : Type 0} {O : KubeTypes} where
  infixl 5 ◌>>=◌
  abbrev pub ◌>>=◌ : {A B : Type 0} → Effect Uuid O A → (A → Effect Uuid O B) → Effect Uuid O B
  (m >>= f) w = elim (m w) [
    | Ending.done a w' ↦ f a w'
    | Ending.failed e w' ↦ Ending.failed e w'
    | Ending.panicked ↦ Ending.panicked
  ]

  abbrev pub pure : {A : Type 0} → A → Effect Uuid O A
  pure a w = Ending.done a w

  abbrev pub fail : {A : Type 0} → ControllerError → Effect Uuid O A
  fail e w = Ending.failed e w

  abbrev pub panic : {A : Type 0} → Effect Uuid O A
  panic w = Ending.panicked

  abbrev pub send : Message Uuid → Effect Uuid O (Unit {0})
  send m w = Ending.done tt (record w { sent = w.sent ++ m ∷ [] })

  -- A look at the state, and a change of it.
  abbrev pub ask : {A : Type 0} → (State (with_objects O) → Result A) → Effect Uuid O A
  ask read w = elim (read w.state) [ ok a ↦ Ending.done a w | err _ ↦ Ending.panicked ]

  abbrev pub change :
      {A : Type 0}
      → (State (with_objects O) → Result (A × State (with_objects O)))
      → Effect Uuid O A
  change run w = elim (run w.state) [
    | ok (a, s) ↦ Ending.done a (record w { state = s })
    | err _ ↦ Ending.panicked
  ]

  pub bind_done :
      {A B : Type 0} (m : Effect Uuid O A) (f : A → Effect Uuid O B) {a : A} (w : World Uuid O)
      {w' : World Uuid O}
      → m w ≡ Ending.done a w'
      → (m >>= f) w ≡ f a w'
  bind_done m f w e = rw (◌>>=◌, e) refl

  pub change_ok :
      {A : Type 0} (run : State (with_objects O) → Result (A × State (with_objects O)))
      (w : World Uuid O) {a : A} {s : State (with_objects O)}
      → run w.state ≡ ok (a, s)
      → change run w ≡ Ending.done a (record w { state = s })
  change_ok run w e = rw (change, e) refl

  pub ask_ok :
      {A : Type 0} (read : State (with_objects O) → Result A) (w : World Uuid O) {a : A}
      → read w.state ≡ ok a
      → ask read w ≡ Ending.done a w
  ask_ok read w e = rw (ask, e) refl
