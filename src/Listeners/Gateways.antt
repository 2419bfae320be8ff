-- ===== src/Listeners/Gateways.antt =====
-- `Gateway` and its conversion from the Gateway API (kubvernor-controller/src/common/gateway.rs), and
-- `VerifiyItems` (kubvernor-controller/src/common/mod.rs). The parser of UUIDs is a parameter.
use kubvernor.Prelude.{
  String, String-discrete, Option, none, some, List, [], ◌∷◌, map, is_empty, if◌then◌else◌,
  unwrap_or,
}
use kubvernor.Prelude.Maps.{Map, values}
use kubvernor.Prelude.Maps
use kubvernor.Keys.{ResourceKey, Meta, gateway_key}
use kubvernor.Routes.{Route}
use kubvernor.Storage.Locks.{GatewayImplementationType}
use kubvernor.Listeners.Convert.{GatewayListener, Listener, ListenerError, Converted, listener_of}

pub data GatewayAddress : Type 0 where
  hostname ip_address named_address : String → GatewayAddress

pub record Gateway (Uuid : Type 0) : Type 0 where
  pub id : Uuid
  pub resource_key : ResourceKey
  pub addresses : List GatewayAddress
  pub listeners : Map String Listener
  pub orphaned_routes : List Route
  pub backend_type : GatewayImplementationType

-- The fields of the Gateway API's `Gateway` that the conversion reads.
pub record KubeGateway : Type 0 where
  pub meta : Meta
  pub uid : Option String
  pub listeners : List GatewayListener

pub data GatewayError : Type 0 where
  conversion_problem : String → GatewayError

pub data GatewayResult {ℓ} (A : Type ℓ) : Type ℓ where
  ok : A → GatewayResult A
  err : GatewayError → GatewayResult A

-- `VerifiyItems::verify`, over conversions of listeners
unfoldable pub verify {ℓ} : {A : Type ℓ} → List (Converted A) → List A × List ListenerError
verify [] = ([], [])
verify (r ∷ rs) =
    let (good, bad) = verify rs in
    elim r [ Converted.ok a ↦ (a ∷ good, bad) | Converted.err e ↦ (good, e ∷ bad) ]

-- `collect::<BTreeMap<_, _>>()`: a later listener takes the place of one of its name.
unfoldable pub by_name : List Listener → Map String Listener → Map String Listener
by_name [] m = m
by_name (l ∷ ls) m = by_name ls (Maps.insert String-discrete l.content.config.name l m)

module _ {Uuid : Type 0} (parse_uuid : String → Option Uuid) where
  unfoldable pub gateway_of : KubeGateway → GatewayImplementationType → GatewayResult (Gateway Uuid)
  unfolding verify by_name
  gateway_of g backend_type = elim (parse_uuid (unwrap_or g.uid "")) [
    | none ↦ err (conversion_problem "Can't parse uuid")
    | some id ↦
        let (listeners, errors) = verify (map listener_of g.listeners) in
        if is_empty errors
        then ok (record {
          id = id;
          resource_key = gateway_key g.meta;
          addresses = [];
          listeners = by_name listeners [];
          orphaned_routes = [];
          backend_type = backend_type;
        })
        else err (conversion_problem "Misconfigured listeners")
  ]
