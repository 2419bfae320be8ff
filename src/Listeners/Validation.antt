-- ===== src/Listeners/Validation.antt =====
-- `ListenerTlsConfigValidator` (kubvernor-controller/src/controllers/utils/tls_config_validator.rs). What
-- it asks other components for is a parameter: the look-up of secrets, the decision of the reference
-- grants, and the two parsers of PEM texts of a package.
use kubvernor.Prelude.{
  String, String-discrete, str_eq, Bool, true, false, ◌&&◌, ◌||◌, Option, none, some, List, [], ◌∷◌,
  map, if◌then◌else◌,
}
use kubvernor.Prelude.Maps.{Map}
use kubvernor.Prelude.Maps
use kubvernor.Keys.{ResourceKey}
use kubvernor.Listeners.Certificates.{
  Certificate, Bytes, resource_key, resolve, resolve_cross_space, to_not_resolved, to_invalid,
}
use kubvernor.Listeners.Conditions.{
  ListenerCondition, ListenerConditions, ResolvedRefs, resolved_refs, replace, get,
  supported_routes,
}
use kubvernor.Listeners.Convert.{Listener, ProtocolType, TlsType}
use kubvernor.Listeners.Gateways.{Gateway}

-- The fields of a Kubernetes secret that are read.
pub record Secret : Type 0 where
  pub secret_type : Option String
  pub content : Option (Map String Bytes)

abbrev pub is_tls : Option String → Bool
is_tls none = false
is_tls (some t) = str_eq t "kubernetes.io/tls"

-- The listeners that are validated.
abbrev pub is_secured : ProtocolType → Bool
is_secured ProtocolType.https = true
is_secured ProtocolType.tls = true
is_secured _ = false

-- What becomes of a certificate, and the condition that is replaced, if one is.
abbrev pub Verdict : Type 0
Verdict = Certificate × Option ListenerCondition

abbrev pub invalid_certificates : List String → Option ListenerCondition
invalid_certificates routes = some (resolved_refs (ResolvedRefs.invalid_certificates routes))

abbrev pub routes_of : Option ListenerCondition → List String
routes_of none = []
routes_of (some c) = supported_routes c

abbrev pub replaced : Option ListenerCondition → ListenerConditions → ListenerConditions
replaced none conditions = conditions
replaced (some c) conditions = replace c conditions

module _ (get_secret : ResourceKey → Option Secret)
    (is_allowed : ResourceKey → ResourceKey → ResourceKey → Bool)
    (valid_cert valid_key : Bytes → Bool) where
  abbrev pub with_pair : Certificate → Bool → Bytes → Bytes → List String → Verdict
  with_pair c same cert key routes =
      if valid_cert cert && valid_key key
      then ((if same then resolve c cert key else resolve_cross_space c cert key), none)
      else (to_invalid c, invalid_certificates routes)

  abbrev pub with_content : Certificate → Bool → Map String Bytes → List String → Verdict
  with_content c same m routes = elim (Maps.get String-discrete "tls.key" m) [
    | none ↦ (to_invalid c, invalid_certificates routes)
    | some key ↦ elim (Maps.get String-discrete "tls.crt" m) [
      | none ↦ (to_invalid c, invalid_certificates routes)
      | some cert ↦ with_pair c same cert key routes
    ]
  ]

  abbrev pub with_secret : Certificate → Bool → Secret → List String → Verdict
  with_secret c same secret routes =
      if is_tls secret.secret_type
      then elim secret.content [
        | none ↦ (to_not_resolved c, invalid_certificates routes)
        | some m ↦ with_content c same m routes
      ]
      else (to_not_resolved c, invalid_certificates routes)

  -- One turn of the loop over certificates.
  unfoldable pub validate_certificate : ResourceKey → List String → Certificate → Verdict
  validate_certificate gateway routes c =
      let same = str_eq gateway.namespace (resource_key c).namespace in
      elim (get_secret (resource_key c)) [
        | none ↦ (to_not_resolved c, invalid_certificates routes)
        | some secret ↦
            if is_allowed gateway (resource_key c) gateway || same
            then with_secret c same secret routes
            else if same
            then (to_not_resolved c, invalid_certificates routes)
            else (to_not_resolved c, some (resolved_refs (ResolvedRefs.ref_not_permitted routes)))
      ]

  unfoldable pub validate_certificates :
      ResourceKey
      → List String
      → List Certificate
      → ListenerConditions
      → List Certificate × ListenerConditions
  validate_certificates gateway routes [] conditions = ([], conditions)
  validate_certificates gateway routes (c ∷ cs) conditions =
      let (c', condition) = validate_certificate gateway routes c in
      let (cs', conditions') =
        validate_certificates gateway routes cs (replaced condition conditions) in
      (c' ∷ cs', conditions')

  -- The kind of condition that is looked up is the one of `ResolvedRefs`.
  abbrev pub wanted : ListenerCondition
  wanted = resolved_refs (ResolvedRefs.resolved [])

  abbrev pub with_tls : ResourceKey → Listener → Option TlsType → Listener
  with_tls gateway l (some (TlsType.terminate cs)) =
      let conditions = l.content.conditions in
      let (cs', conditions') =
        validate_certificates gateway (routes_of (get wanted conditions)) cs conditions in
      record l {
        content = record (l.content) {
          config = record (l.content.config) { tls_type = some (TlsType.terminate cs') };
          conditions = conditions';
        };
      }
  with_tls gateway l _ = l

  unfoldable pub validate_listener : ResourceKey → Listener → Listener
  validate_listener gateway l =
      if is_secured l.protocol then with_tls gateway l l.content.config.tls_type else l

  -- `validate`
  unfoldable pub validate : {Uuid : Type 0} → Gateway Uuid → Gateway Uuid
  unfolding validate_listener
  validate g = record g {
    listeners = map (λ e. (e.0, validate_listener g.resource_key e.1)) g.listeners;
  }
