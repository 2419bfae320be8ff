-- ===== src/Rules/Ports.antt =====
-- Which listener of a gateway decides the settings of the Envoy listener of a port.
use kubvernor.Prelude.{
  ℕ, String, Bool, true, false, ◌||◌, nat_eq, Option, none, some, List, [], ◌∷◌, ℕ_discrete, any,
  filter_by, ◌≡◌, ◌⊎◌, refl, sym, ap, ◌∙◌, arith, if◌then◌else◌, Option-cases, inl, inr,
}
use kubvernor.Prelude.Maps
use kubvernor.Prelude.Maps.{Map, get-insert}
use kubvernor.Routes.{PathType, Method}
use kubvernor.Listeners.Convert.{Listener, TlsType}
use kubvernor.Listeners.Gateways.{Gateway}
use kubvernor.Matching.Hostnames.{hostname_filter}
use kubvernor.Rules.Effective.{http_matching_rules}
use kubvernor.Rules.Hosts.{
  EnvoyListener, InferenceClusterInfo, generate_envoy_listener, generate_virtual_hosts, Progress,
  enable_ect_proc_filter, calculate_potential_hostnames,
}
use kubvernor.Rules.Mapping.{
  Mapping, Served, served, extend_listener, add_listener, generate_mapping,
  generate_envoy_listener_mapping, ordered_listeners,
}

-- name, port, certificates and whether external processing is enabled
abbrev pub Settings : Type 0
Settings = String × ℕ × Option TlsType × Bool

abbrev pub settings : Option EnvoyListener → Option Settings
settings none = none
settings (some e) = some (e.name, e.port, e.tls_type, e.enable_ext_proc)

-- the first listener that serves HTTP, HTTPS or TCP on the port
abbrev pub first_on : ℕ → List Listener → Option Listener
first_on port [] = none
first_on port (l ∷ ls) =
    let rest = first_on port ls in
    elim (served l.protocol) [
      | Served.other ↦ rest
      | _ ↦ if nat_eq l.content.config.port port then some l else rest
    ]

abbrev or_else {ℓ} : {A : Type ℓ} → Option A → Option A → Option A
or_else none o = o
or_else (some a) o = some a

module _ (path_number : PathType → ℕ) (method_number : Method → ℕ)
    (pattern : String → Option (String → Bool)) (calculator : String → List String) where
  -- Whether a rule of the listener that some potential host name admits has an inference pool.
  abbrev enabled_for : Listener → String → Bool
  enabled_for l potential_hostname = any enable_ect_proc_filter (
      filter_by (λ em. hostname_filter pattern potential_hostname em.hostnames)
        (http_matching_rules path_number method_number l))

  abbrev pub has_pools : Listener → Bool
  has_pools l =
      any (enabled_for l)
        (calculate_potential_hostnames l.content.resolved_routes l.content.config.hostname)

  abbrev pub settings_of : String → Option Listener → Option Settings
  settings_of gateway_name none = none
  settings_of gateway_name (some l) = elim (served l.protocol) [
    | Served.http ↦
        some (gateway_name, l.content.config.port, l.content.config.tls_type, has_pools l)
    | _ ↦ some (gateway_name, l.content.config.port, none, false)
  ]

  generate_virtual_hosts-enabled :
      (l : Listener) (names : List String)
      (m : Progress path_number method_number pattern calculator)
      → (generate_virtual_hosts path_number method_number pattern calculator l names m).1
        ≡ (m.1 || any (enabled_for l) names)
  unfolding generate_virtual_hosts
  generate_virtual_hosts-enabled l [] m = ground arith
  generate_virtual_hosts-enabled l (n ∷ ns) (hosts, enabled, clusters) =
      generate_virtual_hosts-enabled l ns _ ∙ ground arith

  generate_lem :
      (gateway_name : String) (l : Listener) (clusters : List InferenceClusterInfo)
      → settings (
          some (
            (generate_envoy_listener path_number method_number pattern calculator gateway_name l
              clusters).0))
        ≡ some (gateway_name, l.content.config.port, l.content.config.tls_type, has_pools l)
  unfolding generate_envoy_listener
  generate_lem gateway_name l clusters =
      ap (λ b. some (gateway_name, l.content.config.port, l.content.config.tls_type, b))
        (generate_virtual_hosts-enabled l
          (calculate_potential_hostnames l.content.resolved_routes l.content.config.hostname)
          ([], false, clusters))

  abbrev step :
      String
      → Listener
      → Mapping path_number method_number pattern calculator
      → Mapping path_number method_number pattern calculator
  step gateway_name l m = elim (Maps.get ℕ_discrete l.content.config.port m.0) [
    | some e ↦ extend_listener path_number method_number pattern calculator gateway_name l e m
    | none ↦ add_listener path_number method_number pattern calculator gateway_name l m
  ]

  insert_lem :
      (port q : ℕ) (v : EnvoyListener) (acc : Map ℕ EnvoyListener) (own : Settings)
      → settings (some v) ≡ or_else (settings (Maps.get ℕ_discrete q acc)) (some own)
      → settings (Maps.get ℕ_discrete port (Maps.insert ℕ_discrete q v acc))
        ≡ or_else
            (settings (Maps.get ℕ_discrete port acc))
            (if nat_eq q port then some own else none)
  insert_lem port q v acc own h = elim (ℕ_discrete port q) [
    | yes p ↦ ground (arith, get-insert {V = EnvoyListener} ℕ_discrete port q v acc)
    | no p ↦ ground (arith, get-insert {V = EnvoyListener} ℕ_discrete port q v acc)
  ]

  Served-cases : (s : Served) → (s ≡ Served.http) ⊎ (s ≡ Served.tcp) ⊎ (s ≡ Served.other)
  Served-cases Served.http = inl refl
  Served-cases Served.tcp = inr (inl refl)
  Served-cases Served.other = inr (inr refl)

  -- An entry for the port of a listener that is served.
  decide_lem :
      (gateway_name : String) (port : ℕ) (l : Listener) (v : EnvoyListener)
      (acc : Map ℕ EnvoyListener) (own : Settings)
      → settings (some v)
        ≡ or_else (settings (Maps.get ℕ_discrete l.content.config.port acc)) (some own)
      → settings_of gateway_name (some l) ≡ some own
      → settings (Maps.get ℕ_discrete port (Maps.insert ℕ_discrete l.content.config.port v acc))
        ≡ or_else
            (settings (Maps.get ℕ_discrete port acc))
            (settings_of gateway_name (if nat_eq l.content.config.port port then some l else none))
  decide_lem gateway_name port l v acc own h k =
      insert_lem port l.content.config.port v acc own h
      ∙ ap (or_else (settings (Maps.get ℕ_discrete port acc)))
          (choose (nat_eq l.content.config.port port))
    where
      choose :
          (b : Bool)
          → (if b then some own else none) ≡ settings_of gateway_name (if b then some l else none)
      choose true = sym k
      choose false = refl

  or_else-none : (o : Option Settings) → o ≡ or_else o none
  or_else-none none = refl
  or_else-none (some s) = refl

  step_lem :
      (gateway_name : String) (port : ℕ) (l : Listener)
      (m : Mapping path_number method_number pattern calculator)
      → settings (Maps.get ℕ_discrete port (step gateway_name l m).0)
        ≡ or_else
            (settings (Maps.get ℕ_discrete port m.0))
            (settings_of gateway_name (first_on port (l ∷ [])))
  unfolding extend_listener add_listener
  step_lem gateway_name port l (acc, clusters) = elim (Served-cases (served l.protocol)) [
    | inl f ↦ elim (Option-cases (Maps.get ℕ_discrete l.content.config.port acc)) [
      | inl e ↦
          rw (step, e, add_listener, first_on, f)
            (decide_lem gateway_name port l _ acc
              (gateway_name, l.content.config.port, l.content.config.tls_type, has_pools l)
              (rw e (generate_lem gateway_name l clusters)) (rw (settings_of, f) refl))
      | inr (x, e) ↦
          rw (step, e, extend_listener, first_on, f)
            (decide_lem gateway_name port l _ acc
              (gateway_name, l.content.config.port, l.content.config.tls_type, has_pools l)
              (rw e refl) (rw (settings_of, f) refl))
    ]
    | inr (inl f) ↦ elim (Option-cases (Maps.get ℕ_discrete l.content.config.port acc)) [
      | inl e ↦
          rw (step, e, add_listener, first_on, f)
            (decide_lem gateway_name port l _ acc (gateway_name, l.content.config.port, none, false)
              (rw e refl) (rw (settings_of, f) refl))
      | inr (x, e) ↦
          rw (step, e, extend_listener, first_on, f)
            (decide_lem gateway_name port l _ acc (gateway_name, l.content.config.port, none, false)
              (rw e refl) (rw (settings_of, f) refl))
    ]
    | inr (inr f) ↦ elim (Option-cases (Maps.get ℕ_discrete l.content.config.port acc)) [
      | inl e ↦ rw (step, e, add_listener, first_on, f) (or_else-none _)
      | inr (x, e) ↦ rw (step, e, extend_listener, first_on, f) (or_else-none _)
    ]
  ]

  or_else-first :
      (gateway_name : String) (port : ℕ) (o : Option Settings) (l : Listener) (ls : List Listener)
      → or_else
          (or_else o (settings_of gateway_name (first_on port (l ∷ []))))
          (settings_of gateway_name (first_on port ls))
        ≡ or_else o (settings_of gateway_name (first_on port (l ∷ ls)))
  or_else-first gateway_name port (some s) l ls = refl
  or_else-first gateway_name port none l ls = elim (Served-cases (served l.protocol)) [
    | inl f ↦ rw (first_on, f) (choose (nat_eq l.content.config.port port) (inl f))
    | inr (inl f) ↦ rw (first_on, f) (choose (nat_eq l.content.config.port port) (inr f))
    | inr (inr f) ↦ rw (first_on, f) refl
  ]
    where
      choose :
          (b : Bool)
          → (served l.protocol ≡ Served.http) ⊎ (served l.protocol ≡ Served.tcp)
          → or_else
              (settings_of gateway_name (if b then some l else none))
              (settings_of gateway_name (first_on port ls))
            ≡ settings_of gateway_name (if b then some l else first_on port ls)
      choose true (inl f) = rw (settings_of, f) refl
      choose true (inr f) = rw (settings_of, f) refl
      choose false _ = refl

  generate_mapping_lem :
      (gateway_name : String) (port : ℕ) (ls : List Listener)
      (m : Mapping path_number method_number pattern calculator)
      → settings (
          Maps.get ℕ_discrete port
            (generate_mapping path_number method_number pattern calculator gateway_name ls m).0)
        ≡ or_else
            (settings (Maps.get ℕ_discrete port m.0))
            (settings_of gateway_name (first_on port ls))
  unfolding generate_mapping
  generate_mapping_lem gateway_name port [] m = or_else-none _
  generate_mapping_lem gateway_name port (l ∷ ls) m =
      generate_mapping_lem gateway_name port ls (step gateway_name l m)
      ∙ ap (λ o. or_else o (settings_of gateway_name (first_on port ls)))
          (step_lem gateway_name port l m)
      ∙ or_else-first gateway_name port (settings (Maps.get ℕ_discrete port m.0)) l ls

  -- A port has an Envoy listener exactly if a listener of the gateway serves HTTP, HTTPS or TCP on
  -- it, and the first such listener by name alone decides its settings: the gateway's name and the port, and
  -- for HTTP and HTTPS its own certificates and whether a rule that one of its host names admits has
  -- an inference pool, for TCP no certificates and no external processing.
  pub generate_envoy_listener_mapping_lem :
      {Uuid : Type 0} (gateway : Gateway Uuid) (clusters : List InferenceClusterInfo) (port : ℕ)
      → settings (
          Maps.get ℕ_discrete port
            (generate_envoy_listener_mapping path_number method_number pattern calculator gateway
              clusters).0)
        ≡ settings_of gateway.resource_key.name (first_on port (ordered_listeners gateway))
  unfolding generate_envoy_listener_mapping Maps.get
  generate_envoy_listener_mapping_lem gateway clusters port =
      generate_mapping_lem gateway.resource_key.name port (ordered_listeners gateway) ([], clusters)
