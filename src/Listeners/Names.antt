-- ===== src/Listeners/Names.antt =====
-- Which gateways convert, and the listeners that they have then.
use kubvernor.Prelude.{
  String, String-discrete, true, Option, none, some, List, [], ◌∷◌, map, is_empty, unwrap_or, ◌≡◌,
  ◌∙◌, ap, subst, ◌↔◌, refl, arith, All, Option-cases, Bool-cases, inl, inr,
}
use kubvernor.Prelude.Maps.{Map, get-insert}
use kubvernor.Prelude.Maps
use kubvernor.Keys.{gateway_key}
use kubvernor.Storage.Locks.{GatewayImplementationType}
use kubvernor.Listeners.Convert.{GatewayListener, Listener, Converted, listener_of}
use kubvernor.Listeners.Gateways.{Gateway, KubeGateway, ok, verify, by_name, gateway_of}
use kubvernor.Listeners.Laws.{listener_of_ok}

abbrev pub Converts : GatewayListener → Type 0
Converts l = (x : Listener) × (listener_of l ≡ Converted.ok x)

abbrev pub converted : Converted Listener → Option Listener
converted (Converted.ok x) = some x
converted (Converted.err e) = none

verify-cons_iff :
    (l : GatewayListener) (ls : List GatewayListener) (r : Converted Listener)
    → listener_of l ≡ r
    → ((is_empty (verify (map listener_of ls)).1 ≡ true) ↔ All Converts ls)
    → (is_empty (verify (map listener_of (l ∷ ls))).1 ≡ true) ↔ All Converts (l ∷ ls)
unfolding verify
verify-cons_iff l ls (Converted.ok x) e rest =
    rw (e, verify) ((λ h. ((x, refl), rest.0 h)), (λ h. rest.1 h.1))
verify-cons_iff l ls (Converted.err x) e rest =
    rw (e, verify) ((λ h. absurd (ground arith)), (λ h. absurd (ground (arith, h.0.1))))

verify_iff :
    (ls : List GatewayListener)
    → (is_empty (verify (map listener_of ls)).1 ≡ true) ↔ All Converts ls
unfolding verify
verify_iff [] = (λ _. tt, λ _. refl)
verify_iff (l ∷ ls) = verify-cons_iff l ls (listener_of l) refl (verify_iff ls)

-- The last listener of a specification that has the name.
abbrev pub last_named : String → List GatewayListener → Option GatewayListener
last_named n [] = none
last_named n (l ∷ ls) =
    let later = last_named n ls in
    elim later [
      | none ↦ elim (String-discrete n l.name) [ yes _ ↦ some l | no _ ↦ none ]
      | some x ↦ some x
    ]

-- What the gateway holds under a name, where it held `before` at first.
abbrev named_listener : Option GatewayListener → Option Listener → Option Listener
named_listener none before = before
named_listener (some l) before = converted (listener_of l)

by_name-cons :
    (l : GatewayListener) (ls : List GatewayListener) (x : Listener) (m : Map String Listener)
    → listener_of l ≡ Converted.ok x
    → by_name (verify (map listener_of (l ∷ ls))).0 m
      ≡ by_name
          (verify (map listener_of ls)).0
          (Maps.insert String-discrete x.content.config.name x m)
unfolding verify by_name
by_name-cons l ls x m e = rw (e, verify) refl

named_listener-cons :
    (n : String) (l : GatewayListener) (ls : List GatewayListener) (x : Listener)
    (before : Option Listener)
    → listener_of l ≡ Converted.ok x
    → named_listener
        (last_named n ls)
        (elim (String-discrete n l.name) [ yes _ ↦ some x | no _ ↦ before ])
      ≡ named_listener (last_named n (l ∷ ls)) before
named_listener-cons n l ls x before e = elim (Option-cases (last_named n ls)) [
  | inl f ↦
      elim (String-discrete n l.name)
        as (λ d.
          named_listener (last_named n ls) (elim d [ yes _ ↦ some x | no _ ↦ before ])
          ≡ named_listener
              (elim (last_named n ls) [
                | none ↦ elim d [ yes _ ↦ some l | no _ ↦ none ]
                | some y ↦ some y
              ])
              before) [ yes _ ↦ rw (f, e) refl | no _ ↦ rw f refl ]
  | inr (k, f) ↦ rw f refl
]

get-by_name :
    (n : String) (ls : List GatewayListener) (m : Map String Listener)
    → All Converts ls
    → Maps.get String-discrete n (by_name (verify (map listener_of ls)).0 m)
      ≡ named_listener (last_named n ls) (Maps.get String-discrete n m)
unfolding verify by_name
get-by_name n [] m _ = refl
get-by_name n (l ∷ ls) m ((x, e), cs) =
    ap (Maps.get String-discrete n) (by_name-cons l ls x m e)
    ∙ get-by_name n ls (Maps.insert String-discrete x.content.config.name x m) cs
    ∙ ap (named_listener (last_named n ls)) (
        get-insert String-discrete n x.content.config.name x m
        ∙ ap
            (λ q. elim (String-discrete n q) [
              | yes _ ↦ some x
              | no _ ↦ Maps.get String-discrete n m
            ])
            (listener_of_ok l x e).1)
    ∙ named_listener-cons n l ls x (Maps.get String-discrete n m) e

get-listeners :
    (n : String) (ls : List GatewayListener)
    → All Converts ls
    → Maps.get String-discrete n (by_name (verify (map listener_of ls)).0 [])
      ≡ named_listener (last_named n ls) none
unfolding Maps.get
get-listeners n ls cs = get-by_name n ls [] cs

module _ {Uuid : Type 0} (parse_uuid : String → Option Uuid) where
  -- What a gateway of the Gateway API is converted to.
  abbrev pub IsConversion : KubeGateway → GatewayImplementationType → Gateway Uuid → Type 0
  IsConversion g backend_type x =
      (parse_uuid (unwrap_or g.uid "") ≡ some x.id)
      × (x.resource_key ≡ gateway_key g.meta)
      × (x.backend_type ≡ backend_type)
      × (x.addresses ≡ [])
      × (x.orphaned_routes ≡ [])
      × ((n : String)
          → Maps.get String-discrete n x.listeners ≡ named_listener (last_named n g.listeners) none)

  -- A gateway converts exactly if its identifier parses and all its listeners convert. It keeps its
  -- identifier, key and implementation, has no addresses and no orphaned routes, and holds under each
  -- name what the last listener of that name in the specification converts to.
  pub gateway_of_lem :
      (g : KubeGateway) (backend_type : GatewayImplementationType)
      → (((x : Gateway Uuid) × (gateway_of parse_uuid g backend_type ≡ ok x)) ↔ (
          ((id : Uuid) × (parse_uuid (unwrap_or g.uid "") ≡ some id)) × All Converts g.listeners))
        × ((x : Gateway Uuid)
            → gateway_of parse_uuid g backend_type ≡ ok x
            → IsConversion g backend_type x)
  unfolding gateway_of
  gateway_of_lem g backend_type = elim (Option-cases (parse_uuid (unwrap_or g.uid ""))) [
    | inl e ↦ (
      ((λ (x, h). absurd (ground arith)), (λ ((id, f), _). absurd (ground arith))),
      λ x h. absurd (ground arith),
    )
    | inr (id, e) ↦ elim (Bool-cases (is_empty (verify (map listener_of g.listeners)).1)) [
      | inl f ↦
          let cs = (verify_iff g.listeners).0 f in
          let made : Gateway Uuid = record {
            id = id;
            resource_key = gateway_key g.meta;
            addresses = [];
            listeners = by_name (verify (map listener_of g.listeners)).0 [];
            orphaned_routes = [];
            backend_type = backend_type;
          } in
          let h : gateway_of parse_uuid g backend_type ≡ ok made = rw (e, gateway_of, f) refl in
          (
            ((λ _. ((id, e), cs)), (λ _. (made, h))),
            λ x k.
                let same : made ≡ x = ground arith in
                subst (IsConversion g backend_type) same
                  (e, refl, refl, refl, refl, λ n. get-listeners n g.listeners cs),
          )
      | inr f ↦ (
        (
          (λ (x, h). absurd (ground arith)),
          (λ (_, cs). absurd (ground (arith, (verify_iff g.listeners).1 cs))),
        ),
        λ x h. absurd (ground arith),
      )
    ]
  ]
