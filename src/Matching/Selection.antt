-- ===== src/Matching/Selection.antt =====
-- Which listeners a route gets.
use mathlib.Core.List.{Memᴰ}
use mathlib.Core.List.Memᴰ
use kubvernor.Prelude.{
  ℕ, String, str_eq, nat_eq, Bool, true, false, false≢true, ◌&&◌, Option, none, some, List, [], ◌∷◌,
  ◌++◌, filter_by, is_empty, ◌≡◌, ◌↔◌, ◌⊎◌, inl, inr, refl, subst, arith, mem-filter_by_iff,
}
use kubvernor.Prelude.Maps.{Map}
use kubvernor.Keys.{ParentReference, gateway_key}
use kubvernor.Routes.{Route}
use kubvernor.Listeners.Convert.{GatewayListener}
use kubvernor.Listeners.Gateways.{KubeGateway}
use kubvernor.Matching.Matcher.{
  Labels, Found, allowed_by_namespace, allowed_by_hostname, by_name_or_port, names_gateway,
  by_namespace, by_hostname, match_parent, match_parents, filter_matching_route,
}

-- Whether a listener is one that a parent with a port, or a section, may mean.
abbrev pub port_is : Option ℕ → GatewayListener → Bool
port_is none l = true
port_is (some port) l = nat_eq l.port port

abbrev pub section_is : Option String → GatewayListener → Bool
section_is none l = true
section_is (some name) l = str_eq l.name name

mem-append-filter_iff :
    (l : GatewayListener) (q : GatewayListener → Bool) (found ls : List GatewayListener)
    → Memᴰ l (found ++ filter_by q ls) ↔ (Memᴰ l found ⊎ (Memᴰ l ls × (q l ≡ true)))
mem-append-filter_iff l q found ls = (
  λ m. elim (Memᴰ.append_cases found m) [
    | inl h ↦ inl h
    | inr h ↦ inr ((mem-filter_by_iff l q ls).0 h)
  ],
  λ o. elim o [
    | inl h ↦ Memᴰ.append_left (filter_by q ls) h
    | inr h ↦ Memᴰ.append_right found ((mem-filter_by_iff l q ls).1 h)
  ],
)

pub and_iff : (a b : Bool) → ((a && b) ≡ true) ↔ ((a ≡ true) × (b ≡ true))
and_iff a b = ground arith

with_test : {X F M Q R S : Type 0} → (X ↔ (F ⊎ (M × Q))) → (Q ↔ (R × S)) → X ↔ (F ⊎ (M × R × S))
with_test e f = (
  λ x. elim (e.0 x) [ inl h ↦ inl h | inr (m, q) ↦ let (r, s) = f.0 q in inr (m, r, s) ],
  λ o. e.1 (elim o [ inl h ↦ inl h | inr (m, r, s) ↦ inr (m, f.1 (r, s)) ]),
)

mem-by_name_or_port_iff :
    (l : GatewayListener) (port : Option ℕ) (section : Option String) (ls : List GatewayListener)
    (found : Found)
    → Memᴰ l (by_name_or_port port section ls found).0
      ↔ (Memᴰ l found.0 ⊎ (Memᴰ l ls × (port_is port l ≡ true) × (section_is section l ≡ true)))
mem-by_name_or_port_iff l (some port) (some section) ls (found, status) =
    with_test (mem-append-filter_iff l (λ l. nat_eq l.port port && str_eq l.name section) found ls)
      (and_iff (nat_eq l.port port) (str_eq l.name section))
mem-by_name_or_port_iff l (some port) none ls (found, status) =
    with_test (mem-append-filter_iff l (λ l. nat_eq l.port port) found ls)
      (λ q. (q, refl), λ (q, _). q)
mem-by_name_or_port_iff l none (some section) ls (found, status) =
    with_test (mem-append-filter_iff l (λ l. str_eq l.name section) found ls)
      (λ q. (refl, q), λ (_, q). q)
mem-by_name_or_port_iff l none none ls (found, status) =
    with_test (mem-append-filter_iff l (λ l. true) found ls) (λ q. (refl, refl), λ _. refl)

not_mem_empty : {A : Type 0} {x : A} (xs : List A) → is_empty xs ≡ true → ¬ Memᴰ x xs
not_mem_empty [] e m = elim m [ ]
not_mem_empty (y ∷ ys) e m = false≢true e

module _ (pattern : String → Option (String → Bool)) (gateway : KubeGateway)
    (resolved_namespaces : Map String Labels) where
  -- What makes a listener one of those that a route gets by one of its parents.
  abbrev pub IsEligible : Route → GatewayListener → ParentReference → Type 0
  IsEligible route l parent =
      (names_gateway pattern gateway resolved_namespaces route parent ≡ true)
      × Memᴰ l gateway.listeners
      × (allowed_by_namespace resolved_namespaces (gateway_key gateway.meta) route.resource_key l
          ≡ true)
      × (allowed_by_hostname pattern route.hostnames l ≡ true)
      × (port_is parent.port l ≡ true)
      × (section_is parent.section_name l ≡ true)

  pub mem-by_namespace_iff :
      (route : Route) (l : GatewayListener)
      → Memᴰ l (by_namespace pattern gateway resolved_namespaces route) ↔ (
          Memᴰ l gateway.listeners
          × (allowed_by_namespace resolved_namespaces
                (gateway_key gateway.meta)
                route.resource_key
                l
              ≡ true))
  unfolding by_namespace
  mem-by_namespace_iff route l =
      mem-filter_by_iff l
        (allowed_by_namespace resolved_namespaces (gateway_key gateway.meta) route.resource_key)
        gateway.listeners

  pub mem-by_hostname_iff :
      (route : Route) (l : GatewayListener)
      → Memᴰ l (by_hostname pattern gateway resolved_namespaces route) ↔ (
          Memᴰ l (by_namespace pattern gateway resolved_namespaces route)
          × (allowed_by_hostname pattern route.hostnames l ≡ true))
  unfolding by_hostname
  mem-by_hostname_iff route l =
      mem-filter_by_iff l (allowed_by_hostname pattern route.hostnames)
        (by_namespace pattern gateway resolved_namespaces route)

  mem-match_parent_iff :
      (route : Route) (parent : ParentReference) (found : Found) (l : GatewayListener)
      → Memᴰ l (match_parent pattern gateway resolved_namespaces route parent found).0
        ↔ (Memᴰ l found.0 ⊎ IsEligible route l parent)
  mem-match_parent_iff route parent (found, status) l =
      turn (names_gateway pattern gateway resolved_namespaces route parent) refl
        (is_empty (by_namespace pattern gateway resolved_namespaces route)) refl
        (is_empty (by_hostname pattern gateway resolved_namespaces route)) refl
    where
      turn :
          (a : Bool)
          → names_gateway pattern gateway resolved_namespaces route parent ≡ a
          → (b : Bool) → is_empty (by_namespace pattern gateway resolved_namespaces route) ≡ b
          → (c : Bool) → is_empty (by_hostname pattern gateway resolved_namespaces route) ≡ c
          → Memᴰ l (match_parent pattern gateway resolved_namespaces route parent (found, status)).0
            ↔ (Memᴰ l found ⊎ IsEligible route l parent)
      turn false e b f c g =
          rw e ((λ m. inl m), λ o. elim o [ inl m ↦ m | inr k ↦ absurd (false≢true k.0) ])
      turn true e true f c g =
          rw (e, f)
            (
              (λ m. inl m),
              λ o. elim o [
                | inl m ↦ m
                | inr k ↦ absurd (not_mem_empty _ f ((mem-by_namespace_iff route l).1 (k.1, k.2)))
              ],
            )
      turn true e false f true g =
          rw (e, f, g)
            (
              (λ m. inl m),
              λ o. elim o [
                | inl m ↦ m
                | inr k ↦ absurd (
                    not_mem_empty _ g (
                      (mem-by_hostname_iff route l).1
                        ((mem-by_namespace_iff route l).1 (k.1, k.2), k.3)))
              ],
            )
      turn true e false f false g =
          let named =
            mem-by_name_or_port_iff l parent.port parent.section_name
              (by_hostname pattern gateway resolved_namespaces route) (found, status) in
          let host = mem-by_hostname_iff route l in
          let space = mem-by_namespace_iff route l in
          rw (e, f, g)
            (
              (λ m. elim (named.0 m) [
                | inl h ↦ inl h
                | inr (h, at, of) ↦
                    let (n, allowed) = host.0 h in
                    let (given, free) = space.0 n in inr (refl, given, free, allowed, at, of)
              ]),
              (λ o. named.1 (elim o [
                | inl h ↦ inl h
                | inr (_, given, free, allowed, at, of) ↦
                    inr (host.1 (space.1 (given, free), allowed), at, of)
              ])),
            )

  mem-match_parents_iff :
      (route : Route) (parents : List ParentReference) (found : Found) (l : GatewayListener)
      → Memᴰ l (match_parents pattern gateway resolved_namespaces route parents found).0
        ↔ (Memᴰ l found.0 ⊎ ((p : ParentReference) × Memᴰ p parents × IsEligible route l p))
  unfolding match_parents
  mem-match_parents_iff route [] found l =
      (λ m. inl m, λ o. elim o [ inl m ↦ m | inr (p, m, k) ↦ elim m [ ] ])
  mem-match_parents_iff route (parent ∷ parents) found l =
      let rest =
        mem-match_parents_iff route parents
          (match_parent pattern gateway resolved_namespaces route parent found) l in
      let first = mem-match_parent_iff route parent found l in
      (
        λ m. elim (rest.0 m) [
          | inl h ↦ elim (first.0 h) [ inl n ↦ inl n | inr k ↦ inr (parent, Memᴰ.head refl, k) ]
          | inr (p, n, k) ↦ inr (p, Memᴰ.tail n, k)
        ],
        λ o. rest.1 (elim o [
          | inl n ↦ inl (first.1 (inl n))
          | inr (p, Memᴰ.head e, k) ↦ inl (first.1 (inr (subst (IsEligible route l) e k)))
          | inr (p, Memᴰ.tail n, k) ↦ inr (p, n, k)
        ]),
      )

  -- The listeners that `filter_matching_route` finds for a route with parents are those of the gateway
  -- that the route's namespace and host names are admitted by, and of which some parent that names
  -- the gateway has the port and the section, where it gives any.
  pub filter_matching_route_iff :
      (route : Route) (parents : List ParentReference) (l : GatewayListener)
      → Memᴰ l (filter_matching_route pattern gateway resolved_namespaces (some parents) route).0
        ↔ ((p : ParentReference) × Memᴰ p parents × IsEligible route l p)
  unfolding filter_matching_route
  filter_matching_route_iff route parents l =
      let found = mem-match_parents_iff route parents ([], none) l in
      (λ m. elim (found.0 m) [ inl n ↦ elim n [ ] | inr k ↦ k ], λ k. found.1 (inr k))
