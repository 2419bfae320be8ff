-- ===== src/Matching/Statuses.antt =====
-- When the search for a route's listeners sets a status.
use mathlib.Core.List.{Memᴰ}
use kubvernor.Prelude.{
  String, Bool, true, false, true≢false, Option, none, some, List, [], ◌∷◌, is_empty, ◌≡◌, ◌↔◌, ◌⊎◌,
  inl, inr, refl, sym, ◌∙◌, All,
}
use kubvernor.Prelude.Maps.{Map}
use kubvernor.Keys.{ParentReference}
use kubvernor.Routes.{Route, not_resolved, not_allowed_by_listeners, no_matching_listener_hostname}
use kubvernor.Listeners.Convert.{GatewayListener}
use kubvernor.Listeners.Gateways.{KubeGateway}
use kubvernor.Matching.Matcher.{
  Labels, Found, by_name_or_port, names_gateway, by_namespace, by_hostname, match_parent,
  match_parents, filter_matching_route,
}
use kubvernor.Matching.Selection.{IsEligible, mem-by_hostname_iff, mem-by_namespace_iff}
use kubvernor.Matching.Ports.{
  OnlyPort, HasMatch, is_empty_iff, some_not_none, by_name_or_port_status,
}

module _ (pattern : String → Option (String → Bool)) (gateway : KubeGateway)
    (resolved_namespaces : Map String Labels) where
  -- A parent that does not name the gateway, or that leads to a listener, or that gives a port and no
  -- section where the route's namespace and host names are admitted by some listener.
  abbrev pub IsSettled : Route → ParentReference → Type 0
  IsSettled route parent =
      (names_gateway pattern gateway resolved_namespaces route parent ≡ false)
      ⊎ (((l : GatewayListener) × IsEligible pattern gateway resolved_namespaces route l parent)
          ⊎ (OnlyPort parent.port parent.section_name
              × ((l : GatewayListener) × Memᴰ l
                    (by_hostname pattern gateway resolved_namespaces route))))

  named_status :
      (route : Route) (parent : ParentReference) (found : Found)
      → names_gateway pattern gateway resolved_namespaces route parent ≡ true
      → is_empty (by_hostname pattern gateway resolved_namespaces route) ≡ false
      → ((found.1 ≡ none)
          × (HasMatch parent.port parent.section_name
                (by_hostname pattern gateway resolved_namespaces route)
              ⊎ OnlyPort parent.port parent.section_name))
        ↔ ((found.1 ≡ none) × IsSettled route parent)
  named_status route parent found e g =
      let host = mem-by_hostname_iff pattern gateway resolved_namespaces route in
      let space = mem-by_namespace_iff pattern gateway resolved_namespaces route in
      (
        λ (f, o). (
          f,
          elim o [
            | inl (l, m, at, of) ↦
                let (n, allowed) = (host l).0 m in
                let (given, free) = (space l).0 n in
                inr (inl (l, (e, given, free, allowed, at, of)))
            | inr only ↦ inr (inr (only, (is_empty_iff _).0 g))
          ],
        ),
        λ (f, o). (
          f,
          elim o [
            | inl other ↦ absurd (true≢false (sym e ∙ other))
            | inr (inl (l, (_, given, free, allowed, at, of))) ↦
                inl (l, (host l).1 ((space l).1 (given, free), allowed), at, of)
            | inr (inr (only, _)) ↦ inr only
          ],
        ),
      )

  unsettled :
      (route : Route) (parent : ParentReference)
      → names_gateway pattern gateway resolved_namespaces route parent ≡ true
      → ((l : GatewayListener) → ¬ Memᴰ l (by_hostname pattern gateway resolved_namespaces route))
      → ¬ IsSettled route parent
  unsettled route parent e nothing o =
      let host = mem-by_hostname_iff pattern gateway resolved_namespaces route in
      let space = mem-by_namespace_iff pattern gateway resolved_namespaces route in
      elim o [
        | inl other ↦ true≢false (sym e ∙ other)
        | inr (inl (l, (_, given, free, allowed, _, _))) ↦
            nothing l ((host l).1 ((space l).1 (given, free), allowed))
        | inr (inr (_, (l, m))) ↦ nothing l m
      ]

  match_parent_status :
      (route : Route) (parent : ParentReference) (found : Found)
      → ((match_parent pattern gateway resolved_namespaces route parent found).1 ≡ none)
        ↔ ((found.1 ≡ none) × IsSettled route parent)
  match_parent_status route parent (found, status) =
      turn (names_gateway pattern gateway resolved_namespaces route parent) refl
        (is_empty (by_namespace pattern gateway resolved_namespaces route)) refl
        (is_empty (by_hostname pattern gateway resolved_namespaces route)) refl
    where
      turn :
          (a : Bool)
          → names_gateway pattern gateway resolved_namespaces route parent ≡ a
          → (b : Bool) → is_empty (by_namespace pattern gateway resolved_namespaces route) ≡ b
          → (c : Bool) → is_empty (by_hostname pattern gateway resolved_namespaces route) ≡ c
          → ((match_parent pattern gateway resolved_namespaces route parent (found, status)).1
              ≡ none)
            ↔ ((status ≡ none) × IsSettled route parent)
      turn false e b f c g =
          let reached : (match_parent pattern gateway resolved_namespaces route parent
                (found, status)).1
              ≡ status =
            rw e refl in
          (λ k. (sym reached ∙ k, inl e), λ (k, _). reached ∙ k)
      turn true e true f c g =
          let reached : (match_parent pattern gateway resolved_namespaces route parent
                (found, status)).1
              ≡ some (not_resolved not_allowed_by_listeners) =
            rw (e, f) refl in
          let host = mem-by_hostname_iff pattern gateway resolved_namespaces route in
          (
            λ k. absurd (some_not_none (sym reached ∙ k)),
            λ (_, o). absurd (
                unsettled route parent e
                  (λ l m. true≢false (sym f ∙ (is_empty_iff _).1 (l, ((host l).0 m).0))) o),
          )
      turn true e false f true g =
          let reached : (match_parent pattern gateway resolved_namespaces route parent
                (found, status)).1
              ≡ some (not_resolved no_matching_listener_hostname) =
            rw (e, f, g) refl in
          (
            λ k. absurd (some_not_none (sym reached ∙ k)),
            λ (_, o). absurd (
                unsettled route parent e (λ l m. true≢false (sym g ∙ (is_empty_iff _).1 (l, m))) o),
          )
      turn true e false f false g =
          let named = named_status route parent (found, status) e g in
          let ls = by_hostname pattern gateway resolved_namespaces route in
          let status_of =
            by_name_or_port_status parent.port parent.section_name ls (found, status) g in
          let reached : (match_parent pattern gateway resolved_namespaces route parent
                (found, status)).1
              ≡ (by_name_or_port parent.port parent.section_name ls (found, status)).1 =
            rw (e, f, g) refl in
          (λ k. named.0 (status_of.0 (sym reached ∙ k)), λ k. reached ∙ status_of.1 (named.1 k))

  match_parents_status :
      (route : Route) (parents : List ParentReference) (found : Found)
      → ((match_parents pattern gateway resolved_namespaces route parents found).1 ≡ none)
        ↔ ((found.1 ≡ none) × All (IsSettled route) parents)
  unfolding match_parents
  match_parents_status route [] found = (λ e. (e, tt), λ (e, _). e)
  match_parents_status route (parent ∷ parents) found =
      let first = match_parent_status route parent found in
      let rest =
        match_parents_status route parents
          (match_parent pattern gateway resolved_namespaces route parent found) in
      (
        λ e. let (f, all) = rest.0 e in let (k, one) = first.0 f in (k, (one, all)),
        λ (k, (one, all)). rest.1 (first.1 (k, one), all),
      )

  -- The search for the listeners of a route with parents sets no status exactly if each parent is
  -- settled: it does not name the gateway, or it leads to a listener, or it gives a port and no
  -- section and some listener of the gateway admits the route's namespace and host names.
  pub filter_matching_route-none_iff :
      (route : Route) (parents : List ParentReference)
      → ((filter_matching_route pattern gateway resolved_namespaces (some parents) route).1 ≡ none)
        ↔ All (IsSettled route) parents
  unfolding filter_matching_route
  filter_matching_route-none_iff route parents =
      let found = match_parents_status route parents ([], none) in
      (λ e. (found.0 e).1, λ all. found.1 (refl, all))
