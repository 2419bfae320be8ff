-- ===== src/Grants/Permits.antt =====
-- When a reference across namespaces is allowed.
use mathlib.Core.List.{Memᴰ}
use mathlib.Core.List.Memᴰ
use kubvernor.Prelude.{
  String, Bool, true, false, false≢true, ◌||◌, Option, List, [], ◌∷◌, map, filter_by, unwrap_or,
  ◌≡◌, ◌↔◌, ◌⊎◌, inl, inr, refl, sym, ap, ◌∙◌, any_iff, mem-filter_by_iff, subst,
}
use kubvernor.Prelude.Sets
use kubvernor.Prelude.Distinct.{mem-contains_iff}
use kubvernor.Keys.{ResourceKey, ReferenceGrantFrom, ReferenceGrantTo}
use kubvernor.Grants.Resolver.{
  Grant, GrantsResolver, ReferenceGrantRef, ReferenceGrantRef-discrete, reference_of, grant_ref,
  from_grant, from_grants, configured, without_name, is_valid, resolve_internal, is_allowed,
}

abbrev dec : Discrete ReferenceGrantRef
dec = ReferenceGrantRef-discrete

-- What a grant says of a gateway's reference.
abbrev pub Says : ResourceKey → Grant → List ReferenceGrantFrom → ReferenceGrantRef → Type 0
Says gateway grant froms x =
    (f : ReferenceGrantFrom) × (t : ReferenceGrantTo) × Memᴰ f froms
    × Memᴰ t grant.to
    × (grant_ref gateway grant f t ≡ x)

mem-from_grant_iff :
    (gateway : ResourceKey) (grant : Grant) (froms : List ReferenceGrantFrom)
    (x : ReferenceGrantRef)
    → Memᴰ x (from_grant gateway grant froms) ↔ Says gateway grant froms x
unfolding from_grant
mem-from_grant_iff gateway grant [] x = (λ m. elim m [ ], λ (f, t, m, _, _). elim m [ ])
mem-from_grant_iff gateway grant (from ∷ froms) x =
    let rest = mem-from_grant_iff gateway grant froms x in
    (
      λ m. elim (Memᴰ.append_cases (map (grant_ref gateway grant from) grant.to) m) [
        | inl h ↦
            let (t, n, e) = Memᴰ.of_map (grant_ref gateway grant from) grant.to h in
            (from, t, Memᴰ.head refl, n, e)
        | inr h ↦ let (f, t, k, n, e) = rest.0 h in (f, t, Memᴰ.tail k, n, e)
      ],
      λ (f, t, k, n, e). elim k [
        | Memᴰ.head q ↦ Memᴰ.append_left (from_grant gateway grant froms) (
            subst (λ y. Memᴰ y (map (grant_ref gateway grant from) grant.to))
              (ap (λ g. grant_ref gateway grant g t) (sym q) ∙ e)
              (Memᴰ.map (grant_ref gateway grant from) n))
        | Memᴰ.tail j ↦
            Memᴰ.append_right (map (grant_ref gateway grant from) grant.to) (rest.1 (f, t, j, n, e))
      ],
    )

mem-from_grants_iff :
    (gateway : ResourceKey) (grants : List Grant) (x : ReferenceGrantRef)
    → Memᴰ x (from_grants gateway grants)
      ↔ ((grant : Grant) × Memᴰ grant grants × Says gateway grant grant.from x)
unfolding from_grants
mem-from_grants_iff gateway [] x = (λ m. elim m [ ], λ (g, m, _). elim m [ ])
mem-from_grants_iff gateway (grant ∷ grants) x =
    let here = mem-from_grant_iff gateway grant grant.from x in
    let rest = mem-from_grants_iff gateway grants x in
    (
      λ m. elim (Memᴰ.append_cases (from_grant gateway grant grant.from) m) [
        | inl h ↦ (grant, Memᴰ.head refl, here.0 h)
        | inr h ↦ let (g, k, says) = rest.0 h in (g, Memᴰ.tail k, says)
      ],
      λ (g, k, says). elim k [
        | Memᴰ.head q ↦
            Memᴰ.append_left (from_grants gateway grants)
              (here.1 (subst (λ h. Says gateway h h.from x) q says))
        | Memᴰ.tail j ↦
            Memᴰ.append_right (from_grant gateway grant grant.from) (rest.1 (g, j, says))
      ],
    )

or_iff : (a b : Bool) → ((a || b) ≡ true) ↔ ((a ≡ true) ⊎ (b ≡ true))
or_iff true b = (λ _. inl refl, λ _. refl)
or_iff false b = (λ e. inr e, λ o. elim o [ inl e ↦ absurd (false≢true e) | inr e ↦ e ])

module _ (list_grants : ReferenceGrantRef → String → Option (List Grant)) where
  -- The grants that the API server lists in the namespace of a tracked reference, when asked for it.
  abbrev pub listed : ReferenceGrantRef → List Grant
  listed r = unwrap_or (list_grants r r.namespace) []

  -- The answer for some tracked reference's namespace has a grant that says `x`.
  abbrev pub IsConfigured : List ReferenceGrantRef → ReferenceGrantRef → Type 0
  IsConfigured rs x =
      (r : ReferenceGrantRef) × Memᴰ r rs
      × ((grant : Grant) × Memᴰ grant (listed r) × Says r.gateway_key grant grant.from x)

  mem-configured_iff :
      (rs : List ReferenceGrantRef) (x : ReferenceGrantRef)
      → Memᴰ x (configured list_grants rs) ↔ IsConfigured rs x
  unfolding configured
  mem-configured_iff [] x = (λ m. elim m [ ], λ (r, m, _). elim m [ ])
  mem-configured_iff (r ∷ rs) x =
      let here = mem-from_grants_iff r.gateway_key (listed r) x in
      let rest = mem-configured_iff rs x in
      (
        λ m. elim (Memᴰ.append_cases (from_grants r.gateway_key (listed r)) m) [
          | inl h ↦ (r, Memᴰ.head refl, here.0 h)
          | inr h ↦ let (q, k, says) = rest.0 h in (q, Memᴰ.tail k, says)
        ],
        λ (q, k, says). elim k [
          | Memᴰ.head p ↦ Memᴰ.append_left (configured list_grants rs) (
              here.1 (
                subst
                  (λ r.
                    (grant : Grant) × Memᴰ grant (listed r) × Says r.gateway_key grant grant.from x)
                  p says))
          | Memᴰ.tail j ↦
              Memᴰ.append_right (from_grants r.gateway_key (listed r)) (rest.1 (q, j, says))
        ],
      )

  same_either :
      (g r : ReferenceGrantRef)
      → ((Sets.same dec g r || Sets.same dec g (without_name r)) ≡ true)
        ↔ ((g ≡ r) ⊎ (g ≡ without_name r))
  same_either g r =
      let first = Sets.same-eq_iff dec g r in
      let second = Sets.same-eq_iff dec g (without_name r) in
      (
        λ e. elim ((or_iff _ _).0 e) [ inl h ↦ inl (first.0 h) | inr h ↦ inr (second.0 h) ],
        λ o. (or_iff _ _).1 (elim o [ inl h ↦ inl (first.1 h) | inr h ↦ inr (second.1 h) ]),
      )

  is_valid_iff :
      (rs : List ReferenceGrantRef) (r : ReferenceGrantRef)
      → (is_valid (configured list_grants rs) r ≡ true)
        ↔ (IsConfigured rs r ⊎ IsConfigured rs (without_name r))
  is_valid_iff rs r =
      let found =
        any_iff (λ g. Sets.same dec g r || Sets.same dec g (without_name r))
          (configured list_grants rs) in
      (
        λ e.
            let (g, m, h) = found.0 e in
            let conf = (mem-configured_iff rs g).0 m in
            elim ((same_either g r).0 h) [
              | inl q ↦ inl (subst (IsConfigured rs) q conf)
              | inr q ↦ inr (subst (IsConfigured rs) q conf)
            ],
        λ o. found.1 (elim o [
          | inl conf ↦ (r, (mem-configured_iff rs r).1 conf, (same_either r r).1 (inl refl))
          | inr conf ↦ (
            without_name r,
            (mem-configured_iff rs (without_name r)).1 conf,
            (same_either (without_name r) r).1 (inr refl),
          )
        ]),
      )

  -- After a turn of the resolver a reference is allowed exactly if it is tracked, and a grant that is
  -- listed in the namespace of a tracked reference names its two objects, or allows all objects of the
  -- second one's group and kind, in the same namespace and for the same gateway.
  pub is_allowed-resolve_internal_iff :
      (from to gateway : ResourceKey) (r : GrantsResolver)
      → let x = reference_of from to gateway in
        (is_allowed from to gateway (resolve_internal list_grants r).0 ≡ true) ↔ (
          (Sets.contains dec x r.references ≡ true)
          × (IsConfigured r.references x ⊎ IsConfigured r.references (without_name x)))
  unfolding is_allowed resolve_internal
  is_allowed-resolve_internal_iff from to gateway r =
      let x = reference_of from to gateway in
      let valid = is_valid (configured list_grants r.references) in
      let kept = mem-filter_by_iff x valid r.references in
      let stored = mem-contains_iff dec x (filter_by valid r.references) in
      let tracked = mem-contains_iff dec x r.references in
      let permitted = is_valid_iff r.references x in
      (
        λ e. let (m, ok) = kept.0 (stored.1 e) in (tracked.0 m, permitted.0 ok),
        λ (t, c). stored.0 (kept.1 (tracked.1 t, permitted.1 c)),
      )
