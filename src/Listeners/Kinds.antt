-- ===== src/Listeners/Kinds.antt =====
-- Which kinds of routes a listener says that it supports.
use kubvernor.Prelude.{
  String, Bool, true, false, not, ◌||◌, some, List, [], ◌∷◌, map, filter_by, any, is_empty,
  if◌then◌else◌, ◌≡◌, ◌↔◌, refl, arith, All, Bool-cases, inl, inr,
}
use kubvernor.Listeners.Conditions.{resolved_refs, approved_routes, supported_routes, resolved_type}
use kubvernor.Listeners.Convert.{
  GatewayListener, AllowedRoutes, RouteGroupKind, validate_allowed_routes, is_approved, listed_refs,
  kinds_refs,
}

abbrev invalid_kinds : List String → List String
invalid_kinds kinds = filter_by (λ k. not (is_approved k)) kinds

is_empty-invalid_iff :
    (kinds : List String)
    → (is_empty (invalid_kinds kinds) ≡ true) ↔ All (λ k. is_approved k ≡ true) kinds
is_empty-invalid_iff [] = (λ _. tt, λ _. refl)
is_empty-invalid_iff (k ∷ ks) = elim (Bool-cases (is_approved k)) [
  | inl e ↦ (
    λ h. (e, (is_empty-invalid_iff ks).0 (ground arith)),
    λ (_, h). let rest = (is_empty-invalid_iff ks).1 h in ground arith,
  )
  | inr e ↦ (λ h. absurd (ground arith), λ (f, _). absurd (ground arith))
]

is_empty-approved :
    (kinds : List String) → is_empty (filter_by is_approved kinds) ≡ not (any is_approved kinds)
is_empty-approved [] = refl
is_empty-approved (k ∷ ks) = ground (arith, is_empty-approved ks)

kinds_refs_status :
    (a b : Bool) (xs : List String)
    → ((resolved_type (resolved_refs (kinds_refs a b xs))).0 ≡ "True") ↔ (b ≡ true)
unfolding resolved_type
kinds_refs_status a true xs = (λ _. refl, λ _. refl)
kinds_refs_status true false xs = (λ h. absurd (cc), λ h. absurd (cc))
kinds_refs_status false false xs = (λ h. absurd (cc), λ h. absurd (cc))

supported_routes-kinds_refs :
    (a b : Bool) (xs : List String)
    → supported_routes (resolved_refs (kinds_refs a b xs))
      ≡ (if not a || b then xs else approved_routes)
unfolding supported_routes
supported_routes-kinds_refs true true xs = refl
supported_routes-kinds_refs false true xs = refl
supported_routes-kinds_refs true false xs = refl
supported_routes-kinds_refs false false xs = refl

is_empty-listed :
    (kinds : List String)
    → (not (is_empty (filter_by is_approved kinds)) || is_empty (invalid_kinds kinds))
      ≡ (is_empty kinds || any is_approved kinds)
is_empty-listed [] = refl
is_empty-listed (k ∷ ks) = ground (arith, is_empty-approved ks)

listed_refs_lem :
    (kinds : List String)
    → (((resolved_type (resolved_refs (listed_refs kinds))).0 ≡ "True")
        ↔ All (λ k. is_approved k ≡ true) kinds)
      × (supported_routes (resolved_refs (listed_refs kinds)) ≡ (
          if is_empty kinds || any is_approved kinds
          then filter_by is_approved kinds
          else approved_routes))
listed_refs_lem kinds =
    let supported = filter_by is_approved kinds in
    let a = is_empty supported in
    let b = is_empty (invalid_kinds kinds) in
    let status = kinds_refs_status a b supported in
    let invalid = is_empty-invalid_iff kinds in
    (
      ((λ h. invalid.0 (status.0 h)), (λ h. status.1 (invalid.1 h))),
      rw (← is_empty-listed kinds) (supported_routes-kinds_refs a b supported),
    )

-- Where a listener lists kinds of routes, its status for them is "True" exactly if every kind is
-- approved; the kinds that it says it supports are the approved ones among them, in their order, but
-- all approved kinds if kinds are listed and none of them is approved.
pub validate_allowed_routes_lem :
    (l : GatewayListener) (ar : AllowedRoutes) (listed : List RouteGroupKind)
    → l.allowed_routes ≡ some ar
    → ar.kinds ≡ some listed
    → let kinds = map (λ k. k.kind) listed in
      (((resolved_type (validate_allowed_routes l)).0 ≡ "True")
        ↔ All (λ k. is_approved k ≡ true) kinds)
      × (supported_routes (validate_allowed_routes l) ≡ (
          if is_empty kinds || any is_approved kinds
          then filter_by is_approved kinds
          else approved_routes))
unfolding validate_allowed_routes
validate_allowed_routes_lem l ar listed e f = rw (e, f) (listed_refs_lem (map (λ k. k.kind) listed))
