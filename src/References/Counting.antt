-- ===== src/References/Counting.antt =====
-- What the loops over the counters compute.
use mathlib.Core.Option
use kubvernor.Prelude.{
  ℕ, zero, suc, ◌+◌, ◌-◌, ◌≤◌, Bool, Option, none, some, List, [], ◌∷◌, ◌++◌, ◌≡◌, refl, arith, ltb,
  if◌then◌else◌, unwrap_or, Option-cases, inl, inr, ◌⊎◌,
}
use kubvernor.Prelude.Maps.{Map, get-insert, get-remove}
use kubvernor.Prelude.Maps
use kubvernor.Prelude.Sets
use kubvernor.Prelude.Distinct.{Distinct, insert-Distinct, remove-Distinct, test_found}
use kubvernor.Keys.{ResourceKey, ResourceKey-discrete}
use kubvernor.References.Resolver.{
  References, usize_max, release_all, retain_all, unused, remove_all, with_parents, decremented,
  incremented, decrement, remove, all_references, RouteToReferenceMapping,
  GatewayToRouteReferenceMapping,
}

abbrev dec : Discrete ResourceKey
dec = ResourceKey-discrete

-- How often a key stands in a list.
abbrev pub occurs : ResourceKey → List ResourceKey → ℕ
occurs k [] = 0
occurs k (x ∷ xs) = elim (dec k x) [ yes _ ↦ suc (occurs k xs) | no _ ↦ occurs k xs ]

-- How often the routes of one gateway, and of all gateways, refer to a key.
abbrev pub mentions : ResourceKey → RouteToReferenceMapping → ℕ
mentions k [] = 0
mentions k ((route, resources) ∷ m) = occurs k resources + mentions k m

abbrev pub total : ResourceKey → GatewayToRouteReferenceMapping → ℕ
total k [] = 0
total k ((gateway, routes) ∷ m) = mentions k routes + total k m

occurs-append :
    (k : ResourceKey) (xs ys : List ResourceKey) → occurs k (xs ++ ys) ≡ occurs k xs + occurs k ys
occurs-append k [] ys = omega arith
occurs-append k (x ∷ xs) ys = ground (arith, occurs-append k xs ys)

pub occurs-all_references :
    (k : ResourceKey) (m : RouteToReferenceMapping) → occurs k (all_references m) ≡ mentions k m
unfolding all_references
occurs-all_references k [] = refl
occurs-all_references k ((route, resources) ∷ m) =
    omega (arith, occurs-append k resources (all_references m), occurs-all_references k m)

-- A counter with references taken from it, and with references added to it.
abbrev pub less : ℕ → Option ℕ → Option ℕ
less d none = none
less d (some n) = some (n - d)

abbrev pub more : ℕ → Option ℕ → Option ℕ
more zero o = o
more (suc d) o = some (unwrap_or o 0 + suc d)

pub get-decremented :
    (k j : ResourceKey) (p : Map ResourceKey ℕ)
    → Maps.get dec k (decremented j (Maps.get dec j p) p) ≡ (elim (dec k j) [
      | yes _ ↦ Option.map decrement (Maps.get dec k p)
      | no _ ↦ Maps.get dec k p
    ])
get-decremented k j p = elim (Option-cases (Maps.get dec j p)) [
  | inl e ↦ rw e (ground arith)
  | inr (n, e) ↦ rw e (ground (arith, get-insert dec k j (decrement n) p))
]

-- A counter that has the references to lose loses just those.
pub get-release_all :
    (k : ResourceKey) (ks : List ResourceKey) (p : Map ResourceKey ℕ)
    → occurs k ks ≤ unwrap_or (Maps.get dec k p) 0
    → Maps.get dec k (release_all ks p) ≡ less (occurs k ks) (Maps.get dec k p)
unfolding release_all
get-release_all k [] p h = ground arith
get-release_all k (j ∷ ks) p h = ground (
  arith,
  get-release_all k ks p,
  get-release_all k ks (decremented j (Maps.get dec j p) p),
  get-decremented k j p,
)

pub get-retain_all :
    (k : ResourceKey) (ks : List ResourceKey) (p : Map ResourceKey ℕ)
    → (occurs k ks ≡ 0) ⊎ (unwrap_or (Maps.get dec k p) 0 + occurs k ks ≤ usize_max)
    → Maps.get dec k (retain_all ks p) ≡ more (occurs k ks) (Maps.get dec k p)
unfolding retain_all
get-retain_all k [] p h = refl
get-retain_all k (j ∷ ks) p h = ground (
  arith,
  get-retain_all k ks (Maps.insert dec j (incremented (Maps.get dec j p)) p),
  get-insert dec k j (incremented (Maps.get dec j p)) p,
)

-- Whether a counter stands at 0.
abbrev pub is_unused : Option ℕ → Bool
is_unused o = test_found (λ n. ltb n 1) o

contains-unused :
    (k : ResourceKey) (p : Map ResourceKey ℕ)
    → Distinct dec p
    → Sets.contains dec k (unused p) ≡ test_found (λ n. ltb n 1) (Maps.get dec k p)
unfolding unused Maps.get Sets.contains
contains-unused k [] d = refl
contains-unused k ((j, n) ∷ p) (new, d) = ground (arith, contains-unused k p d)

module _ {R : Type 0} where
  get-remove_all :
      (k : ResourceKey) (ks : List ResourceKey) (r : References R)
      → (Maps.get dec k (remove_all ks r).parents
          ≡ (if Sets.contains dec k ks then none else Maps.get dec k r.parents))
        × (Maps.get dec k (remove_all ks r).resolved_references
            ≡ (if Sets.contains dec k ks then none else Maps.get dec k r.resolved_references))
  unfolding remove_all Sets.contains
  get-remove_all k [] r = (refl, refl)
  get-remove_all k (j ∷ ks) r = ground (
    arith,
    get-remove_all k ks (remove j r),
    get-remove dec k j r.parents,
    get-remove dec k j r.resolved_references,
  )

  -- After the counters are written back, a counter that stands at 0 is gone and with it the reference
  -- that was resolved for its key; all else is as the counters and the references were.
  pub get-with_parents :
      (k : ResourceKey) (p : Map ResourceKey ℕ) (r : References R)
      → Distinct dec p
      → (Maps.get dec k (with_parents p r).parents
          ≡ (if is_unused (Maps.get dec k p) then none else Maps.get dec k p))
        × (Maps.get dec k (with_parents p r).resolved_references
            ≡ (if is_unused (Maps.get dec k p) then none else Maps.get dec k r.resolved_references))
  unfolding with_parents
  get-with_parents k p r d =
      rw (← contains-unused k p d) (get-remove_all k (unused p) (record r { parents = p }))

  remove_all-Distinct :
      (ks : List ResourceKey) (r : References R)
      → Distinct dec r.parents
      → Distinct dec (remove_all ks r).parents
  unfolding remove_all
  remove_all-Distinct [] r d = d
  remove_all-Distinct (k ∷ ks) r d =
      remove_all-Distinct ks (remove k r) (remove-Distinct dec k r.parents d)

  pub with_parents-Distinct :
      (p : Map ResourceKey ℕ) (r : References R)
      → Distinct dec p
      → Distinct dec (with_parents p r).parents
  unfolding with_parents
  with_parents-Distinct p r d = remove_all-Distinct (unused p) (record r { parents = p }) d

pub release_all-Distinct :
    (ks : List ResourceKey) (p : Map ResourceKey ℕ)
    → Distinct dec p
    → Distinct dec (release_all ks p)
unfolding release_all
release_all-Distinct [] p d = d
release_all-Distinct (k ∷ ks) p d = elim (Option-cases (Maps.get dec k p)) [
  | inl e ↦ rw e (release_all-Distinct ks p d)
  | inr (n, e) ↦
      rw e
        (release_all-Distinct ks (Maps.insert dec k (decrement n) p) (insert-Distinct dec k _ p d))
]

pub retain_all-Distinct :
    (ks : List ResourceKey) (p : Map ResourceKey ℕ)
    → Distinct dec p
    → Distinct dec (retain_all ks p)
unfolding retain_all
retain_all-Distinct [] p d = d
retain_all-Distinct (k ∷ ks) p d = retain_all-Distinct ks _ (insert-Distinct dec k _ p d)

-- The references of all gateways, after a gateway's routes were replaced or taken away.
pub total-insert :
    (k g : ResourceKey) (new : RouteToReferenceMapping) (m : GatewayToRouteReferenceMapping)
    → total k (Maps.insert dec g new m) + mentions k (unwrap_or (Maps.get dec g m) [])
      ≡ total k m + mentions k new
unfolding Maps.insert Maps.get
total-insert k g new [] = omega arith
total-insert k g new ((j, old) ∷ m) = ground (arith, total-insert k g new m)

pub total-remove_absent :
    (k g : ResourceKey) (m : GatewayToRouteReferenceMapping)
    → Maps.get dec g m ≡ none
    → total k (Maps.remove dec g m) ≡ total k m
unfolding Maps.remove Maps.get
total-remove_absent k g [] e = refl
total-remove_absent k g ((j, old) ∷ m) e = ground (arith, total-remove_absent k g m)

pub total-remove :
    (k g : ResourceKey) (m : GatewayToRouteReferenceMapping)
    → Distinct dec m
    → total k (Maps.remove dec g m) + mentions k (unwrap_or (Maps.get dec g m) []) ≡ total k m
unfolding Maps.remove Maps.get
total-remove k g [] d = refl
total-remove k g ((j, old) ∷ m) (new, d) =
    ground (arith, total-remove k g m d, total-remove_absent k j m new)
