-- ===== src/Lifecycle/Decisions.antt =====
-- Which keys a route refers to.
use mathlib.Core.List.{Memᴰ}
use kubvernor.Prelude.{
  Bool, true, false, false≢true, ◌||◌, List, [], ◌∷◌, ◌≡◌, ◌↔◌, refl, sym, ◌∙◌, arith, any, any_iff,
  ap,
}
use kubvernor.Prelude.Sets
use kubvernor.Prelude.Sets.{same, contains-insert, same-eq_iff}
use kubvernor.Keys.{ResourceKey, ResourceKey-discrete}
use kubvernor.Routes.{Backend, BackendType, Route, type_key, backends}
use kubvernor.Lifecycle.Routes.{references_from, extract_references}

-- A backend that is not resolved yet and of the key.
abbrev pub IsOpen : ResourceKey → Backend → Type 0
IsOpen k b = (t : BackendType) × (b ≡ Backend.maybe t) × (k ≡ type_key t)

abbrev dec : Discrete ResourceKey
dec = ResourceKey-discrete

abbrev open_with : ResourceKey → Backend → Bool
open_with k (Backend.maybe t) = same dec k (type_key t)
open_with k (Backend.resolved t) = false
open_with k (Backend.unresolved t) = false
open_with k (Backend.not_allowed t) = false
open_with k (Backend.invalid t) = false

open_with_iff : (k : ResourceKey) (b : Backend) → (open_with k b ≡ true) ↔ IsOpen k b
open_with_iff k (Backend.maybe t) = (
  λ e. (t, refl, (same-eq_iff dec k (type_key t)).0 e),
  λ (u, e, f).
      (same-eq_iff dec k (type_key t)).1
        (let back : t ≡ u = (ground arith) in f ∙ sym (ap type_key back)),
)
open_with_iff k (Backend.resolved t) = (λ e. absurd (false≢true e), λ (u, e, f). absurd (cc))
open_with_iff k (Backend.unresolved t) = (λ e. absurd (false≢true e), λ (u, e, f). absurd (cc))
open_with_iff k (Backend.not_allowed t) = (λ e. absurd (false≢true e), λ (u, e, f). absurd (cc))
open_with_iff k (Backend.invalid t) = (λ e. absurd (false≢true e), λ (u, e, f). absurd (cc))

contains-references_from :
    (k : ResourceKey) (bs : List Backend) (found : List ResourceKey)
    → Sets.contains dec k (references_from bs found)
      ≡ (Sets.contains dec k found || any (open_with k) bs)
unfolding references_from
contains-references_from k [] found = ground arith
contains-references_from k (Backend.maybe t ∷ bs) found = ground (
  arith,
  contains-references_from k bs (Sets.insert dec (type_key t) found),
  contains-insert dec k (type_key t) found,
)
contains-references_from k (Backend.resolved t ∷ bs) found = contains-references_from k bs found
contains-references_from k (Backend.unresolved t ∷ bs) found = contains-references_from k bs found
contains-references_from k (Backend.not_allowed t ∷ bs) found = contains-references_from k bs found
contains-references_from k (Backend.invalid t ∷ bs) found = contains-references_from k bs found

-- The references of a route are the keys of its backends that are not resolved yet: all of them, and no
-- others. The backends of its filters are not among them.
pub extract_references_iff :
    (k : ResourceKey) (route : Route)
    → (Sets.contains dec k (extract_references route) ≡ true)
      ↔ ((b : Backend) × Memᴰ b (backends route) × IsOpen k b)
unfolding extract_references Sets.contains
extract_references_iff k route =
    let all = contains-references_from k (backends route) [] in
    let found = any_iff (open_with k) (backends route) in
    (
      λ e. let (b, m, o) = found.0 (sym all ∙ e) in (b, m, (open_with_iff k b).0 o),
      λ (b, m, o). all ∙ found.1 (b, m, (open_with_iff k b).1 o),
    )
