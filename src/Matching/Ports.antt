-- ===== src/Matching/Ports.antt =====
-- When the port and the section of a parent set a status.
use mathlib.Core.List.{Memᴰ}
use kubvernor.Prelude.{
  ℕ, String, true, false, true≢false, ◌&&◌, Option, none, some, List, [], ◌∷◌, filter_by, is_empty,
  ◌≡◌, ◌↔◌, ◌⊎◌, inl, inr, refl, arith, mem-filter_by_iff, str_eq, nat_eq, ◌≢◌,
}
use kubvernor.Routes.{ResolutionStatus}
use kubvernor.Listeners.Convert.{GatewayListener}
use kubvernor.Matching.Matcher.{Found, missing, by_name_or_port}
use kubvernor.Matching.Selection.{port_is, section_is, and_iff}

pub some_not_none : {A : Type 0} {x : A} → some x ≡ none → ⊥
some_not_none e = ground arith

pub is_empty_iff : {A : Type 0} (xs : List A) → (is_empty xs ≡ false) ↔ ((x : A) × Memᴰ x xs)
is_empty_iff [] = (λ e. absurd (true≢false e), λ (x, m). elim m [ ])
is_empty_iff (x ∷ xs) = (λ _. (x, Memᴰ.head refl), λ _. refl)

missing_iff :
    (matched : List GatewayListener) (status : Option ResolutionStatus)
    → (missing matched status ≡ none) ↔ ((status ≡ none) × ((l : GatewayListener) × Memᴰ l matched))
missing_iff [] status = (λ e. absurd (ground arith), λ (_, (l, m)). elim m [ ])
missing_iff (l ∷ ls) status = (λ e. (e, (l, Memᴰ.head refl)), λ (e, _). e)

-- A parent gives a port and no section.
abbrev pub OnlyPort : Option ℕ → Option String → Type 0
OnlyPort port section = (port ≢ none) × (section ≡ none)

abbrev pub HasMatch : Option ℕ → Option String → List GatewayListener → Type 0
HasMatch port section ls =
    (l : GatewayListener) × Memᴰ l ls × (port_is port l ≡ true) × (section_is section l ≡ true)

by_name_or_port-none_iff :
    (port : Option ℕ) (section : Option String) (l : GatewayListener) (ls : List GatewayListener)
    (found : Found)
    → ((by_name_or_port port section (l ∷ ls) found).1 ≡ none)
      ↔ ((found.1 ≡ none) × (HasMatch port section (l ∷ ls) ⊎ OnlyPort port section))
by_name_or_port-none_iff (some p) (some s) l ls (found, status) =
    let matched =
      missing_iff (filter_by (λ l. nat_eq l.port p && str_eq l.name s) (l ∷ ls)) status in
    (
      λ e.
          let (f, (k, m)) = matched.0 e in
          let (n, both) =
            (mem-filter_by_iff k (λ l. nat_eq l.port p && str_eq l.name s) (l ∷ ls)).0 m in
          let (at, of) = (and_iff (nat_eq k.port p) (str_eq k.name s)).0 both in
          (f, inl (k, n, at, of)),
      λ (f, o). elim o [
        | inl (k, n, at, of) ↦ matched.1 (
          f,
          (
            k,
            (mem-filter_by_iff k (λ l. nat_eq l.port p && str_eq l.name s) (l ∷ ls)).1
                (n, (and_iff (nat_eq k.port p) (str_eq k.name s)).1 (at, of)),
          ),
        )
        | inr (_, q) ↦ absurd (ground arith)
      ],
    )
by_name_or_port-none_iff (some p) none l ls (found, status) =
    (λ e. (e, inr ((λ q. ground arith), refl)), λ (e, _). e)
by_name_or_port-none_iff none (some s) l ls (found, status) =
    let matched = missing_iff (filter_by (λ l. str_eq l.name s) (l ∷ ls)) status in
    (
      λ e.
          let (f, (k, m)) = matched.0 e in
          let (n, of) = (mem-filter_by_iff k (λ l. str_eq l.name s) (l ∷ ls)).0 m in
          (f, inl (k, n, refl, of)),
      λ (f, o). elim o [
        | inl (k, n, _, of) ↦
            matched.1 (f, (k, (mem-filter_by_iff k (λ l. str_eq l.name s) (l ∷ ls)).1 (n, of)))
        | inr (q, _) ↦ absurd (q refl)
      ],
    )
by_name_or_port-none_iff none none l ls (found, status) =
    (λ e. (e, inl (l, Memᴰ.head refl, refl, refl)), λ (e, _). e)

pub by_name_or_port_status :
    (port : Option ℕ) (section : Option String) (ls : List GatewayListener) (found : Found)
    → is_empty ls ≡ false
    → ((by_name_or_port port section ls found).1 ≡ none)
      ↔ ((found.1 ≡ none) × (HasMatch port section ls ⊎ OnlyPort port section))
by_name_or_port_status port section [] found e = absurd (true≢false e)
by_name_or_port_status port section (l ∷ ls) found e =
    by_name_or_port-none_iff port section l ls found
