-- ===== src/Matching/Hostnames.antt =====
-- `HostnameMatchFilter` (kubvernor-controller/src/controllers/utils/hostname_match_filter.rs). The
-- patterns of domains, a package, are a parameter: what a text is compiled to, if it is a pattern.
use Prim.Native.String
use Prim.Native.String.{len, slice}
use text.Mathlib.Text.{starts_with}
use kubvernor.Prelude.{
  String, str_eq, eq_iff, Bool, true, false, not, ◌&&◌, Option, none, some, List, [], ◌∷◌,
  filter_by, any, is_empty, if◌then◌else◌, ◌≡◌, ◌↔◌, ◌⊎◌, sym, ◌∙◌, subst, false≢true, inl, inr,
  refl, arith, any_iff, mem-filter_by_iff, Option-cases,
}
use mathlib.Core.List.{Memᴰ}

abbrev pub default_route_hostname : String
default_route_hostname = "*"

abbrev pub first_is_default : List String → Bool
first_is_default [] = false
first_is_default (h ∷ _) = str_eq h default_route_hostname

-- The text of the listener's pattern: `strip_prefix("*.")`, then "**+." and the rest.
unfoldable pub listener_pattern : String → String
listener_pattern s = if starts_with s "*." then String.◌++◌ "**+." (slice s 2 (len s)) else s

abbrev pub is_wildcard : String → Bool
is_wildcard h = starts_with h "*."

module _ (pattern : String → Option (String → Bool)) where
  -- Whether a host name of a route is a pattern that the listener's host name matches.
  abbrev pub pattern_matches : String → String → Bool
  pattern_matches listener_hostname h = elim (pattern h) [
    | none ↦ false
    | some p ↦ p listener_hostname
  ]

  abbrev pub compiled_matches : String → List String → (String → Bool) → Bool
  compiled_matches listener_hostname hostnames p =
      let wildcards = filter_by is_wildcard hostnames in
      if any p hostnames
      then true
      else if is_empty wildcards
      then false
      else any (pattern_matches listener_hostname) wildcards

  -- `HostnameMatchFilter::filter`
  unfoldable pub hostname_filter : String → List String → Bool
  hostname_filter listener_hostname hostnames =
      if not (is_empty hostnames) && str_eq listener_hostname ""
      then true
      else if is_empty hostnames
      then true
      else if first_is_default hostnames
      then true
      else elim (pattern (listener_pattern listener_hostname)) [
        | none ↦ false
        | some p ↦ compiled_matches listener_hostname hostnames p
      ]

  -- What matching means: a host name of the route is an instance of the listener's pattern, or a
  -- wildcard of the route is a pattern of which the listener's host name is an instance.
  abbrev pub Admits : String → List String → (String → Bool) → Type 0
  Admits listener_hostname hostnames p =
      ((h : String) × Memᴰ h hostnames × (p h ≡ true))
      ⊎ ((h : String) × Memᴰ h hostnames
          × (is_wildcard h ≡ true)
          × (q : String → Bool) × (pattern h ≡ some q)
          × (q listener_hostname ≡ true))

  abbrev pub Matches : String → List String → Type 0
  Matches listener_hostname hostnames =
      (p : String → Bool) × (pattern (listener_pattern listener_hostname) ≡ some p)
      × Admits listener_hostname hostnames p

  pattern_matches_iff :
      (l h : String)
      → (pattern_matches l h ≡ true) ↔ ((q : String → Bool) × (pattern h ≡ some q) × (q l ≡ true))
  pattern_matches_iff l h = elim (Option-cases (pattern h)) [
    | inl e ↦ (λ k. absurd (ground arith), λ (q, f, _). absurd (ground arith))
    | inr (p, e) ↦ (λ k. (p, e, ground arith), λ (q, f, k). ground arith)
  ]

  compiled_matches_iff :
      (l : String) (hs : List String) (p : String → Bool)
      → (compiled_matches l hs p ≡ true)
        ↔ ((any p hs ≡ true) ⊎ (any (pattern_matches l) (filter_by is_wildcard hs) ≡ true))
  compiled_matches_iff l hs p = any_or (any p hs) (filter_by is_wildcard hs)
    where
      any_or :
          (b : Bool) (ws : List String)
          → ((if b then true else if is_empty ws then false else any (pattern_matches l) ws) ≡ true)
            ↔ ((b ≡ true) ⊎ (any (pattern_matches l) ws ≡ true))
      any_or true ws = (λ _. inl refl, λ _. refl)
      any_or false [] = (λ h. inr h, λ o. elim o [ inl h ↦ absurd (false≢true h) | inr h ↦ h ])
      any_or false (w ∷ ws) =
          (λ h. inr h, λ o. elim o [ inl h ↦ absurd (false≢true h) | inr h ↦ h ])

  wildcard_iff :
      (l : String) (hs : List String)
      → (any (pattern_matches l) (filter_by is_wildcard hs) ≡ true) ↔ (
          (h : String) × Memᴰ h hs
          × (is_wildcard h ≡ true)
          × (q : String → Bool) × (pattern h ≡ some q)
          × (q l ≡ true))
  wildcard_iff l hs = (
    λ k.
        let (h, m, found) = (any_iff (pattern_matches l) (filter_by is_wildcard hs)).0 k in
        let (n, wild) = (mem-filter_by_iff h is_wildcard hs).0 m in
        let (q, e, k) = (pattern_matches_iff l h).0 found in (h, n, wild, q, e, k),
    λ (h, n, wild, q, e, k). (any_iff (pattern_matches l) (filter_by is_wildcard hs)).1 (
      h,
      (mem-filter_by_iff h is_wildcard hs).1 (n, wild),
      (pattern_matches_iff l h).1 (q, e, k),
    ),
  )

  compiled_matches-Admits_iff :
      (l : String) (hs : List String) (p : String → Bool)
      → (compiled_matches l hs p ≡ true) ↔ Admits l hs p
  compiled_matches-Admits_iff l hs p = (
    λ k. elim ((compiled_matches_iff l hs p).0 k) [
      | inl h ↦ inl ((any_iff p hs).0 h)
      | inr h ↦ inr ((wildcard_iff l hs).0 h)
    ],
    λ k.
        (compiled_matches_iff l hs p).1
          (elim k [ inl h ↦ inl ((any_iff p hs).1 h) | inr h ↦ inr ((wildcard_iff l hs).1 h) ]),
  )

  -- A listener with a host name admits a route that has host names, of which the first is not "*",
  -- exactly if its host name is a valid pattern and one of the route's names matches it, or is a
  -- wildcard that it matches.
  pub hostname_filter_iff :
      (l : String) (h : String) (hs : List String)
      → ¬ (l ≡ "")
      → ¬ (h ≡ default_route_hostname)
      → (hostname_filter l (h ∷ hs) ≡ true) ↔ Matches l (h ∷ hs)
  unfolding hostname_filter
  hostname_filter_iff l h hs n d = elim (Option-cases (pattern (listener_pattern l))) [
    | inl e ↦ (
      λ k. absurd (ground (arith, eq_iff l "", eq_iff h default_route_hostname)),
      λ (q, f, _). absurd (ground arith),
    )
    | inr (p, e) ↦
        let same : hostname_filter l (h ∷ hs) ≡ compiled_matches l (h ∷ hs) p =
          ground (arith, eq_iff l "", eq_iff h default_route_hostname) in
        (
          λ k. (p, e, (compiled_matches-Admits_iff l (h ∷ hs) p).0 (sym same ∙ k)),
          λ (q, f, k).
              let agree : q ≡ p = cc in
              same
              ∙ (compiled_matches-Admits_iff l (h ∷ hs) p).1 (subst (Admits l (h ∷ hs)) agree k),
        )
  ]
