-- ===== src/Listeners/Verdicts.antt =====
-- Which certificates a listener may use, and what the validation says of them.
use kubvernor.Prelude.{
  String, String-discrete, str_eq, Bool, true, ◌||◌, Option, none, some, List, ◌≡◌, ◌↔◌, refl, sym,
  subst, arith, Option-cases, Bool-cases, inl, inr,
}
use kubvernor.Prelude.Maps.{Map}
use kubvernor.Prelude.Maps
use kubvernor.Keys.{ResourceKey}
use kubvernor.Listeners.Certificates.{
  Certificate, Bytes, resource_key, key_data, resolve, resolve_cross_space, to_not_resolved,
  to_invalid,
}
use kubvernor.Listeners.Conditions.{ListenerCondition}
use kubvernor.Listeners.Validation.{Secret, is_tls, with_content, validate_certificate}

module _ (get_secret : ResourceKey → Option Secret)
    (is_allowed : ResourceKey → ResourceKey → ResourceKey → Bool)
    (valid_cert valid_key : Bytes → Bool) where
  -- A secret's content has a valid private key and a valid certificate, which are what a certificate
  -- holds after the validation.
  abbrev pub HasPair : Map String Bytes → Certificate → Type 0
  HasPair m c' =
      (key : Bytes) × (cert : Bytes) × (Maps.get String-discrete "tls.key" m ≡ some key)
      × (Maps.get String-discrete "tls.crt" m ≡ some cert)
      × (valid_cert cert ≡ true)
      × (valid_key key ≡ true)
      × (key_data c' ≡ some (record { cert = cert; private_key = key; root = none }))

  abbrev pub IsUsable : ResourceKey → Certificate → Certificate → Type 0
  IsUsable gateway c c' =
      (secret : Secret) × (m : Map String Bytes) × (get_secret (resource_key c) ≡ some secret)
      × ((is_allowed gateway (resource_key c) gateway
            || str_eq gateway.namespace (resource_key c).namespace)
          ≡ true)
      × (is_tls secret.secret_type ≡ true)
      × (secret.content ≡ some m)
      × HasPair m c'

  with_content_iff :
      (c : Certificate) (same : Bool) (m : Map String Bytes) (routes : List String)
      → ((with_content get_secret is_allowed valid_cert valid_key c same m routes).1 ≡ none)
        ↔ HasPair m (with_content get_secret is_allowed valid_cert valid_key c same m routes).0
  unfolding key_data resolve resolve_cross_space
  with_content_iff c same m routes = elim (Option-cases (Maps.get String-discrete "tls.key" m)) [
    | inl e ↦ (λ h. absurd (ground arith), λ (key, cert, f, g, _, _, _). absurd (ground arith))
    | inr (key, e) ↦ elim (Option-cases (Maps.get String-discrete "tls.crt" m)) [
      | inl f ↦ (λ h. absurd (ground arith), λ (k, cert, _, g, _, _, _). absurd (ground arith))
      | inr (cert, f) ↦ (
        λ h. (key, cert, e, f, ground arith, ground arith, ground arith),
        λ (k, r, g, h, p, q, _). ground arith,
      )
    ]
  ]

  abbrev verdict : ResourceKey → List String → Certificate → Certificate × Option ListenerCondition
  verdict gateway routes c =
      validate_certificate get_secret is_allowed valid_cert valid_key gateway routes c

  validate_certificate-kept :
      (gateway : ResourceKey) (routes : List String) (c : Certificate)
      → resource_key (verdict gateway routes c).0 ≡ resource_key c
  unfolding validate_certificate resolve resolve_cross_space to_not_resolved to_invalid resource_key
  validate_certificate-kept gateway routes c = ground arith

  found-IsUsable :
      (gateway : ResourceKey) (routes : List String) (c : Certificate) (secret : Secret)
      (m : Map String Bytes)
      → get_secret (resource_key c) ≡ some secret
      → (is_allowed gateway (resource_key c) gateway
          || str_eq gateway.namespace (resource_key c).namespace)
        ≡ true
      → is_tls secret.secret_type ≡ true
      → secret.content ≡ some m
      → ((verdict gateway routes c).1 ≡ none) ↔ IsUsable gateway c (verdict gateway routes c).0
  unfolding validate_certificate
  found-IsUsable gateway routes c secret m e a t f =
      let same = str_eq gateway.namespace (resource_key c).namespace in
      let reached : verdict gateway routes c
          ≡ with_content get_secret is_allowed valid_cert valid_key c same m routes =
        ground arith in
      let pair = with_content_iff c same m routes in
      subst (λ v. (v.1 ≡ none) ↔ IsUsable gateway c v.0) (sym reached)
        (
          (λ h. (secret, m, e, a, t, f, pair.0 h)),
          (λ (s, n, g, _, _, h, p).
              let agree : n ≡ m = ground arith in
              pair.1 (
                subst
                  (λ k.
                    HasPair k
                      (with_content get_secret is_allowed valid_cert valid_key c same m routes).0)
                  agree p)),
        )

  -- `validate` raises no condition for a certificate exactly if its secret is found, a reference grant
  -- allows it or it lies in the gateway's namespace, it is of the type of TLS secrets, and it has a
  -- valid private key and a valid certificate; these are what the certificate holds then. In each case
  -- the certificate still names its secret.
  pub validate_certificate_iff :
      (gateway : ResourceKey) (routes : List String) (c : Certificate)
      → let (c', condition) =
          validate_certificate get_secret is_allowed valid_cert valid_key gateway routes c in
        ((condition ≡ none) ↔ IsUsable gateway c c') × (resource_key c' ≡ resource_key c)
  unfolding validate_certificate
  validate_certificate_iff gateway routes c =
      (usable_iff (get_secret (resource_key c)) refl, validate_certificate-kept gateway routes c)
    where
      usable_iff :
          (o : Option Secret)
          → get_secret (resource_key c) ≡ o
          → ((verdict gateway routes c).1 ≡ none) ↔ IsUsable gateway c (verdict gateway routes c).0
      usable_iff none e =
          (λ h. absurd (ground arith), λ (s, m, f, _, _, _, _). absurd (ground arith))
      usable_iff (some secret) e = elim (Option-cases secret.content) [
        | inl f ↦ (λ h. absurd (ground arith), λ (s, m, g, _, _, k, _). absurd (ground arith))
        | inr (m, f) ↦ elim (Bool-cases (is_tls secret.secret_type)) [
          | inr t ↦ (λ h. absurd (ground arith), λ (s, m, g, _, k, _, _). absurd (ground arith))
          | inl t ↦
              elim (Bool-cases (
                is_allowed gateway (resource_key c) gateway
                || str_eq gateway.namespace (resource_key c).namespace)) [
                  | inl a ↦ found-IsUsable gateway routes c secret m e a t f
                  | inr a ↦
                      (λ h. absurd (ground arith), λ (s, m, g, k, _, _, _). absurd (ground arith))
                ]
        ]
      ]
