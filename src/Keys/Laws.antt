-- ===== src/Keys/Laws.antt =====
-- Which objects have one key, and which keys print alike.
use Prim.Native.Char.{Char, code}
use Prim.Native.String.{String, [], ◌∷◌, ◌++◌}
use text.Mathlib.TextLemmas.{
  cons-append, nil-append, head-eq_of_cons-eq, tail-eq_of_cons-eq, append_assoc, append_cancel_left,
}
use kubvernor.Prelude.{none, some, ◌≡◌, ◌≢◌, ◌↔◌, ◌⊎◌, refl, sym, ap, ap₂, ◌∙◌, arith, unwrap_or}
use kubvernor.Keys.{
  ResourceKey, Meta, ParentReference, default_group_name, default_namespace_name, default_kind_name,
  create_id, display, gateway_key, route_ref_key,
}

-- A text with no full stop, as every name of a namespace is.
abbrev pub NoDot : String → Type 0
NoDot [] = Unit
NoDot (c ∷ s) = (code c ≢ b'.') × NoDot s

dot : Char
dot = "."

-- A text that begins with a full stop does not begin with another character.
dot_first : (c : Char) (t x z : String) → code c ≢ b'.' → "" ++ ("." ++ x) ≡ (c ∷ t) ++ z → ⊥
unfolding dot
dot_first c t x z h e =
    let e' : dot ∷ ("" ++ x) ≡ c ∷ (t ++ z) =
      sym (nil-append _ ∙ cons-append dot "" x) ∙ e ∙ cons-append c t z in
    h (sym (ap code (head-eq_of_cons-eq e')))

split_at_dot :
    (s t x y : String) → NoDot s → NoDot t → s ++ ("." ++ x) ≡ t ++ ("." ++ y) → (s ≡ t) × (x ≡ y)
split_at_dot [] [] x y _ _ e = (refl, append_cancel_left "." x y (append_cancel_left "" _ _ e))
split_at_dot [] (c ∷ t) x y _ h e = absurd (dot_first c t x _ h.0 e)
split_at_dot (c ∷ s) [] x y h _ e = absurd (dot_first c s y _ h.0 (sym e))
split_at_dot (c ∷ s) (d ∷ t) x y (_, h) (_, k) e =
    let e' : c ∷ (s ++ ("." ++ x)) ≡ d ∷ (t ++ ("." ++ y)) =
      sym (cons-append c s _) ∙ e ∙ cons-append d t _ in
    let (p, q) = split_at_dot s t x y h k (tail-eq_of_cons-eq e') in
    (ap₂ (λ a b. a ∷ b) (head-eq_of_cons-eq e') p, q)

-- Keys whose namespaces hold no full stop print alike only if they agree in namespace and name.
pub display_injective :
    (j k : ResourceKey)
    → NoDot j.namespace
    → NoDot k.namespace
    → display j ≡ display k
    → (j.namespace ≡ k.namespace) × (j.name ≡ k.name)
unfolding display create_id
display_injective j k hj hk e =
    split_at_dot j.namespace k.namespace j.name k.name hj hk
      (sym (append_assoc j.namespace "." j.name) ∙ e ∙ append_assoc k.namespace "." k.name)

-- A parent reference of a route in `route_namespace` yields the key of a gateway exactly if its
-- group and kind are those of a gateway or left out, its name is the gateway's, and its namespace,
-- or the route's where it is left out, is the gateway's, or "default" where the gateway has none.
pub route_ref_key-eq-gateway_key_iff :
    (p : ParentReference) (route_namespace : String) (g : Meta)
    → ((route_ref_key p route_namespace).resource_key ≡ gateway_key g) ↔ (
        ((p.group ≡ none) ⊎ (p.group ≡ some default_group_name))
        × ((p.kind ≡ none) ⊎ (p.kind ≡ some default_kind_name))
        × (p.name ≡ g.name_any)
        × (unwrap_or p.namespace route_namespace ≡ unwrap_or g.namespace default_namespace_name))
unfolding route_ref_key gateway_key
route_ref_key-eq-gateway_key_iff p route_namespace g = ground arith
