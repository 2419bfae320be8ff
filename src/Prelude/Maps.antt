-- ===== src/Prelude/Maps.antt =====
-- Hash maps and ordered maps as association lists. An insertion replaces the entry of its key where
-- it stands or adds one at the end, so the order of the entries is not the source's order.
use mathlib.Core.Path.{◌≡◌, refl}
use mathlib.Core.Bool.{Bool, true, false}
use mathlib.Core.Option.{Option, none, some}
use mathlib.Core.List.{List, [], ◌∷◌, map}
use native.Mathlib.Omega.{arith}

abbrev pub Map {ℓ κ} : Type ℓ → Type κ → Type (ℓ ⊔ κ)
Map K V = List (K × V)

abbrev pub is_some {ℓ} : {A : Type ℓ} → Option A → Bool
is_some none = false
is_some (some x) = true

module _ {ℓ κ} {K : Type ℓ} {V : Type κ} where
  abbrev pub keys : Map K V → List K
  keys m = map (λ e. e.0) m

  abbrev pub values : Map K V → List V
  values m = map (λ e. e.1) m

  module _ (dec : Discrete K) where
    unfoldable pub get : K → Map K V → Option V
    get k [] = none
    get k ((j, v) ∷ m) = elim (dec k j) [ yes _ ↦ some v | no _ ↦ get k m ]

    unfoldable pub insert : K → V → Map K V → Map K V
    insert k v [] = (k, v) ∷ []
    insert k v ((j, w) ∷ m) = elim (dec k j) [ yes _ ↦ (k, v) ∷ m | no _ ↦ (j, w) ∷ insert k v m ]

    unfoldable pub remove : K → Map K V → Map K V
    remove k [] = []
    remove k ((j, v) ∷ m) =
        let rest = remove k m in elim (dec k j) [ yes _ ↦ rest | no _ ↦ (j, v) ∷ rest ]

    abbrev pub contains_key : K → Map K V → Bool
    contains_key k m = is_some (get k m)

    pub get-insert :
        (q k : K) (v : V) (m : Map K V)
        → get q (insert k v m) ≡ (elim (dec q k) [ yes _ ↦ some v | no _ ↦ get q m ])
    unfolding get insert
    get-insert q k v [] = refl
    get-insert q k v ((j, w) ∷ m) = ground (arith, get-insert q k v m)

    pub get-remove :
        (q k : K) (m : Map K V)
        → get q (remove k m) ≡ (elim (dec q k) [ yes _ ↦ none | no _ ↦ get q m ])
    unfolding get remove
    get-remove q k [] = ground arith
    get-remove q k ((j, w) ∷ m) = ground (arith, get-remove q k m)
