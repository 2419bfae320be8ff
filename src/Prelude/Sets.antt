-- ===== src/Prelude/Sets.antt =====
-- Hash sets and ordered sets as lists without repetition. An insertion adds a new element at the end,
-- so the order of the elements is not the source's order.
use mathlib.Core.Path.{◌≡◌, refl}
use mathlib.Core.Logic.{◌↔◌}
use mathlib.Core.Bool.{Bool, true, false, ◌||◌, not, ◌&&◌}
use mathlib.Core.List.{List, [], ◌∷◌}
use native.Mathlib.Omega.{arith}
use kubvernor.Prelude.Tests.{if◌then◌else◌}

module _ {ℓ} {A : Type ℓ} (dec : Discrete A) where
  -- equality as a test
  abbrev pub same : A → A → Bool
  same x y = elim (dec x y) [ yes _ ↦ true | no _ ↦ false ]

  unfoldable pub contains : A → List A → Bool
  contains x [] = false
  contains x (y ∷ ys) = elim (dec x y) [ yes _ ↦ true | no _ ↦ contains x ys ]

  unfoldable pub insert : A → List A → List A
  insert x [] = x ∷ []
  insert x (y ∷ ys) = elim (dec x y) [ yes _ ↦ y ∷ ys | no _ ↦ y ∷ insert x ys ]

  unfoldable pub remove : A → List A → List A
  remove x [] = []
  remove x (y ∷ ys) = let rest = remove x ys in elim (dec y x) [ yes _ ↦ rest | no _ ↦ y ∷ rest ]

  -- `append` of an ordered set
  unfoldable pub union : List A → List A → List A
  union xs [] = xs
  union xs (y ∷ ys) = union (insert y xs) ys

  unfoldable pub difference : List A → List A → List A
  difference [] ys = []
  difference (x ∷ xs) ys = let rest = difference xs ys in if contains x ys then rest else x ∷ rest

  pub contains-insert :
      (q x : A) (xs : List A)
      → contains q (insert x xs) ≡ (elim (dec q x) [ yes _ ↦ true | no _ ↦ contains q xs ])
  unfolding contains insert
  contains-insert q x [] = refl
  contains-insert q x (y ∷ ys) = ground (arith, contains-insert q x ys)

  pub contains-remove :
      (q x : A) (xs : List A)
      → contains q (remove x xs) ≡ (elim (dec q x) [ yes _ ↦ false | no _ ↦ contains q xs ])
  unfolding contains remove
  contains-remove q x [] = ground arith
  contains-remove q x (y ∷ ys) = ground (arith, contains-remove q x ys)

  pub contains-union :
      (q : A) (xs ys : List A) → contains q (union xs ys) ≡ (contains q xs || contains q ys)
  unfolding contains union
  contains-union q xs [] = ground arith
  contains-union q xs (y ∷ ys) =
      ground (arith, contains-union q (insert y xs) ys, contains-insert q y xs)

  pub contains-difference :
      (q : A) (xs ys : List A)
      → contains q (difference xs ys) ≡ (contains q xs && not (contains q ys))
  unfolding contains difference
  contains-difference q [] ys = refl
  contains-difference q (x ∷ xs) ys = ground (arith, contains-difference q xs ys)

  pub same-eq_iff : (x y : A) → (same x y ≡ true) ↔ (x ≡ y)
  same-eq_iff x y = ground arith
