-- ===== src/Prelude/Lists.antt =====
-- Lists over the native numbers: filters and searches by a Boolean test.
use Prim.Native.Nat.{ℕ, suc}
use mathlib.Core.Path.{◌≡◌, refl, sym, ap, ◌∙◌}
use mathlib.Core.Bool.{Bool, true, false, ◌||◌, false≢true}
use mathlib.Core.Logic.{◌↔◌, inl, inr}
use mathlib.Core.Option.{Option, none, some}
use mathlib.Core.List.{List, [], ◌∷◌, Memᴰ}
use native.Mathlib.Omega.{arith}
use kubvernor.Prelude.Tests.{if◌then◌else◌, Bool-cases}

module _ {ℓ} {A : Type ℓ} where
  abbrev pub length : List A → ℕ
  length [] = 0
  length (x ∷ xs) = suc (length xs)

  abbrev pub filter_by : (A → Bool) → List A → List A
  filter_by p [] = []
  filter_by p (x ∷ xs) = let rest = filter_by p xs in if p x then x ∷ rest else rest

  abbrev pub any : (A → Bool) → List A → Bool
  any p [] = false
  any p (x ∷ xs) = p x || any p xs

  abbrev pub is_empty : List A → Bool
  is_empty [] = true
  is_empty (x ∷ xs) = false

  abbrev pub filter_map {κ} : {B : Type κ} → (A → Option B) → List A → List B
  filter_map f [] = []
  filter_map f (x ∷ xs) =
      let rest = filter_map f xs in elim (f x) [ none ↦ rest | some y ↦ y ∷ rest ]

  abbrev pub All {κ} : (A → Type κ) → List A → Type κ
  All P [] = Unit
  All P (x ∷ xs) = P x × All P xs

  -- An element that a list holds and that passes a test is what `any` finds.
  pub any_intro : {x : A} (p : A → Bool) {xs : List A} → Memᴰ x xs → p x ≡ true → any p xs ≡ true
  any_intro p (Memᴰ.head e) h = ground arith
  any_intro p (Memᴰ.tail m) h = ground (arith, any_intro p m h)

  pub any_elim : (p : A → Bool) (xs : List A) → any p xs ≡ true → (x : A) × Memᴰ x xs × (p x ≡ true)
  any_elim p [] h = absurd (false≢true h)
  any_elim p (x ∷ xs) h = elim (Bool-cases (p x)) [
    | inl here ↦ (x, Memᴰ.head refl, here)
    | inr other ↦ let (y, m, found) = any_elim p xs (ground arith) in (y, Memᴰ.tail m, found)
  ]

  pub any_iff :
      (p : A → Bool) (xs : List A) → (any p xs ≡ true) ↔ ((x : A) × Memᴰ x xs × (p x ≡ true))
  any_iff p xs = (any_elim p xs, λ (x, m, h). any_intro p m h)

  mem_of_filter_by :
      (x : A) (p : A → Bool) (xs : List A) → Memᴰ x (filter_by p xs) → Memᴰ x xs × (p x ≡ true)
  mem_of_filter_by x p [] m = elim m [ ]
  mem_of_filter_by x p (y ∷ ys) m =
      go (p y) refl (λ k. let (n, e) = mem_of_filter_by x p ys k in (Memᴰ.tail n, e)) m
    where
      go :
          (b : Bool)
          → p y ≡ b
          → (Memᴰ x (filter_by p ys) → Memᴰ x (y ∷ ys) × (p x ≡ true))
          → Memᴰ x (if b then y ∷ filter_by p ys else filter_by p ys)
          → Memᴰ x (y ∷ ys) × (p x ≡ true)
      go false e later k = later k
      go true e later (Memᴰ.head q) = (Memᴰ.head q, ap p q ∙ e)
      go true e later (Memᴰ.tail k) = later k

  filter_by_of_mem :
      (x : A) (p : A → Bool) (xs : List A) → Memᴰ x xs → p x ≡ true → Memᴰ x (filter_by p xs)
  filter_by_of_mem x p [] m e = elim m [ ]
  filter_by_of_mem x p (y ∷ ys) (Memᴰ.head q) e = rw (ap p (sym q) ∙ e, filter_by) (Memᴰ.head q)
  filter_by_of_mem x p (y ∷ ys) (Memᴰ.tail m) e = elim (Bool-cases (p y)) [
    | inl kept ↦ rw (kept, filter_by) (Memᴰ.tail (filter_by_of_mem x p ys m e))
    | inr out ↦ rw (out, filter_by) (filter_by_of_mem x p ys m e)
  ]

  -- An element of a filtered list is one of the list that passes the test.
  pub mem-filter_by_iff :
      (x : A) (p : A → Bool) (xs : List A) → Memᴰ x (filter_by p xs) ↔ (Memᴰ x xs × (p x ≡ true))
  mem-filter_by_iff x p xs = (mem_of_filter_by x p xs, λ (m, e). filter_by_of_mem x p xs m e)
