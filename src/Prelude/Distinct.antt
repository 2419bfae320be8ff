-- ===== src/Prelude/Distinct.antt =====
-- Maps with one entry for each key and sets with no repetition, and what is a member of them.
use mathlib.Core.Path.{◌≡◌, refl, sym, ◌∙◌, ap, subst}
use mathlib.Core.Logic.{◌↔◌, inl, inr}
use mathlib.Core.Bool.{Bool, true, false, false≢true, ◌&&◌, ◌||◌, or-false}
use mathlib.Core.Option.{Option, none, some}
use mathlib.Core.List.{List, [], ◌∷◌, Memᴰ}
use native.Mathlib.Omega.{arith}
use kubvernor.Prelude.Lists.{All, filter_map, any}
use kubvernor.Prelude.Tests.{Option-cases}
use kubvernor.Prelude.Maps.{Map, get, insert, remove, get-insert, get-remove}
use kubvernor.Prelude.Sets
use kubvernor.Prelude.Sets.{contains, contains-insert, contains-remove}

-- A test of a value that may be missing, which nothing passes.
abbrev pub test_found {ℓ} : {A : Type ℓ} → (A → Bool) → Option A → Bool
test_found p none = false
test_found p (some a) = p a

module _ {ℓ κ} {K : Type ℓ} {V : Type κ} (dec : Discrete K) where
  abbrev pub Distinct : Map K V → Type (ℓ ⊔ κ)
  Distinct [] = Unit
  Distinct (e ∷ m) = (get dec e.0 m ≡ none) × Distinct m

  pub insert-Distinct : (k : K) (v : V) (m : Map K V) → Distinct m → Distinct (insert dec k v m)
  unfolding insert get
  insert-Distinct k v [] d = (refl, tt)
  insert-Distinct k v ((j, w) ∷ m) (new, d) =
      ground (arith, insert-Distinct k v m d, get-insert dec j k v m)

  pub remove-Distinct : (k : K) (m : Map K V) → Distinct m → Distinct (remove dec k m)
  unfolding remove get
  remove-Distinct k [] d = tt
  remove-Distinct k ((j, w) ∷ m) (new, d) =
      ground (arith, remove-Distinct k m d, get-remove dec j k m)

  pub get_of_mem : (k : K) (v : V) (m : Map K V) → Distinct m → Memᴰ (k, v) m → get dec k m ≡ some v
  unfolding get
  get_of_mem k v [] d h = elim h [ ]
  get_of_mem k v ((j, w) ∷ m) (new, d) (Memᴰ.head e) = ground arith
  get_of_mem k v ((j, w) ∷ m) (new, d) (Memᴰ.tail h) = ground (arith, get_of_mem k v m d h)

  pub mem_of_get : (k : K) (v : V) (m : Map K V) → get dec k m ≡ some v → Memᴰ (k, v) m
  unfolding get
  mem_of_get k v [] e = absurd (cc)
  mem_of_get k v ((j, w) ∷ m) e = go (dec k j) (mem_of_get k v m) e
    where
      go :
          (d : Dec (k ≡ j))
          → (get dec k m ≡ some v → Memᴰ (k, v) m)
          → (elim d [ yes _ ↦ some w | no _ ↦ get dec k m ]) ≡ some v
          → Memᴰ (k, v) ((j, w) ∷ m)
      go (yes p) later h = Memᴰ.head (cc)
      go (no _) later h = Memᴰ.tail (later h)

  -- In a map with one entry for each key, the entries are what a lookup finds.
  pub mem-get_iff :
      (k : K) (v : V) (m : Map K V) → Distinct m → Memᴰ (k, v) m ↔ (get dec k m ≡ some v)
  mem-get_iff k v m d = (get_of_mem k v m d, mem_of_get k v m)

  -- What holds of every value of a map.
  pub insert-All :
      (P : V → Type 0) (k : K) (v : V) (m : Map K V)
      → P v
      → All (λ e. P e.1) m
      → All (λ e. P e.1) (insert dec k v m)
  unfolding insert
  insert-All P k v [] p h = (p, tt)
  insert-All P k v ((j, w) ∷ m) p (q, h) = ground (arith, insert-All P k v m p h)

  pub remove-All :
      (P : V → Type 0) (k : K) (m : Map K V)
      → All (λ e. P e.1) m
      → All (λ e. P e.1) (remove dec k m)
  unfolding remove
  remove-All P k [] h = tt
  remove-All P k ((j, w) ∷ m) (q, h) = ground (arith, remove-All P k m h)

  pub get-All :
      (P : V → Type 0) (k : K) (v : V) (m : Map K V)
      → All (λ e. P e.1) m
      → get dec k m ≡ some v
      → P v
  unfolding get
  get-All P k v [] h e = absurd (cc)
  get-All P k v ((j, w) ∷ m) (q, h) e = ground (arith, get-All P k v m h)

  -- A test of the entries at one key is a test of the value that a lookup finds.
  pub any_at_key :
      (k : K) (p : V → Bool) (m : Map K V)
      → Distinct m
      → any (λ e. Sets.same dec k e.0 && p e.1) m ≡ test_found p (get dec k m)
  unfolding get
  any_at_key k p [] d = refl
  any_at_key k p ((j, w) ∷ m) (new, d) =
      elim (dec k j)
        as (λ c.
          ((elim c [ yes _ ↦ true | no _ ↦ false ]) && p w
            || any (λ e. Sets.same dec k e.0 && p e.1) m)
          ≡ test_found p (elim c [ yes _ ↦ some w | no _ ↦ get dec k m ])) [
            | yes same_key ↦
                let absent : get dec k m ≡ none =
                  subst (λ q. get dec q m ≡ none) (sym same_key) new in
                rw (any_at_key k p m d, absent) (or-false (p w))
            | no other ↦ any_at_key k p m d
          ]

module _ {ℓ} {A : Type ℓ} (dec : Discrete A) where
  -- No element stands twice in the list of a set.
  abbrev pub IsSetList : List A → Type ℓ
  IsSetList [] = Unit
  IsSetList (x ∷ xs) = (contains dec x xs ≡ false) × IsSetList xs

  pub insert-IsSetList : (x : A) (xs : List A) → IsSetList xs → IsSetList (Sets.insert dec x xs)
  unfolding Sets.insert contains
  insert-IsSetList x [] h = (refl, tt)
  insert-IsSetList x (y ∷ ys) (new, h) =
      ground (arith, insert-IsSetList x ys h, contains-insert dec y x ys)

  pub remove-IsSetList : (x : A) (xs : List A) → IsSetList xs → IsSetList (Sets.remove dec x xs)
  unfolding Sets.remove contains
  remove-IsSetList x [] h = tt
  remove-IsSetList x (y ∷ ys) (new, h) =
      ground (arith, remove-IsSetList x ys h, contains-remove dec y x ys)

  contains_of_mem : (x : A) (xs : List A) → Memᴰ x xs → contains dec x xs ≡ true
  unfolding contains
  contains_of_mem x [] h = elim h [ ]
  contains_of_mem x (y ∷ ys) (Memᴰ.head e) = ground arith
  contains_of_mem x (y ∷ ys) (Memᴰ.tail h) = ground (arith, contains_of_mem x ys h)

  mem_of_contains : (x : A) (xs : List A) → contains dec x xs ≡ true → Memᴰ x xs
  unfolding contains
  mem_of_contains x [] e = absurd (false≢true e)
  mem_of_contains x (y ∷ ys) e = go (dec x y) (mem_of_contains x ys) e
    where
      go :
          (d : Dec (x ≡ y))
          → (contains dec x ys ≡ true → Memᴰ x ys)
          → (elim d [ yes _ ↦ true | no _ ↦ contains dec x ys ]) ≡ true
          → Memᴰ x (y ∷ ys)
      go (yes p) later h = Memᴰ.head p
      go (no _) later h = Memᴰ.tail (later h)

  pub mem-contains_iff : (x : A) (xs : List A) → Memᴰ x xs ↔ (contains dec x xs ≡ true)
  mem-contains_iff x xs = (contains_of_mem x xs, mem_of_contains x xs)

module _ {ℓ κ} {A : Type ℓ} {B : Type κ} (f : A → Option B) where
  mem_of_filter_map :
      (y : B) (xs : List A) → Memᴰ y (filter_map f xs) → (x : A) × Memᴰ x xs × (f x ≡ some y)
  mem_of_filter_map y [] h = elim h [ ]
  mem_of_filter_map y (x ∷ xs) h =
      go (f x) refl (λ k. let (z, m, e) = mem_of_filter_map y xs k in (z, Memᴰ.tail m, e)) h
    where
      go :
          (o : Option B)
          → f x ≡ o
          → (Memᴰ y (filter_map f xs) → (z : A) × Memᴰ z (x ∷ xs) × (f z ≡ some y))
          → Memᴰ y (elim o [ none ↦ filter_map f xs | some b ↦ b ∷ filter_map f xs ])
          → (z : A) × Memᴰ z (x ∷ xs) × (f z ≡ some y)
      go none e later k = later k
      go (some b) e later (Memᴰ.head p) = (x, Memᴰ.head refl, e ∙ ap some (sym p))
      go (some b) e later (Memᴰ.tail k) = later k

  filter_map_of_mem :
      (y : B) (x : A) (xs : List A) → Memᴰ x xs → f x ≡ some y → Memᴰ y (filter_map f xs)
  filter_map_of_mem y x [] h e = elim h [ ]
  filter_map_of_mem y x (z ∷ xs) (Memᴰ.head p) e =
      rw (ap f (sym p) ∙ e, filter_map) (Memᴰ.head refl)
  filter_map_of_mem y x (z ∷ xs) (Memᴰ.tail h) e = elim (Option-cases (f z)) [
    | inl out ↦ rw (out, filter_map) (filter_map_of_mem y x xs h e)
    | inr (b, kept) ↦ rw (kept, filter_map) (Memᴰ.tail (filter_map_of_mem y x xs h e))
  ]

  pub mem-filter_map_iff :
      (y : B) (xs : List A) → Memᴰ y (filter_map f xs) ↔ ((x : A) × Memᴰ x xs × (f x ≡ some y))
  mem-filter_map_iff y xs = (mem_of_filter_map y xs, λ (x, h, e). filter_map_of_mem y x xs h e)
