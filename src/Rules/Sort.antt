-- ===== src/Rules/Sort.antt =====
-- `slice::sort_by`: the stable sort by a comparison, and what it returns where the comparison is
-- an order.
use Prim.Native.Nat.{Ordering}
use mathlib.Core.List.{Perm, Pairwise, Pairwise-singleton, forall_mem-cons}
use mathlib.Core.List.Perm
use kubvernor.Prelude.{
  true, false, List, [], ◌∷◌, ◌≡◌, refl, ◌∙◌, arith, if◌then◌else◌, filter_by, Bool-cases, inl, inr,
}
use kubvernor.Rules.Ordering.{IsOrder, is_equal, is_greater}

module _ {ℓ} {A : Type ℓ} (c : A → A → Ordering) where
  -- An element goes before the first one that it is not greater than.
  unfoldable pub insert_by : A → List A → List A
  insert_by x [] = x ∷ []
  insert_by x (y ∷ ys) =
      let rest = insert_by x ys in if is_greater (c x y) then y ∷ rest else x ∷ y ∷ ys

  unfoldable pub sort_by : List A → List A
  unfolding insert_by
  sort_by [] = []
  sort_by (x ∷ xs) = insert_by x (sort_by xs)

  -- no element is greater than a later one
  abbrev pub IsSortedBy : List A → Type ℓ
  IsSortedBy = Pairwise (λ x y. is_greater (c x y) ≡ false)

  insert_by-Perm : (x : A) (l : List A) → Perm (insert_by x l) (x ∷ l)
  unfolding insert_by
  insert_by-Perm x [] = Perm.rfl
  insert_by-Perm x (y ∷ ys) = elim (Bool-cases (is_greater (c x y))) [
    | inl e ↦ rw e (Perm.trans (Perm.cons y (insert_by-Perm x ys)) (Perm.swap x y ys))
    | inr e ↦ rw e Perm.rfl
  ]

  pub sort_by-Perm : (l : List A) → Perm (sort_by l) l
  unfolding sort_by
  sort_by-Perm [] = Perm.rfl
  sort_by-Perm (x ∷ xs) = Perm.trans (insert_by-Perm x (sort_by xs)) (Perm.cons x (sort_by-Perm xs))

  module _ (o : IsOrder c) where
    le_trans :
        (x y z : A)
        → is_greater (c x y) ≡ false
        → is_greater (c y z) ≡ false
        → is_greater (c x z) ≡ false
    le_trans x y z p q = ground (arith, o.trans x y z p q)

    le_of_greater : (x y : A) → is_greater (c x y) ≡ true → is_greater (c y x) ≡ false
    le_of_greater x y p = ground (arith, o.swap x y)

    below_prop : (a b : A) → IsProp (is_greater (c a b) ≡ false)
    below_prop a b = hlevel

    insert_by-IsSortedBy : (x : A) (l : List A) → IsSortedBy l → IsSortedBy (insert_by x l)
    unfolding insert_by
    insert_by-IsSortedBy x [] s = Pairwise-singleton _ x
    insert_by-IsSortedBy x (y ∷ ys) (Pairwise.cons below s) =
        elim (Bool-cases (is_greater (c x y))) [
          | inl e ↦ rw e (
              Pairwise.cons
                (λ z m.
                  (forall_mem-cons (below_prop y)).1 (le_of_greater x y e, below) z
                    ((Perm.mem_iff (insert_by-Perm x ys)).0 m))
                (insert_by-IsSortedBy x ys s))
          | inr e ↦ rw e (
              Pairwise.cons
                ((forall_mem-cons (below_prop x)).1 (e, λ z m. le_trans x y z e (below z m)))
                (Pairwise.cons below s))
        ]

    pub sort_by-IsSortedBy : (l : List A) → IsSortedBy (sort_by l)
    unfolding sort_by
    sort_by-IsSortedBy [] = Pairwise.nil
    sort_by-IsSortedBy (x ∷ xs) = insert_by-IsSortedBy x (sort_by xs) (sort_by-IsSortedBy xs)

    -- two elements that are equal to a third one are equal
    equal_both :
        (k x y : A) → is_equal (c k x) ≡ true → is_equal (c k y) ≡ true → is_greater (c x y) ≡ false
    equal_both k x y p q = ground (arith, o.swap k x, o.trans x k y)

    insert_by-stable :
        (k x : A) (l : List A)
        → filter_by (λ y. is_equal (c k y)) (insert_by x l)
          ≡ filter_by (λ y. is_equal (c k y)) (x ∷ l)
    unfolding insert_by
    insert_by-stable k x [] = refl
    insert_by-stable k x (y ∷ ys) = ground (arith, insert_by-stable k x ys, equal_both k x y)

    -- elements that are equal keep their order
    pub sort_by-stable :
        (k : A) (l : List A)
        → filter_by (λ y. is_equal (c k y)) (sort_by l) ≡ filter_by (λ y. is_equal (c k y)) l
    unfolding sort_by
    sort_by-stable k [] = refl
    sort_by-stable k (x ∷ xs) =
        insert_by-stable k x (sort_by xs) ∙ ground (arith, sort_by-stable k xs)
