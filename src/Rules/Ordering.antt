-- ===== src/Rules/Ordering.antt =====
-- `std::cmp::Ordering`: orders as comparisons, and the stable sort by one.
use Prim.Native.Nat.{Ordering, compare as compare_ℕ}
use Prim.Native.Nat.Ordering.{lt, eq, gt}
use Prim.Native.String.{[], ◌∷◌, then, compare}
use Prim.Native.String.compare
use Prim.Native.Char.{code}
use kubvernor.Prelude.{
  ℕ, String, Bool, true, false, true≢false, Option, none, some, ◌≡◌, refl, sym, ap, ◌∙◌, arith,
}

abbrev pub reverse : Ordering → Ordering
reverse lt = gt
reverse eq = eq
reverse gt = lt

abbrev pub is_equal : Ordering → Bool
is_equal eq = true
is_equal _ = false

abbrev pub is_greater : Ordering → Bool
is_greater gt = true
is_greater _ = false

-- A comparison that is a total preorder: swapping its arguments reverses the answer, and along a
-- chain the first answer that is not "equal" is the answer for its ends.
pub record IsOrder {ℓ} {A : Type ℓ} (c : A → A → Ordering) : Type ℓ where
  pub swap : (x y : A) → c y x ≡ reverse (c x y)
  pub trans :
      (x y z : A)
      → is_greater (c x y) ≡ false
      → is_greater (c y z) ≡ false
      → c x z ≡ then (c x y) (c y z)

-- The order of `Option`, where `None` comes first.
abbrev pub none_first {ℓ} : {A : Type ℓ} → (A → A → Ordering) → Option A → Option A → Ordering
none_first c none none = eq
none_first c none (some b) = lt
none_first c (some a) none = gt
none_first c (some a) (some b) = c a b

-- The matches of the comparators, where `None` comes last.
abbrev pub none_last {ℓ} : {A : Type ℓ} → (A → A → Ordering) → Option A → Option A → Ordering
none_last c none none = eq
none_last c none (some b) = gt
none_last c (some a) none = lt
none_last c (some a) (some b) = c a b

-- "less" after an answer that is not "greater" is "less".
pub then_less : (o : Ordering) → is_greater o ≡ false → lt ≡ then o lt
then_less lt p = refl
then_less eq p = refl
then_less gt p = absurd (ground arith)

module _ {ℓ} {A : Type ℓ} where
  pub IsOrder-none_first : {c : A → A → Ordering} → IsOrder c → IsOrder (none_first c)
  IsOrder-none_first {c} o = record { swap = swap; trans = trans }
    where
      swap : (x y : Option A) → none_first c y x ≡ reverse (none_first c x y)
      swap none none = refl
      swap none (some b) = refl
      swap (some a) none = refl
      swap (some a) (some b) = o.swap a b

      trans :
          (x y z : Option A)
          → is_greater (none_first c x y) ≡ false
          → is_greater (none_first c y z) ≡ false
          → none_first c x z ≡ then (none_first c x y) (none_first c y z)
      trans none none none p q = refl
      trans none none (some b) p q = refl
      trans none (some a) none p q = absurd (ground arith)
      trans none (some a) (some b) p q = refl
      trans (some a) none z p q = absurd (ground arith)
      trans (some a) (some b) none p q = absurd (ground arith)
      trans (some a) (some b) (some d) p q = o.trans a b d p q

  pub IsOrder-none_last : {c : A → A → Ordering} → IsOrder c → IsOrder (none_last c)
  IsOrder-none_last {c} o = record { swap = swap; trans = trans }
    where
      swap : (x y : Option A) → none_last c y x ≡ reverse (none_last c x y)
      swap none none = refl
      swap none (some b) = refl
      swap (some a) none = refl
      swap (some a) (some b) = o.swap a b

      trans :
          (x y z : Option A)
          → is_greater (none_last c x y) ≡ false
          → is_greater (none_last c y z) ≡ false
          → none_last c x z ≡ then (none_last c x y) (none_last c y z)
      trans none none none p q = refl
      trans none none (some b) p q = absurd (ground arith)
      trans none (some a) z p q = absurd (ground arith)
      trans (some a) none none p q = refl
      trans (some a) none (some b) p q = absurd (ground arith)
      trans (some a) (some b) none p q = then_less (c a b) p
      trans (some a) (some b) (some d) p q = o.trans a b d p q

-- The comparison of two keys, the second where the first is equal.
then_trans :
    (a a' a'' b b' b'' : Ordering)
    → (is_greater a ≡ false → is_greater a' ≡ false → a'' ≡ then a a')
    → (is_greater b ≡ false → is_greater b' ≡ false → b'' ≡ then b b')
    → is_greater (then a b) ≡ false
    → is_greater (then a' b') ≡ false
    → then a'' b'' ≡ then (then a b) (then a' b')
then_trans lt lt a'' b b' b'' f g p q = rw (f refl refl) refl
then_trans lt eq a'' b b' b'' f g p q = rw (f refl refl) refl
then_trans eq lt a'' b b' b'' f g p q = rw (f refl refl) (then_less b p)
then_trans eq eq a'' b b' b'' f g p q = rw (f refl refl) (g p q)
then_trans gt a' a'' b b' b'' f g p q = absurd (ground arith)
then_trans lt gt a'' b b' b'' f g p q = absurd (ground arith)
then_trans eq gt a'' b b' b'' f g p q = absurd (ground arith)

reverse-then : (a b : Ordering) → then (reverse a) (reverse b) ≡ reverse (then a b)
reverse-then lt b = refl
reverse-then eq b = refl
reverse-then gt b = refl

module _ {ℓ} {A : Type ℓ} {c d : A → A → Ordering} where
  pub IsOrder-then : IsOrder c → IsOrder d → IsOrder (λ x y. then (c x y) (d x y))
  IsOrder-then o p = record {
    swap = λ x y. rw (o.swap x y, p.swap x y) (reverse-then (c x y) (d x y));
    trans = λ x y z.
        then_trans (c x y) (c y z) (c x z) (d x y) (d y z) (d x z) (o.trans x y z) (p.trans x y z);
  }

-- The order of the keys that a function reads.
pub IsOrder-on {ℓ μ} :
    {A : Type ℓ} {B : Type μ} {c : B → B → Ordering}
    → IsOrder c
    → (f : A → B) → IsOrder (λ x y. c (f x) (f y))
IsOrder-on o f = record {
  swap = λ x y. o.swap (f x) (f y);
  trans = λ x y z. o.trans (f x) (f y) (f z);
}

compare_ℕ_swap : (x y : ℕ) → compare_ℕ y x ≡ reverse (compare_ℕ x y)
compare_ℕ_swap x y = ground arith

compare_ℕ_trans :
    (x y z : ℕ)
    → is_greater (compare_ℕ x y) ≡ false
    → is_greater (compare_ℕ y z) ≡ false
    → compare_ℕ x z ≡ then (compare_ℕ x y) (compare_ℕ y z)
compare_ℕ_trans x y z p q = ground arith

pub IsOrder-compare_ℕ : IsOrder compare_ℕ
IsOrder-compare_ℕ = record { swap = compare_ℕ_swap; trans = compare_ℕ_trans }

compare_swap : (s t : String) → compare t s ≡ reverse (compare s t)
compare_swap [] [] = compare.nil-nil ∙ ap reverse (sym compare.nil-nil)
compare_swap [] (d ∷ t) = compare.cons-nil d t ∙ ap reverse (sym (compare.nil-cons d t))
compare_swap (c ∷ s) [] = compare.nil-cons c s ∙ ap reverse (sym (compare.cons-nil c s))
compare_swap (c ∷ s) (d ∷ t) =
    compare.cons-cons d c t s
    ∙ (rw (compare_ℕ_swap (code c) (code d), compare_swap s t)
        (reverse-then (compare_ℕ (code c) (code d)) (compare s t)))
    ∙ ap reverse (sym (compare.cons-cons c d s t))

compare_trans :
    (s t u : String)
    → is_greater (compare s t) ≡ false
    → is_greater (compare t u) ≡ false
    → compare s u ≡ then (compare s t) (compare t u)
compare_trans [] [] u p q = sym (ap (λ o. then o (compare [] u)) compare.nil-nil)
compare_trans [] (d ∷ t) [] p q =
    absurd (true≢false (sym (ap is_greater (compare.cons-nil d t)) ∙ q))
compare_trans [] (d ∷ t) (e ∷ u) p q = rw (compare.nil-cons e u, compare.nil-cons d t) refl
compare_trans (c ∷ s) [] u p q =
    absurd (true≢false (sym (ap is_greater (compare.cons-nil c s)) ∙ p))
compare_trans (c ∷ s) (d ∷ t) [] p q =
    absurd (true≢false (sym (ap is_greater (compare.cons-nil d t)) ∙ q))
compare_trans (c ∷ s) (d ∷ t) (e ∷ u) p q =
    rw (compare.cons-cons c e s u, compare.cons-cons c d s t, compare.cons-cons d e t u)
      (then_trans (compare_ℕ (code c) (code d)) (compare_ℕ (code d) (code e))
        (compare_ℕ (code c) (code e)) (compare s t) (compare t u) (compare s u)
        (compare_ℕ_trans (code c) (code d) (code e)) (compare_trans s t u)
        (sym (ap is_greater (compare.cons-cons c d s t)) ∙ p)
        (sym (ap is_greater (compare.cons-cons d e t u)) ∙ q))

pub IsOrder-compare : IsOrder compare
IsOrder-compare = record { swap = compare_swap; trans = compare_trans }
