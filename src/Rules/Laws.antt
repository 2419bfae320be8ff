-- ===== src/Rules/Laws.antt =====
-- The comparators of the matches are total preorders.
use Prim.Native.Nat.{Ordering, compare as compare_ℕ}
use Prim.Native.Nat.Ordering.{lt, eq, gt}
use Prim.Native.String.{then as and_then, compare, len}
use kubvernor.Prelude.{
  ℕ, String, Option, none, some, List, length, false, ◌≡◌, refl, sym, ap, ap₂, subst, ◌∙◌, arith,
  if◌then◌else◌,
}
use kubvernor.Routes.{PathType, Method, PathMatch, RouteMatch, GrpcMethodMatch}
use kubvernor.Rules.Ordering.{
  IsOrder, IsOrder-none_first, IsOrder-none_last, IsOrder-then, IsOrder-on, IsOrder-compare,
  then_less, IsOrder-compare_ℕ, reverse, is_equal, is_greater, none_first, none_last,
}
use kubvernor.Rules.Lengths.{compare_lengths, compare_headers, compare_queries}
use kubvernor.Rules.Http
use kubvernor.Rules.Grpc

-- A comparison that agrees with an order everywhere is one.
IsOrder-of_eq {ℓ} :
    {A : Type ℓ} {c d : A → A → Ordering} → IsOrder d → ((x y : A) → c x y ≡ d x y) → IsOrder c
IsOrder-of_eq o e = subst IsOrder (λ i x y. sym (e x y) i) o

then_comm :
    (a b : Ordering) → is_greater a ≡ false → is_greater b ≡ false → and_then a b ≡ and_then b a
then_comm lt lt p q = refl
then_comm lt eq p q = refl
then_comm eq lt p q = refl
then_comm eq eq p q = refl
then_comm gt b p q = absurd (ground arith)
then_comm lt gt p q = absurd (ground arith)
then_comm eq gt p q = absurd (ground arith)

IsOrder-flip {ℓ} : {A : Type ℓ} {c : A → A → Ordering} → IsOrder c → IsOrder (λ x y. c y x)
IsOrder-flip o = record {
  swap = λ x y. o.swap y x;
  trans = λ x y z p q. o.trans z y x q p ∙ then_comm _ _ q p;
}

if-then : (a b : Ordering) → (if is_equal a then b else a) ≡ and_then a b
if-then lt b = refl
if-then eq b = refl
if-then gt b = refl

nested :
    (q h p m : Ordering)
    → (if is_equal q then (if is_equal h then (if is_equal p then m else p) else h) else q)
      ≡ and_then q (and_then h (and_then p m))
nested q h p m = if-then q _ ∙ ap (and_then q) (if-then h _ ∙ ap (and_then h) (if-then p m))

compare_lengths-IsOrder {ℓ} : {T : Type ℓ} → IsOrder (compare_lengths {T = T})
unfolding compare_lengths
compare_lengths-IsOrder {T} =
    IsOrder-of_eq (IsOrder-none_last (IsOrder-flip (IsOrder-on IsOrder-compare_ℕ length))) by_case
  where
    by_case :
        (x y : Option (List T))
        → compare_lengths x y ≡ none_last (λ l m. compare_ℕ (length m) (length l)) x y
    by_case none none = refl
    by_case none (some m) = refl
    by_case (some l) none = refl
    by_case (some l) (some m) = refl

module _ (path_number : PathType → ℕ) (method_number : Method → ℕ) where
  header_matching-IsOrder : IsOrder (Http.header_matching path_number method_number)
  unfolding Http.header_matching compare_headers
  header_matching-IsOrder = IsOrder-on compare_lengths-IsOrder (λ m. m.headers)

  query_matching-IsOrder : IsOrder (Http.query_matching path_number method_number)
  unfolding Http.query_matching compare_queries
  query_matching-IsOrder = IsOrder-on compare_lengths-IsOrder (λ m. m.headers)

  compare_methods-IsOrder : IsOrder (Http.compare_methods path_number method_number)
  compare_methods-IsOrder =
      IsOrder-of_eq (IsOrder-none_last (IsOrder-on IsOrder-compare_ℕ method_number)) by_case
    where
      by_case :
          (x y : Option Method)
          → Http.compare_methods path_number method_number x y
            ≡ none_last (λ a b. compare_ℕ (method_number a) (method_number b)) x y
      by_case none none = refl
      by_case none (some m) = refl
      by_case (some l) none = refl
      by_case (some l) (some m) = refl

  method_matching-IsOrder : IsOrder (Http.method_matching path_number method_number)
  unfolding Http.method_matching
  method_matching-IsOrder = IsOrder-on compare_methods-IsOrder (λ m. m.method)

  abbrev Compare : Option String → Option String → Ordering
  Compare = Http.compare_values path_number method_number

  compare_values-IsOrder : IsOrder Compare
  compare_values-IsOrder =
      IsOrder-of_eq (IsOrder-none_last (IsOrder-flip (IsOrder-on IsOrder-compare_ℕ len))) by_case
    where
      by_case :
          (x y : Option String) → Compare x y ≡ none_last (λ a b. compare_ℕ (len b) (len a)) x y
      by_case none none = refl
      by_case none (some m) = refl
      by_case (some l) none = refl
      by_case (some l) (some m) = refl

  -- Paths of one type are compared by their values.
  abbrev by_type : PathMatch → PathMatch → Ordering
  by_type p q = Http.compare_typed path_number method_number p.path_type p.value q.path_type q.value

  abbrev typed : PathType × Option String → PathType × Option String → Ordering
  typed (t, v) (u, w) = and_then (compare_ℕ (path_number t) (path_number u)) (Compare v w)

  typed-IsOrder : IsOrder typed
  typed-IsOrder =
      IsOrder-then (IsOrder-on IsOrder-compare_ℕ (λ (t, v). path_number t))
        (IsOrder-on compare_values-IsOrder (λ (t, v). v))

  compare_typed_swap :
      (t u : Option PathType) (v w : Option String)
      → Http.compare_typed path_number method_number u w t v
        ≡ reverse (Http.compare_typed path_number method_number t v u w)
  compare_typed_swap none none v w = (IsOrder-none_first IsOrder-compare).swap v w
  compare_typed_swap none (some u) v w = refl
  compare_typed_swap (some t) none v w = refl
  compare_typed_swap (some t) (some u) v w =
      if-then (compare_ℕ (path_number u) (path_number t)) (Compare w v)
      ∙ typed-IsOrder.swap (t, v) (u, w)
      ∙ ap reverse (sym (if-then (compare_ℕ (path_number t) (path_number u)) (Compare v w)))

  compare_typed_trans :
      (t u r : Option PathType) (v w x : Option String)
      → is_greater (Http.compare_typed path_number method_number t v u w) ≡ false
      → is_greater (Http.compare_typed path_number method_number u w r x) ≡ false
      → Http.compare_typed path_number method_number t v r x
        ≡ and_then
            (Http.compare_typed path_number method_number t v u w)
            (Http.compare_typed path_number method_number u w r x)
  compare_typed_trans none none none v w x p q =
      (IsOrder-none_first IsOrder-compare).trans v w x p q
  compare_typed_trans none none (some r) v w x p q = then_less (none_first compare v w) p
  compare_typed_trans none (some u) none v w x p q = absurd (ground arith)
  compare_typed_trans none (some u) (some r) v w x p q = refl
  compare_typed_trans (some t) none r v w x p q = absurd (ground arith)
  compare_typed_trans (some t) (some u) none v w x p q = absurd (ground arith)
  compare_typed_trans (some t) (some u) (some r) v w x p q =
      let a = compare_ℕ (path_number t) (path_number u) in
      let b = compare_ℕ (path_number u) (path_number r) in
      let e = if-then a (Compare v w) in
      let f = if-then b (Compare w x) in
      if-then (compare_ℕ (path_number t) (path_number r)) (Compare v x)
      ∙ typed-IsOrder.trans (t, v) (u, w) (r, x) (sym (ap is_greater e) ∙ p)
          (sym (ap is_greater f) ∙ q)
      ∙ sym (ap₂ and_then e f)

  by_type-IsOrder : IsOrder by_type
  by_type-IsOrder = record {
    swap = λ p q. compare_typed_swap p.path_type q.path_type p.value q.value;
    trans =
        λ p q r. compare_typed_trans p.path_type q.path_type r.path_type p.value q.value r.value;
  }

  path_matching-IsOrder : IsOrder (Http.path_matching path_number method_number)
  unfolding Http.path_matching
  path_matching-IsOrder =
      IsOrder-on (IsOrder-of_eq (IsOrder-none_last by_type-IsOrder) by_case) (λ m. m.path)
    where
      by_case :
          (x y : Option PathMatch)
          → Http.compare_paths path_number method_number x y ≡ none_last by_type x y
      by_case none none = refl
      by_case none (some m) = refl
      by_case (some l) none = refl
      by_case (some l) (some m) = refl

  -- The comparison of HTTP matches is a total preorder, whatever numbers the variants of the path
  -- types and of the methods have: swapping the matches reverses the answer, and along a chain of
  -- matches that are not "greater" the first answer that is not "equal" is that for its ends.
  pub compare_matching-IsOrder : IsOrder (Http.compare_matching path_number method_number)
  unfolding Http.compare_matching
  compare_matching-IsOrder =
      IsOrder-of_eq
        (IsOrder-then query_matching-IsOrder (
          IsOrder-then header_matching-IsOrder
            (IsOrder-then path_matching-IsOrder method_matching-IsOrder)))
        λ x y. nested (query x y) (header x y) (path x y) (method x y)
    where
      query : RouteMatch → RouteMatch → Ordering
      query = Http.query_matching path_number method_number

      header : RouteMatch → RouteMatch → Ordering
      header = Http.header_matching path_number method_number

      path : RouteMatch → RouteMatch → Ordering
      path = Http.path_matching path_number method_number

      method : RouteMatch → RouteMatch → Ordering
      method = Http.method_matching path_number method_number

abbrev keys : GrpcMethodMatch → Option String × Option String
keys m = (m.method, m.service)

abbrev by_keys : Option String × Option String → Option String × Option String → Ordering
by_keys (m, s) (n, t) = and_then (none_first compare m n) (none_first compare s t)

by_keys-IsOrder : IsOrder by_keys
by_keys-IsOrder =
    IsOrder-then (IsOrder-on (IsOrder-none_first IsOrder-compare) (λ (m, s). m))
      (IsOrder-on (IsOrder-none_first IsOrder-compare) (λ (m, s). s))

grpc_methods-IsOrder : IsOrder Grpc.compare_methods
grpc_methods-IsOrder = IsOrder-of_eq (IsOrder-none_last (IsOrder-on by_keys-IsOrder keys)) by_case
  where
    by_case :
        (x y : Option GrpcMethodMatch)
        → Grpc.compare_methods x y ≡ none_last (λ a b. by_keys (keys a) (keys b)) x y
    by_case none none = refl
    by_case none (some m) = refl
    by_case (some l) none = refl
    by_case (some l) (some m) =
        if-then (none_first compare l.method m.method) (none_first compare l.service m.service)

-- The comparison of gRPC matches is a total preorder: swapping the matches reverses the answer, and
-- along a chain of matches that are not "greater" the first answer that is not "equal" is that for
-- its ends.
pub grpc_matching-IsOrder : IsOrder Grpc.compare_matching
unfolding Grpc.compare_matching Grpc.header_matching Grpc.method_matching compare_headers
grpc_matching-IsOrder =
    IsOrder-of_eq
      (IsOrder-then (IsOrder-on compare_lengths-IsOrder (λ m. m.headers))
        (IsOrder-on grpc_methods-IsOrder (λ m. m.method)))
      λ x y. if-then (compare_lengths x.headers y.headers) (Grpc.compare_methods x.method y.method)
