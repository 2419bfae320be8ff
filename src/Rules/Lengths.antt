-- ===== src/Rules/Lengths.antt =====
-- `Comparator` with `HeaderComparator` and `QueryComparator` of
-- kubvernor-controller/src/backends/envoy/common/route/mod.rs
use Prim.Native.Nat.{Ordering, compare as compare_ℕ}
use Prim.Native.Nat.Ordering.{lt, eq, gt}
use kubvernor.Prelude.{Option, none, some, List, length}
use kubvernor.Routes.{HeaderMatch}

-- `Comparator::compare`
unfoldable pub compare_lengths {ℓ} : {T : Type ℓ} → Option (List T) → Option (List T) → Ordering
compare_lengths none none = eq
compare_lengths none (some other) = gt
compare_lengths (some this) none = lt
compare_lengths (some this_headers) (some other_headers) =
    compare_ℕ (length other_headers) (length this_headers)

unfoldable pub compare_headers : Option (List HeaderMatch) → Option (List HeaderMatch) → Ordering
unfolding compare_lengths
compare_headers this other = compare_lengths this other

unfoldable pub compare_queries : Option (List HeaderMatch) → Option (List HeaderMatch) → Ordering
unfolding compare_lengths
compare_queries this other = compare_lengths this other
