-- ===== src/Rules/Sorted.antt =====
-- What the effective rules of a listener are and in which order they come.
use Prim.Native.Nat.{Ordering}
use mathlib.Core.List.{Perm}
use kubvernor.Prelude.{ℕ, filter_by, ◌≡◌}
use kubvernor.Routes.{PathType, Method}
use kubvernor.Listeners.Convert.{Listener}
use kubvernor.Rules.Ordering.{IsOrder, IsOrder-on, is_equal}
use kubvernor.Rules.Http
use kubvernor.Rules.Grpc
use kubvernor.Rules.Laws.{compare_matching-IsOrder, grpc_matching-IsOrder}
use kubvernor.Rules.Sort.{IsSortedBy, sort_by-Perm, sort_by-IsSortedBy, sort_by-stable}
use kubvernor.Rules.Effective.{
  HttpEffectiveRoutingRule, GrpcEffectiveRoutingRule, http_matching_rules, grpc_matching_rules,
  unsorted_http_rules, unsorted_grpc_rules,
}

module _ (path_number : PathType → ℕ) (method_number : Method → ℕ) where
  abbrev pub compare_http : HttpEffectiveRoutingRule → HttpEffectiveRoutingRule → Ordering
  compare_http this other =
      Http.compare_matching path_number method_number this.route_matcher other.route_matcher

  compare_http-IsOrder : IsOrder compare_http
  compare_http-IsOrder =
      IsOrder-on (compare_matching-IsOrder path_number method_number) (λ r. r.route_matcher)

  -- The HTTP rules of a listener are those that its routes yield, rearranged so that no rule is
  -- greater than a later one by the comparison of matches; and rules whose matches compare as equal
  -- to those of some rule `k` keep the order in which the routes yield them.
  pub http_matching_rules_lem :
      (listener : Listener)
      → IsSortedBy compare_http (http_matching_rules path_number method_number listener)
        × Perm
            (http_matching_rules path_number method_number listener)
            (unsorted_http_rules listener)
        × ((k : HttpEffectiveRoutingRule)
            → filter_by
                (λ r. is_equal (compare_http k r))
                (http_matching_rules path_number method_number listener)
              ≡ filter_by (λ r. is_equal (compare_http k r)) (unsorted_http_rules listener))
  unfolding http_matching_rules
  http_matching_rules_lem listener = (
    sort_by-IsSortedBy compare_http compare_http-IsOrder (unsorted_http_rules listener),
    sort_by-Perm compare_http (unsorted_http_rules listener),
    λ k. sort_by-stable compare_http compare_http-IsOrder k (unsorted_http_rules listener),
  )

abbrev pub compare_grpc : GrpcEffectiveRoutingRule → GrpcEffectiveRoutingRule → Ordering
compare_grpc this other = Grpc.compare_matching this.route_matcher other.route_matcher

-- The gRPC rules of a listener are those that its routes yield, rearranged so that no rule is
-- greater than a later one by the comparison of matches.
pub grpc_matching_rules_lem :
    (listener : Listener)
    → IsSortedBy compare_grpc (grpc_matching_rules listener)
      × Perm (grpc_matching_rules listener) (unsorted_grpc_rules listener)
unfolding grpc_matching_rules
grpc_matching_rules_lem listener = (
  sort_by-IsSortedBy compare_grpc (IsOrder-on grpc_matching-IsOrder (λ r. r.route_matcher))
      (unsorted_grpc_rules listener),
  sort_by-Perm compare_grpc (unsorted_grpc_rules listener),
)
