-- ===== src/Rules/Http.antt =====
-- The order of HTTP matches, `HTTPEffectiveRoutingRule::compare_matching` of
-- kubvernor-controller/src/backends/envoy/common/route/http_route.rs. The numbers of the variants
-- of the Gateway API's enums are parameters.
use Prim.Native.Nat.{Ordering, compare as compare_ℕ}
use Prim.Native.Nat.Ordering.{lt, eq, gt}
use Prim.Native.String.{compare, len}
use kubvernor.Prelude.{ℕ, String, Option, none, some, if◌then◌else◌}
use kubvernor.Routes.{PathType, Method, PathMatch, RouteMatch}
use kubvernor.Rules.Ordering.{is_equal, none_first}
use kubvernor.Rules.Lengths.{compare_headers, compare_queries}

module _ (path_number : PathType → ℕ) (method_number : Method → ℕ) where
  unfoldable pub header_matching : RouteMatch → RouteMatch → Ordering
  unfolding compare_headers
  header_matching this other = compare_headers this.headers other.headers

  -- The source gives the headers to the comparison of the queries.
  unfoldable pub query_matching : RouteMatch → RouteMatch → Ordering
  unfolding compare_queries
  query_matching this other = compare_queries this.headers other.headers

  abbrev pub compare_methods : Option Method → Option Method → Ordering
  compare_methods none none = eq
  compare_methods none (some other) = gt
  compare_methods (some this) none = lt
  compare_methods (some this_method) (some other_method) =
      compare_ℕ (method_number this_method) (method_number other_method)

  unfoldable pub method_matching : RouteMatch → RouteMatch → Ordering
  method_matching this other = compare_methods this.method other.method

  -- The values of two paths of one type: the longer one comes first.
  abbrev pub compare_values : Option String → Option String → Ordering
  compare_values none none = eq
  compare_values none (some other) = gt
  compare_values (some this) none = lt
  compare_values (some this_path) (some other_path) = compare_ℕ (len other_path) (len this_path)

  abbrev pub compare_typed :
      Option PathType → Option String → Option PathType → Option String → Ordering
  compare_typed none this none other = none_first compare this other
  compare_typed none this (some t) other = lt
  compare_typed (some t) this none other = gt
  compare_typed (some this_type) this (some other_type) other =
      let maybe_equal = compare_ℕ (path_number this_type) (path_number other_type) in
      if is_equal maybe_equal then compare_values this other else maybe_equal

  abbrev pub compare_paths : Option PathMatch → Option PathMatch → Ordering
  compare_paths none none = eq
  compare_paths none (some other) = gt
  compare_paths (some this) none = lt
  compare_paths (some this_path) (some other_path) =
      compare_typed this_path.path_type this_path.value other_path.path_type other_path.value

  unfoldable pub path_matching : RouteMatch → RouteMatch → Ordering
  path_matching this other = compare_paths this.path other.path

  -- `HTTPEffectiveRoutingRule::compare_matching`
  unfoldable pub compare_matching : RouteMatch → RouteMatch → Ordering
  unfolding path_matching method_matching header_matching query_matching
  compare_matching this other =
      let path_match = path_matching this other in
      let method_match = method_matching this other in
      let header_match = header_matching this other in
      let query_match = query_matching this other in
      if is_equal query_match
      then (if is_equal header_match
          then (if is_equal path_match then method_match else path_match)
          else header_match)
      else query_match
