-- ===== src/Rules/Grpc.antt =====
-- The order of gRPC matches, `GRPCEffectiveRoutingRule::compare_matching` of
-- kubvernor-controller/src/backends/envoy/common/route/grpc_route.rs
use Prim.Native.Nat.{Ordering}
use Prim.Native.Nat.Ordering.{lt, eq, gt}
use Prim.Native.String.{compare}
use kubvernor.Prelude.{Option, none, some, if◌then◌else◌}
use kubvernor.Routes.{GrpcMethodMatch, GrpcRouteMatch}
use kubvernor.Rules.Ordering.{is_equal, none_first}
use kubvernor.Rules.Lengths.{compare_headers}

unfoldable pub header_matching : GrpcRouteMatch → GrpcRouteMatch → Ordering
unfolding compare_headers
header_matching this other = compare_headers this.headers other.headers

abbrev pub compare_methods : Option GrpcMethodMatch → Option GrpcMethodMatch → Ordering
compare_methods none none = eq
compare_methods none (some other) = gt
compare_methods (some this) none = lt
compare_methods (some this_method) (some other_method) =
    let cmp_method = none_first compare this_method.method other_method.method in
    let cmp_service = none_first compare this_method.service other_method.service in
    if is_equal cmp_method then cmp_service else cmp_method

unfoldable pub method_matching : GrpcRouteMatch → GrpcRouteMatch → Ordering
method_matching this other = compare_methods this.method other.method

-- `GRPCEffectiveRoutingRule::compare_matching`
unfoldable pub compare_matching : GrpcRouteMatch → GrpcRouteMatch → Ordering
unfolding method_matching header_matching
compare_matching this other =
    let method_match = method_matching this other in
    let header_match = header_matching this other in
    if is_equal header_match then method_match else header_match
