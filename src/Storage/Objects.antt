-- ===== src/Storage/Objects.antt =====
-- The tables of stored objects: saving, replacing, deleting and reading gateway classes, gateways,
-- routes, inference pools and implementation types (kubvernor-state/src/inmemory.rs).
use kubvernor.Prelude.{Option, List, if◌then◌else◌}
use kubvernor.Prelude.Maps.{Map, contains_key, values}
use kubvernor.Prelude.Maps
use kubvernor.Keys.{ResourceKey, ResourceKey-discrete}
use kubvernor.Storage.Locks.{
  Result, ok, ◌>>=◌, lock, write, KubeTypes, State, GatewayImplementationType,
}

abbrev dec : Discrete ResourceKey
dec = ResourceKey-discrete

module _ (O : KubeTypes) where
  open O use {GatewayClass, Gateway, HttpRoute, GrpcRoute, InferencePool}

  unfoldable pub save_gateway : ResourceKey → Gateway → State O → Result (Unit {0} × State O)
  save_gateway id gateway s = do
    table ← lock s.gateways
    ok (tt, record s { gateways = write s.gateways (Maps.insert dec id gateway table) })

  unfoldable pub maybe_save_gateway : ResourceKey → Gateway → State O → Result (Unit {0} × State O)
  maybe_save_gateway id gateway s = do
    table ← lock s.gateways
    if contains_key dec id table
        then ok (tt, record s { gateways = write s.gateways (Maps.insert dec id gateway table) })
        else ok (tt, s)

  unfoldable pub delete_gateway : ResourceKey → State O → Result (Option Gateway × State O)
  delete_gateway id s = do
    table ← lock s.gateways
    ok (Maps.get dec id table, record s { gateways = write s.gateways (Maps.remove dec id table) })

  unfoldable pub get_gateway : ResourceKey → State O → Result (Option Gateway)
  get_gateway id s = do table ← lock s.gateways; ok (Maps.get dec id table)

  unfoldable pub get_gateways : State O → Result (List Gateway)
  get_gateways s = do table ← lock s.gateways; ok (values table)

  unfoldable pub save_gateway_class :
      ResourceKey → GatewayClass → State O → Result (Option GatewayClass × State O)
  save_gateway_class id gateway_class s = do
    table ← lock s.gateway_classes
    ok (
      Maps.get dec id table,
      record s {
        gateway_classes = write s.gateway_classes (Maps.insert dec id gateway_class table);
      },
    )

  unfoldable pub get_gateway_class_by_id : ResourceKey → State O → Result (Option GatewayClass)
  get_gateway_class_by_id id s = do table ← lock s.gateway_classes; ok (Maps.get dec id table)

  unfoldable pub get_gateway_classes : State O → Result (List GatewayClass)
  get_gateway_classes s = do table ← lock s.gateway_classes; ok (values table)

  unfoldable pub delete_gateway_class :
      ResourceKey → State O → Result (Option GatewayClass × State O)
  delete_gateway_class id s = do
    table ← lock s.gateway_classes
    ok (
      Maps.get dec id table,
      record s { gateway_classes = write s.gateway_classes (Maps.remove dec id table) },
    )

  unfoldable pub save_gateway_type :
      ResourceKey
      → GatewayImplementationType
      → State O
      → Result (Option GatewayImplementationType × State O)
  save_gateway_type id gateway_type s = do
    table ← lock s.gateway_implementation_types
    ok (
      Maps.get dec id table,
      record s {
        gateway_implementation_types =
            write s.gateway_implementation_types (Maps.insert dec id gateway_type table);
      },
    )

  unfoldable pub get_gateway_type :
      ResourceKey → State O → Result (Option GatewayImplementationType)
  get_gateway_type id s = do table ← lock s.gateway_implementation_types; ok (Maps.get dec id table)

  unfoldable pub delete_gateway_type :
      ResourceKey → State O → Result (Option GatewayImplementationType × State O)
  delete_gateway_type id s = do
    table ← lock s.gateway_implementation_types
    ok (
      Maps.get dec id table,
      record s {
        gateway_implementation_types =
            write s.gateway_implementation_types (Maps.remove dec id table);
      },
    )

  unfoldable pub maybe_save_http_route :
      ResourceKey → HttpRoute → State O → Result (Unit {0} × State O)
  maybe_save_http_route id http_route s = do
    table ← lock s.http_routes
    if contains_key dec id table
        then ok (
          tt,
          record s { http_routes = write s.http_routes (Maps.insert dec id http_route table) },
        )
        else ok (tt, s)

  unfoldable pub save_http_route : ResourceKey → HttpRoute → State O → Result (Unit {0} × State O)
  save_http_route id http_route s = do
    table ← lock s.http_routes
    ok (tt, record s { http_routes = write s.http_routes (Maps.insert dec id http_route table) })

  unfoldable pub delete_http_route : ResourceKey → State O → Result (Option HttpRoute × State O)
  delete_http_route id s = do
    table ← lock s.http_routes
    ok (
      Maps.get dec id table,
      record s { http_routes = write s.http_routes (Maps.remove dec id table) },
    )

  unfoldable pub get_http_route_by_id : ResourceKey → State O → Result (Option HttpRoute)
  get_http_route_by_id id s = do table ← lock s.http_routes; ok (Maps.get dec id table)

  unfoldable pub get_http_routes : State O → Result (List HttpRoute)
  get_http_routes s = do table ← lock s.http_routes; ok (values table)

  unfoldable pub maybe_save_grpc_route :
      ResourceKey → GrpcRoute → State O → Result (Unit {0} × State O)
  maybe_save_grpc_route id grpc_route s = do
    table ← lock s.grpc_routes
    if contains_key dec id table
        then ok (
          tt,
          record s { grpc_routes = write s.grpc_routes (Maps.insert dec id grpc_route table) },
        )
        else ok (tt, s)

  unfoldable pub save_grpc_route : ResourceKey → GrpcRoute → State O → Result (Unit {0} × State O)
  save_grpc_route id grpc_route s = do
    table ← lock s.grpc_routes
    ok (tt, record s { grpc_routes = write s.grpc_routes (Maps.insert dec id grpc_route table) })

  unfoldable pub delete_grpc_route : ResourceKey → State O → Result (Option GrpcRoute × State O)
  delete_grpc_route id s = do
    table ← lock s.grpc_routes
    ok (
      Maps.get dec id table,
      record s { grpc_routes = write s.grpc_routes (Maps.remove dec id table) },
    )

  unfoldable pub get_grpc_route_by_id : ResourceKey → State O → Result (Option GrpcRoute)
  get_grpc_route_by_id id s = do table ← lock s.grpc_routes; ok (Maps.get dec id table)

  unfoldable pub save_inference_pool :
      ResourceKey → InferencePool → State O → Result (Unit {0} × State O)
  save_inference_pool id inference_pool s = do
    table ← lock s.inference_pools
    ok (
      tt,
      record s {
        inference_pools = write s.inference_pools (Maps.insert dec id inference_pool table);
      },
    )

  unfoldable pub maybe_save_inference_pool :
      ResourceKey → InferencePool → State O → Result (Unit {0} × State O)
  maybe_save_inference_pool id inference_pool s = do
    table ← lock s.inference_pools
    if contains_key dec id table
        then ok (
          tt,
          record s {
            inference_pools = write s.inference_pools (Maps.insert dec id inference_pool table);
          },
        )
        else ok (tt, s)

  unfoldable pub get_inference_pool : ResourceKey → State O → Result (Option InferencePool)
  get_inference_pool id s = do table ← lock s.inference_pools; ok (Maps.get dec id table)

  unfoldable pub delete_inference_pool :
      ResourceKey → State O → Result (Option InferencePool × State O)
  delete_inference_pool id s = do
    table ← lock s.inference_pools
    ok (
      Maps.get dec id table,
      record s { inference_pools = write s.inference_pools (Maps.remove dec id table) },
    )
