-- ===== src/Lib.antt =====
-- A model of Kubvernor, a controller for the Kubernetes Gateway API, and theorems about it.
--
-- Controllers (kubvernor-controller/src/controllers) watch gateways, routes and inference pools, keep
-- them in a shared state, resolve what they refer to, match routes with the listeners of gateways, and
-- hand the gateways to a backend that deploys them. The parts that are modelled:
--
-- - Keys: kubvernor-common/src/resource_key.rs and kubvernor-controller/src/common/resource_key.rs. One
--   function for each `From` implementation, over records of the fields that it reads.
-- - Storage: kubvernor-state/src/inmemory.rs. `State` is a record of tables behind locks; an operation
--   takes the state and returns its answer and the new state, or the error of a poisoned lock.
--   Storage.Commands names the operations that write, Storage.Spec says what they promise.
-- - References: kubvernor-controller/src/common/references_resolver/multi_references_resolver.rs. The
--   counters are 64-bit numbers that wrap, as in the release profile. The loop of `resolve` is its one
--   task, `check_reference`, for any answer of the API server.
-- - Grants: kubvernor-controller/src/common/references_resolver/reference_grants_resolver.rs. One turn of
--   its loop, for any answers of the API server, one for each tracked reference, and the decision
--   `is_allowed`.
-- - Routes: the data of kubvernor-controller/src/common/route/mod.rs, with the rules of http_route.rs and
--   grpc_route.rs beside it and their matches, without their filters.
-- - Listeners: kubvernor-controller/src/common/listener.rs, gateway.rs and mod.rs, and the validation of
--   certificates of kubvernor-controller/src/controllers/utils/tls_config_validator.rs.
-- - Matching: kubvernor-controller/src/controllers/utils/hostname_match_filter.rs and
--   route_listener_matcher.rs.
-- - Deployer: kubvernor-controller/src/services/gateway_deployer/mod.rs and gateway_deployer_internal.rs.
--   What a service sends to another one is a list of messages; `on_response` is one turn of its loop.
-- - Statuses: gateway_processed_handler.rs of the same folder, over records of the parts of the Gateway
--   API's objects that it reads and writes.
-- - Resolution: kubvernor-controller/src/controllers/utils/routes_resolver.rs, and the status of inference
--   pools of kubvernor-controller/src/controllers/inference_pool.rs.
-- - Lifecycle: kubvernor-controller/src/controllers/utils/mod.rs, controllers/handlers/resource_handler.rs
--   and controllers/route. A handler reads and writes the state, sends messages, and ends with an
--   action, an error or a panic.
-- - Rules: route, mod.rs and resource_generator.rs of kubvernor-controller/src/backends/envoy/common, up to
--   the Envoy listeners of a gateway. A virtual host holds effective rules where the source holds the
--   routes of Envoy's generated types that it makes of them. The numbers that the Gateway API's crate
--   gives to path types and methods are parameters, and the stable sort is an insertion sort.
--
-- Maps are association lists and sets are lists, with the operations of Prelude.Maps and
-- Prelude.Sets; their order is that of insertion. Where the ports of a gateway are mapped to Envoy
-- listeners, its listeners are sorted by their names, as the source's map has them; the theorems on
-- effective rules take the routes of a listener in the order of its lists, which in the source is
-- that of their keys. All loops are structural recursion, so no fuel is used. The parsers of UUIDs,
-- of PEM texts and of domain patterns are parameters, and so are the objects of the Gateway API
-- where the code only passes them on.
--
-- Not modelled: the calls of the API server, the channels between the services, the generated
-- types of the backends' configuration, the generators that fill them, the servers that deliver them,
-- the conversion of routes from the Gateway API, and logging.
pub mod Prelude
pub mod Keys
pub mod Storage
pub mod References
pub mod Routes
pub mod Listeners
pub mod Matching
pub mod Grants
pub mod Statuses
pub mod Deployer
pub mod Resolution
pub mod Lifecycle
pub mod Rules
