-- ===== src/Rules.antt =====
-- Effective routing rules of the Envoy backends: the order of their matches, of
-- kubvernor-controller/src/backends/envoy/common/route, and the rules that a listener of
-- kubvernor-controller/src/backends/envoy/common/resource_generator.rs makes of its routes.
pub mod Ordering
pub mod Lengths
pub mod Http
pub mod Grpc
pub mod Laws
pub mod Sort
pub mod Effective
pub mod Sorted
pub mod Hosts
pub mod Mapping
pub mod Ports
mod Tests
