-- ===== src/Resolution.antt =====
-- The resolution of routes: kubvernor-controller/src/controllers/utils/routes_resolver.rs, and the status
-- of inference pools, of kubvernor-controller/src/controllers/inference_pool.rs.
pub mod Pools
pub mod Backends
pub mod Resolver
pub mod Totals
pub mod Routes
pub mod Permissions
pub mod Attached
mod Tests
