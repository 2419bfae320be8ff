-- ===== src/Grants.antt =====
-- The resolver of reference grants:
-- kubvernor-controller/src/common/references_resolver/reference_grants_resolver.rs.
pub mod Resolver
pub mod References
pub mod Permits
pub mod Tracking
mod Tests
