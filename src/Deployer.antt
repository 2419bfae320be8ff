-- ===== src/Deployer.antt =====
-- The deployment of gateways: kubvernor-controller/src/services/gateway_deployer/mod.rs and
-- gateway_deployer_internal.rs.
pub mod Internal
pub mod Verdicts
pub mod Bounds
pub mod Service
pub mod Saved
mod Tests
