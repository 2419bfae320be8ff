-- ===== src/Statuses.antt =====
-- The statuses that are written for a gateway that its backend has deployed and for its routes:
-- kubvernor-controller/src/services/gateway_deployer/gateway_processed_handler.rs.
pub mod Kube
pub mod Conditions
pub mod Parents
pub mod Handler
pub mod Entries
pub mod Patches
pub mod Sends
pub mod Samples
mod Tests
