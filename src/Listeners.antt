-- ===== src/Listeners.antt =====
-- Listeners of a gateway: their conversion, their conditions and their certificates, of
-- kubvernor-controller/src/common/listener.rs, gateway.rs and mod.rs, and the validation of the
-- certificates, of kubvernor-controller/src/controllers/utils/tls_config_validator.rs.
pub mod Certificates
pub mod Conditions
pub mod Convert
pub mod Gateways
pub mod Laws
pub mod Kinds
pub mod Names
pub mod Validation
pub mod Verdicts
mod Tests
