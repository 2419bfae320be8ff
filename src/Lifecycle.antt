-- ===== src/Lifecycle.antt =====
-- The life of a resource in a controller: kubvernor-controller/src/controllers/utils/mod.rs,
-- controllers/handlers/resource_handler.rs and controllers/route of the same crate.
pub mod Dispatch
pub mod Effects
pub mod Routes
pub mod Deletion
pub mod Detached
pub mod Deleted
pub mod Decisions
mod Tests
