-- ===== src/Storage.antt =====
-- The in-memory state of the controllers: kubvernor-state/src/inmemory.rs.
pub mod Locks
pub mod Objects
pub mod Attached
pub mod Pools
pub mod Commands
pub mod Spec
pub mod Tables
pub mod WellFormed
pub mod Invariant
pub mod Refinement
pub mod Attachments
pub mod Searches
pub mod Sharing
mod Tests
