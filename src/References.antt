-- ===== src/References.antt =====
-- Reference counting of the objects that routes refer to:
-- kubvernor-controller/src/common/references_resolver/multi_references_resolver.rs.
pub mod Resolver
pub mod Counting
pub mod Counted
pub mod Release
pub mod Watch
pub mod Updates
pub mod Tracked
mod Tests
