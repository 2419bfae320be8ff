-- ===== src/Matching.antt =====
-- Which listeners of a gateway a route is attached to:
-- kubvernor-controller/src/controllers/utils/hostname_match_filter.rs and route_listener_matcher.rs
-- beside it.
pub mod Hostnames
pub mod Matcher
pub mod Selection
pub mod Ports
pub mod Statuses
pub mod Partition
pub mod Parents
mod Tests
