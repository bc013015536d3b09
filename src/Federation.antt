-- ===== src/Federation.antt =====
-- Searches over several graphs: src/codekg/federation.py.
pub mod Chains
pub mod Complete
pub mod Exact
pub mod Extend
pub mod Facts
pub mod Found
pub mod Holds
pub mod Paths
pub mod Reach
pub mod Resolve
pub mod Resolved
pub mod Search
pub mod Seen
pub mod Session
pub mod Sound
mod Tests
