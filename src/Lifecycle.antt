-- ===== src/Lifecycle.antt =====
-- Registries of graphs and their activation: src/codekg/graph_lifecycle.py.
pub mod Explained
pub mod Distinct
pub mod Files
pub mod RolledBack
pub mod Safe
mod Tests
pub mod Writes
pub mod Activate
pub mod Activated
pub mod Atomic
