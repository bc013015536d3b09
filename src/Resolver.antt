-- ===== src/Resolver.antt =====
-- Static call resolution over one snapshot: src/codekg/resolver.py.
pub mod Merge
pub mod Names
pub mod Refs
pub mod Bases
pub mod Index
pub mod Mro
pub mod Calls
pub mod Samples
mod Witnesses
