-- ===== src/Tree.antt =====
-- crates/rfs-common/src/tree.rs: canonical REAPI directories, from entries to bytes and back.
pub mod Types
pub mod Metadata
pub mod Builder
pub mod Decode
pub mod Order
pub mod Sorting
pub mod Names
pub mod Nodes
pub mod Built
pub mod RoundTrip
pub mod References
pub mod Targets
pub mod Modes
