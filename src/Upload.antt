-- ===== src/Upload.antt =====
-- crates/rfs-common/src/upload.rs: the upload of a local directory.
pub mod Types
pub mod Paths
pub mod Scan
pub mod Hash
pub mod Encode
pub mod Send
pub mod Pipeline
pub mod Bounds
pub mod Hashing
pub mod Iteration
pub mod Members
pub mod Listing
pub mod Recording
pub mod Scanned
pub mod Lookups
pub mod Ahead
pub mod BottomUp
pub mod Sources
pub mod Stored
pub mod Entries
pub mod Closure
pub mod Complete
