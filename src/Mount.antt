-- ===== src/Mount.antt =====
-- crates/rfsd/src/filesystem.rs and fuse.rs: a session as a read-only mount.
pub mod Filesystem
pub mod Fuse
pub mod Serve
pub mod Errors
pub mod Keeps
pub mod Closed
pub mod Listing
pub mod Times
