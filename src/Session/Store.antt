-- ===== src/Session/Store.antt =====
-- crates/rfs-common/src/session/store.rs: the durable lifecycle and inode namespace of one session.
pub mod Rows
pub mod Validate
pub mod Metadata
pub mod Database
pub mod Operations
pub mod Keeps
pub mod RemoteInode
pub mod RowRoundTrip
pub mod Lifecycle
pub mod Atomicity
pub mod Closing
pub mod Tables
pub mod Materialize
pub mod Invariants
pub mod NewRows
pub mod Children
pub mod Creation
