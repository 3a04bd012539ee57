-- ===== src/Cas.antt =====
-- crates/rfs-common/src/cas.rs: the client of the content-addressed store.
pub mod Blobs
pub mod Chunks
pub mod Assembly
pub mod Streams
pub mod Batch
pub mod Packing
pub mod Carried
pub mod Written
pub mod Order
pub mod Retry
pub mod Names
pub mod Config
pub mod Naming
pub mod Client
pub mod Protocol
pub mod Acknowledged
pub mod Refines
pub mod Download
pub mod Verified
