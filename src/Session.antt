-- ===== src/Session.antt =====
-- crates/rfs-common/src/session.rs and session/: one mounted workspace, its store and its cache.
pub mod Types
pub mod Action
pub mod Store
pub mod Projection
pub mod Cache
pub mod Facade
pub mod Home
pub mod Opening
pub mod Exclusive
pub mod Retained
pub mod Closed
pub mod Safety
