-- ===== src/Daemon.antt =====
-- crates/rfsd/src and crates/rfs/src/daemon_client.rs: the control service of a daemon, and its client.
pub mod Types
pub mod Control
pub mod Release
pub mod Order
pub mod Serve
pub mod Handover
pub mod Client
pub mod Conversation
pub mod Arguments
pub mod Start
pub mod Abandon
