-- ===== src/Cli.antt =====
-- crates/rfs/src/cli.rs and crates/rfs-common/src/config.rs: the commands of `rfs`.
pub mod Types
pub mod Exit
pub mod Settings
pub mod Mount
pub mod Unmount
pub mod Readiness
pub mod Laws
