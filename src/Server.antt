-- ===== src/Server.antt =====
-- crates/remote-workspace-server
pub mod Install
pub mod Log
pub mod Workspace
pub mod Store
pub mod Fs
pub mod Config
pub mod Exec
pub mod Transfer
pub mod Scratch
pub mod Dispatch
