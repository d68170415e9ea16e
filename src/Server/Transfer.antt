-- ===== src/Server/Transfer.antt =====
-- crates/remote-workspace-server/src/transfer.rs
pub mod Registry
pub mod Sweep
pub mod Site
pub mod Prepare
pub mod Upload
pub mod Stream
pub mod Send
