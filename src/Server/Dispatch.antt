-- ===== src/Server/Dispatch.antt =====
-- crates/remote-workspace-server/src/server.rs: the handling of requests
pub mod Reply
pub mod Command
pub mod Gc
pub mod Handle
