-- ===== src/Server/Exec.antt =====
-- crates/remote-workspace-server/src/exec.rs
pub mod Output
pub mod Shell
pub mod Run
pub mod Wait
