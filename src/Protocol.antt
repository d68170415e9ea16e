-- ===== src/Protocol.antt =====
-- crates/remote-workspace-protocol: the types that client and server exchange and store, and the
-- version rules.
pub mod Error
pub mod Messages
pub mod Record
pub mod Version
