-- ===== src/Server/Fs.antt =====
-- crates/remote-workspace-server/src/fs_ops.rs: the file operations of a client. The children hold
-- the text replacements, the write-ahead mutations and the reads.
pub mod Text
pub mod WriteAhead
pub mod Sequence
pub mod Apply
pub mod Edit
pub mod Read
pub mod List
