-- ===== src/Tests.antt =====
-- Concrete inputs on which the theorems are applied.
pub mod Data
pub mod Logs
pub mod Stores
pub mod Histories
pub mod Files
pub mod Installs
pub mod Execs
pub mod Transfers
pub mod Streams
pub mod Dispatches
