-- ===== src/Runs.antt =====
-- Runs of the program at concrete inputs, with crates that keep the promises of `bytes` and `md5`.
pub mod Crates
pub mod Handlers
pub mod Messages
pub mod Types
pub mod Data
pub mod Streams
pub mod Tests
pub mod Examples
pub mod Network
pub mod Canonical
pub mod Accepting
