-- ===== src/Examples.antt =====
-- examples: the programs that use the handlers.
pub mod Executor
pub mod Server
pub mod Client
pub mod Causal
pub mod Network
pub mod Conversation
