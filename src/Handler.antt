-- ===== src/Handler.antt =====
-- src/handler: the two ends of a connection.
pub mod Io
pub mod RoundTrip
pub mod Network
pub mod Conversation
pub mod Connection
pub mod Server
pub mod Client
