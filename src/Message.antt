-- ===== src/Message.antt =====
-- src/message.rs: the messages.
pub mod Header
pub mod Raw
pub mod Get
pub mod Frame
pub mod Authentication
pub mod Backend
pub mod Row
pub mod Errors
pub mod Startup
pub mod Frontend
pub mod Reliable
pub mod RoundTrip
pub mod Canonical
pub mod Lenient
pub mod Ends
pub mod Column
