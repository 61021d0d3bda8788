-- ===== src/Kind.antt =====
-- src/message.rs: the enumerations of requests and messages, and their codes.
pub mod Request
pub mod Backend
pub mod Authentication
pub mod Frontend
pub mod Codes
