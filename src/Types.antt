-- ===== src/Types.antt =====
-- libpq-serde-types/src/libpq_types.rs: the types that messages are built from.
pub mod Scalar
pub mod Text
pub mod Vectors
pub mod Counted
pub mod Terminated
pub mod Utf8
pub mod Formats
pub mod RoundTrip
pub mod Canonical
