-- ===== src/Message.antt =====
-- src/message.rs and src/encoder.rs: a header and an operation, in one message.
pub mod Defs
pub mod RoundTrip
