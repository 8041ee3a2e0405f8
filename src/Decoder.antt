-- ===== src/Decoder.antt =====
-- src/decoder.rs: frames cut out of a byte stream.
pub mod Defs
pub mod Steps
pub mod Stream
