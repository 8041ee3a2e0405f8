-- ===== src/Bytes.antt =====
-- Byte strings: the integers of the wire, and the texts that are written between them.
pub mod Defs
pub mod Laws
pub mod Words
pub mod Text
pub mod Bits
pub mod Writer
