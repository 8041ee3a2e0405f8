-- ===== src/Uri.antt =====
-- src/uri.rs: the part of a connection string that the proxy routes by.
pub mod Text
pub mod Defs
pub mod Parsed
