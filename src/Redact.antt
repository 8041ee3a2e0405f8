-- ===== src/Redact.antt =====
-- src/redact.rs: documents in the logs, without credentials.
pub mod Defs
pub mod Agree
pub mod Message
pub mod Alike
pub mod Told
use mongod_proxy.Bytes
