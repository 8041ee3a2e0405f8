-- ===== src/Log.antt =====
-- src/serve/log.rs: the layer that logs every request and reply.
pub mod Defs
pub mod Transparent
pub mod Discreet
