-- ===== src/Service.antt =====
-- src/serve/: a connection as a stack of services, from the client's socket to the upstream's.
pub mod Defs
pub mod Upstream
pub mod Dial
pub mod Replies
pub mod Accept
pub mod Server
pub mod Served
pub mod Drained
pub mod Forward
