-- ===== src/Proxy.antt =====
-- `Proxy` of src/serve/service.rs: where the upstream is, and how that is decided.
pub mod Defs
pub mod Startup
pub mod Routes
pub mod Failover
pub mod Stack
use mongod_proxy.Bytes
