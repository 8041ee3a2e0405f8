-- ===== src/Hello.antt =====
-- src/serve/rewrite_hello.rs: the layer that hides the replica set from a driver.
pub mod Defs
pub mod Stripped
use mongod_proxy.Bson
