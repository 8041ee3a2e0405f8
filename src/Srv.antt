-- ===== src/Srv.antt =====
-- src/srv.rs: the order in which the hosts of an SRV lookup are tried.
pub mod Random
pub mod Order
pub mod Permutation
pub mod Ordered
pub mod ZeroWeights
pub mod Resolve
pub mod Domains
pub mod Resolved
