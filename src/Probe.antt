-- ===== src/Probe.antt =====
-- src/serve/probe.rs: which of the hosts is the primary.
pub mod Defs
pub mod Race
pub mod Hello
pub mod Says
pub mod Answered
