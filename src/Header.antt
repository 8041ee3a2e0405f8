-- ===== src/Header.antt =====
-- src/header.rs: the sixteen bytes in front of every frame.
pub mod Defs
pub mod Length
pub mod RoundTrip
pub mod Parse
pub mod Frame
