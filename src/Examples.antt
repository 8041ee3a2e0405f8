-- ===== src/Examples.antt =====
-- Tests: the theorems at concrete inputs, over a small document format.
pub mod Bounded
pub mod Codec
pub mod Wire
pub mod Streams
pub mod Startup
pub mod Fields
pub mod Serving
pub mod Inspector
pub mod Explained
pub mod Stacked
pub mod Listening
pub mod Logged
pub mod Probing
