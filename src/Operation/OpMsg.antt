-- ===== src/Operation/OpMsg.antt =====
-- src/operation/op_msg.rs: the OP_MSG body.
pub mod Flags
pub mod Defs
pub mod Parse
pub mod Write
pub mod Frame
pub mod Documents
pub mod Sections
pub mod RoundTrip
pub mod Commit
