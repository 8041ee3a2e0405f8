-- ===== src/Operation/OpReply.antt =====
-- src/operation/op_reply.rs: the OP_REPLY body.
pub mod Flags
pub mod Defs
pub mod Frame
pub mod RoundTrip
pub mod Commit
