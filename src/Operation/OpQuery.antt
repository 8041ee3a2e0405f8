-- ===== src/Operation/OpQuery.antt =====
-- src/operation/op_query.rs: the OP_QUERY body.
pub mod Flags
pub mod Defs
pub mod Frame
pub mod RoundTrip
pub mod Commit
