-- ===== src/Operation.antt =====
-- src/operation/: the bodies of the three kinds of message, and the sum of them.
pub mod OpMsg
pub mod OpQuery
pub mod OpReply
pub mod Defs
pub mod RoundTrip
