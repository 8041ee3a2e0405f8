-- ===== src/Operation/Defs.antt =====
-- `Operation` of src/operation/mod.rs: one of the three bodies, chosen by the opcode.
use mongod_proxy.Bytes.Writer.{convert_err, Writer}
use mongod_proxy.Ids.{ResponseTo, RequestId}
use mongod_proxy.Bytes.Text.{ascii}
use mongod_proxy.Bytes.Defs.{Bytes}
use mongod_proxy.Bson.{Bson}
use mongod_proxy.Prelude.{map_err, Result, Option, ok, none}
use mathlib.Core.List.{head?}
use mongod_proxy.Prelude.{◌>>=◌}
use mongod_proxy.OpCode.{OpCode}
use mongod_proxy.Operation.OpMsg
use mongod_proxy.Operation.OpQuery
use mongod_proxy.Operation.OpReply
use mongod_proxy.Operation.OpMsg.Defs.{
  OperationMessage, OperationMessageParseError, OperationMessageWriteError,
}
use mongod_proxy.Operation.OpQuery.Defs.{
  OperationQuery, OperationQueryParseError, OperationQueryWriteError,
}
use mongod_proxy.Operation.OpReply.Defs.{
  OperationReply, OperationReplyParseError, OperationReplyWriteError,
}

pub data Operation (Document : Type 0) : Type 0 where
  query : OperationQuery Document → Operation Document
  message : OperationMessage Document → Operation Document
  reply : OperationReply Document → Operation Document

-- `E` is the error of the `bson` crate.
pub data OperationParseError (E : Type 0) : Type 0 where
  failed_to_parse_message : OperationMessageParseError E → OperationParseError E
  failed_to_parse_query : OperationQueryParseError E → OperationParseError E
  failed_to_parse_reply : OperationReplyParseError E → OperationParseError E

pub data OperationWriteError (E : Type 0) : Type 0 where
  failed_to_write_operation_message : OperationMessageWriteError E → OperationWriteError E
  failed_to_write_operation_query : OperationQueryWriteError E → OperationWriteError E
  failed_to_write_operation_reply : OperationReplyWriteError E → OperationWriteError E

unfoldable pub op_kind : {Document : Type 0} → Operation Document → Bytes
op_kind (message m) = ascii "OP_MSG"
op_kind (query q) = ascii "OP_QUERY"
op_kind (reply p) = ascii "OP_REPLY"

module _ (bson : Bson) where
  open bson use {Document, Error}

  unfoldable pub command_name : Operation Document → Option Bytes
  command_name (message m) = OpMsg.Parse.command_name bson m
  command_name (query q) = head? (bson.keys q.query)
  command_name (reply p) = none

  unfoldable pub from_bytes :
      OpCode → Bytes → Result (OperationParseError Error) (Operation Document)
  from_bytes OpCode.msg bytes = do
    m ← map_err failed_to_parse_message (OpMsg.Parse.from_bytes bson bytes)
    ok (message m)
  from_bytes OpCode.query bytes = do
    q ← map_err failed_to_parse_query (OpQuery.Defs.from_bytes bson bytes)
    ok (query q)
  from_bytes OpCode.reply bytes = do
    p ← map_err failed_to_parse_reply (OpReply.Defs.from_bytes bson bytes)
    ok (reply p)

  unfoldable pub write_bytes :
      Operation Document
      → RequestId
      → Option ResponseTo
      → Writer (OperationWriteError Error) (Unit {0})
  write_bytes (message m) request_id response_to =
      convert_err failed_to_write_operation_message
        (OpMsg.Frame.write_bytes bson m request_id response_to)
  write_bytes (query q) request_id response_to =
      convert_err failed_to_write_operation_query
        (OpQuery.Frame.write_bytes bson q request_id response_to)
  write_bytes (reply p) request_id response_to =
      convert_err failed_to_write_operation_reply
        (OpReply.Frame.write_bytes bson p request_id response_to)
