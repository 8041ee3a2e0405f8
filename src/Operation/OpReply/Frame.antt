-- ===== src/Operation/OpReply/Frame.antt =====
-- `OperationReply::write_bytes`: the whole frame, header first.
use mongod_proxy.Operation.OpReply.Flags.{bits}
use mongod_proxy.Bytes.Defs.{i32_to_le_bytes, i64_to_le_bytes, u32_to_le_bytes}
use mongod_proxy.Header.Length.{checked_length, i32_try_from}
use mongod_proxy.Ids.{ResponseTo, RequestId}
use mongod_proxy.Operation.OpReply.Defs.{
  message_too_large, min_len, too_many_documents, OperationReplyWriteError, OperationReply,
  write_documents,
}
use mongod_proxy.Bson.{Bson}
use mongod_proxy.Prelude.{◌+◌, length, ok_or, Option, []}
use mongod_proxy.Header.Defs
use mongod_proxy.OpCode
use mongod_proxy.Bytes.Writer.{Writer, lift, put, edit, ◌>>=◌, ◌>>◌}

module _ (bson : Bson) where
  open bson use {Document, Error}

  unfoldable pub write_bytes :
      OperationReply Document
      → RequestId
      → Option ResponseTo
      → Writer (OperationReplyWriteError Error) (Unit {0})
  unfolding write_documents
  write_bytes p request_id response_to = do
    number_returned ←
        lift (ok_or (i32_try_from (length p.documents)) (too_many_documents (length p.documents)))
    documents_bytes ← lift (write_documents bson p.documents [])
    let message_length = Defs.size + min_len + length documents_bytes
    header_length ← lift (checked_length message_too_large message_length)
    let header : Defs.MessageHeader = record {
      message_length = header_length;
      request_id = request_id;
      response_to = response_to;
      op_code = OpCode.reply;
    }
    edit (Defs.write_bytes header)
    put (u32_to_le_bytes (bits p.flags))
    put (i64_to_le_bytes p.cursor_id)
    put (i32_to_le_bytes p.starting_from)
    put (i32_to_le_bytes number_returned)
    put documents_bytes
