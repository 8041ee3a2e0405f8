-- ===== src/Operation/OpQuery/Frame.antt =====
-- `OperationQuery::write_bytes`: the whole frame, header first.
use mongod_proxy.Operation.OpQuery.Flags.{bits}
use mongod_proxy.Bytes.Defs.{i32_to_le_bytes, u32_to_le_bytes}
use mongod_proxy.Header.Length.{checked_length}
use mongod_proxy.Bytes.Text.{as_bytes_with_nul, cstring_new}
use mongod_proxy.Prelude.{length, ◌+◌, map_err, Option}
use mongod_proxy.Ids.{ResponseTo, RequestId}
use mongod_proxy.Operation.OpQuery.Defs.{
  message_too_large, collection_name_contains_null_byte, serialize_query_error,
  OperationQueryWriteError, OperationQuery, write_selector,
}
use mongod_proxy.Bson.{Bson}
use mongod_proxy.Header.Defs
use mongod_proxy.OpCode
use mongod_proxy.Bytes.Writer.{Writer, lift, put, edit, ◌>>=◌, ◌>>◌}

module _ (bson : Bson) where
  open bson use {Document, Error, serialize_to_vec}

  unfoldable pub write_bytes :
      OperationQuery Document
      → RequestId
      → Option ResponseTo
      → Writer (OperationQueryWriteError Error) (Unit {0})
  unfolding write_selector
  write_bytes q request_id response_to = do
    query_bytes ← lift (map_err serialize_query_error (serialize_to_vec q.query))
    return_fields_selector_bytes ← lift (write_selector bson q.return_fields_selector)
    full_collection_name ←
        lift (map_err collection_name_contains_null_byte (cstring_new q.full_collection_name))
    let full_collection_name_bytes = as_bytes_with_nul full_collection_name
    let message_length =
        Defs.size
        + 4
        + length full_collection_name_bytes
        + 4
        + 4
        + length query_bytes
        + length return_fields_selector_bytes
    header_length ← lift (checked_length message_too_large message_length)
    let header : Defs.MessageHeader = record {
      message_length = header_length;
      request_id = request_id;
      response_to = response_to;
      op_code = OpCode.query;
    }
    edit (Defs.write_bytes header)
    put (u32_to_le_bytes (bits q.flags))
    put full_collection_name_bytes
    put (i32_to_le_bytes q.number_to_skip)
    put (i32_to_le_bytes q.number_to_return)
    put query_bytes
    put return_fields_selector_bytes
