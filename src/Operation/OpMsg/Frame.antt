-- ===== src/Operation/OpMsg/Frame.antt =====
-- `OperationMessage::write_bytes`: the whole frame, header first.
use mongod_proxy.Operation.OpMsg.Flags.{bits}
use mongod_proxy.Header.Length.{checked_length}
use mongod_proxy.Ids.{ResponseTo, RequestId}
use mongod_proxy.Operation.OpMsg.Defs.{
  message_too_large, OperationMessageWriteError, OperationMessage,
}
use mongod_proxy.Bytes.Defs.{u32_to_le_bytes}
use mongod_proxy.Operation.OpMsg.Write.{derived_flags, write_sections}
use mongod_proxy.Bson.{Bson}
use mongod_proxy.Prelude.{length, ◌+◌, is_some, if◌then◌else◌, ℕ, Option, ok, [], none, some}
use mongod_proxy.Header.Defs
use mongod_proxy.OpCode
use mongod_proxy.Bytes.Writer.{Writer, lift, put, edit, ◌>>=◌, ◌>>◌}

-- `if let Some(checksum) = self.checksum { dst.put_u32_le(checksum) }`.
abbrev pub put_checksum {ℓ} : {E : Type ℓ} → Option ℕ → Writer E (Unit {0})
put_checksum none = lift (ok tt)
put_checksum (some checksum) = put (u32_to_le_bytes checksum)

module _ (bson : Bson) where
  open bson use {Document, Error}

  unfoldable pub write_bytes :
      OperationMessage Document
      → RequestId
      → Option ResponseTo
      → Writer (OperationMessageWriteError Error) (Unit {0})
  unfolding write_sections derived_flags
  write_bytes m request_id response_to = do
    sections_bytes ← lift (write_sections bson m.sections [])
    let flags = derived_flags m
    let checksum_len = if is_some m.checksum then 4 else 0
    let message_length = Defs.size + 4 + length sections_bytes + checksum_len
    header_length ← lift (checked_length message_too_large message_length)
    let header : Defs.MessageHeader = record {
      message_length = header_length;
      request_id = request_id;
      response_to = response_to;
      op_code = OpCode.msg;
    }
    edit (Defs.write_bytes header)
    put (u32_to_le_bytes (bits flags))
    put sections_bytes
    put_checksum m.checksum
