-- ===== src/Header/Defs.antt =====
-- `MessageHeader`, its parser and its writer.
use mongod_proxy.Prelude.{
  ℕ, Option, ltb, not, length, take, drop, ◌++◌, Result, ok, map_err, guard, ◌>>=◌, ◌>>◌,
}
use mongod_proxy.Bytes.Defs.{Bytes, i32_to_le_bytes, i32_at}
use mongod_proxy.Ids.{RequestId, ResponseTo, IsResponseTo, non_zero, or_zero}
use mongod_proxy.Ids.MessageLength
use mongod_proxy.Ids.MessageLength.{MessageLength, MessageLengthError, IsMessageLength}
use mongod_proxy.Bytes.Defs.{IsI32}
use mongod_proxy.OpCode
use mongod_proxy.OpCode.{OpCode, OpCodeParseError}

pub record MessageHeader : Type 0 where
  pub message_length : MessageLength
  pub request_id : RequestId
  pub response_to : Option ResponseTo
  pub op_code : OpCode

pub data MessageHeaderParseError : Type 0 where
  too_few_bytes : ℕ → MessageHeaderParseError
  invalid_op_code : OpCodeParseError → MessageHeaderParseError
  invalid_message_length : MessageLengthError → MessageHeaderParseError

-- What the types of the fields promise.
pub record IsHeader (h : MessageHeader) : Type 0 where
  pub length_valid : IsMessageLength h.message_length
  pub id_valid : IsI32 h.request_id
  pub response_valid : IsResponseTo h.response_to

abbrev pub size : ℕ
size = 16

unfoldable pub from_bytes : Bytes → Result MessageHeaderParseError MessageHeader
from_bytes bytes = do
  guard (not (ltb (length bytes) size)) (too_few_bytes (length bytes))
  message_length ← map_err invalid_message_length (MessageLength.try_new (i32_at 0 bytes))
  let request_id = i32_at 4 bytes
  let response_to = non_zero (i32_at 8 bytes)
  op_code ← map_err invalid_op_code (OpCode.from_le_bytes (take 4 (drop 12 bytes)))
  ok (record {
    message_length = message_length;
    request_id = request_id;
    response_to = response_to;
    op_code = op_code;
  })

-- The buffer `dst` with the header behind what it held.
unfoldable pub write_bytes : MessageHeader → Bytes → Bytes
write_bytes h dst =
    let message_length_bytes = i32_to_le_bytes h.message_length in
    let request_id_bytes = i32_to_le_bytes h.request_id in
    let response_to_bytes = i32_to_le_bytes (or_zero h.response_to) in
    let op_code_bytes = OpCode.to_le_bytes h.op_code in
    (((dst ++ message_length_bytes) ++ request_id_bytes) ++ response_to_bytes) ++ op_code_bytes
