-- ===== src/Message/Defs.antt =====
-- `Message`, its parsers and its writer; `WireEncoder` of src/encoder.rs.
use mongod_proxy.Ids.MessageLength.{as_usize}
use mongod_proxy.Bytes.Defs.{Bytes}
use mongod_proxy.Bytes.Writer.{convert_err, Writer}
use mongod_proxy.Ids.{ResponseTo, RequestId}
use mongod_proxy.Bson.{Bson}
use mongod_proxy.Operation
use mongod_proxy.Operation.Defs.{Operation, OperationParseError, OperationWriteError}
use mongod_proxy.Header.Defs
use mongod_proxy.Header.Defs.{MessageHeader, MessageHeaderParseError, size}
use mongod_proxy.Prelude.{
  drop, ltb, not, guard, map_err, length, Result, Option, ℕ, ok, ◌>>=◌, ◌>>◌,
}

pub record Message (Document : Type 0) : Type 0 where
  pub request_id : RequestId
  pub response_to : Option ResponseTo
  pub operation : Operation Document

-- `E` is the error of the `bson` crate.
pub data MessageAndHeaderParseError (E : Type 0) : Type 0 where
  not_enough_bytes : ℕ → ℕ → MessageAndHeaderParseError E
  failed_to_parse_operation : OperationParseError E → MessageAndHeaderParseError E

pub data MessageParseError (E : Type 0) : Type 0 where
  failed_to_parse_header : MessageHeaderParseError → MessageParseError E
  failed_to_parse_message_body : MessageAndHeaderParseError E → MessageParseError E

pub data MessageWriteError (E : Type 0) : Type 0 where
  failed_to_write_operation : OperationWriteError E → MessageWriteError E

-- The encoder's other error, an `io::Error`, is made by the codec library and not here.
pub data WireEncoderError (E : Type 0) : Type 0 where
  message_write_error : MessageWriteError E → WireEncoderError E

module _ (bson : Bson) where
  open bson use {Document, Error}

  -- `bytes` begins with the header that was already parsed. All that follows the header goes to the
  -- operation's parser, also what lies beyond the length that the header states.
  unfoldable pub from_headers_and_bytes :
      MessageHeader → Bytes → Result (MessageAndHeaderParseError Error) (Message Document)
  from_headers_and_bytes header bytes = do
    let actual_bytes = length bytes
    let expected_bytes = as_usize header.message_length
    guard (not (ltb actual_bytes expected_bytes)) (not_enough_bytes actual_bytes expected_bytes)
    operation ←
        map_err failed_to_parse_operation
          (Operation.Defs.from_bytes bson header.op_code (drop size bytes))
    ok (record {
      request_id = header.request_id;
      response_to = header.response_to;
      operation = operation;
    })

  unfoldable pub from_bytes : Bytes → Result (MessageParseError Error) (Message Document)
  unfolding from_headers_and_bytes
  from_bytes bytes = do
    header ← map_err failed_to_parse_header (Defs.from_bytes bytes)
    map_err failed_to_parse_message_body (from_headers_and_bytes header bytes)

  unfoldable pub write_bytes : Message Document → Writer (MessageWriteError Error) (Unit {0})
  write_bytes m =
      convert_err failed_to_write_operation
        (Operation.Defs.write_bytes bson m.operation m.request_id m.response_to)

  -- `WireEncoder::encode`.
  unfoldable pub encode : Message Document → Writer (WireEncoderError Error) (Unit {0})
  unfolding write_bytes
  encode m = convert_err message_write_error (write_bytes m)
