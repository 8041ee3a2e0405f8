-- ===== src/Decoder/Defs.antt =====
-- `WireDecoder` and its `decode`, over the decoder's state and the buffer that it takes bytes from.
use mongod_proxy.Prelude.{map_err, ◌>>=◌}
use mongod_proxy.Bytes.Defs.{Bytes}
use mongod_proxy.Ids.MessageLength.{as_usize, MessageLengthError}
use mongod_proxy.Bson.{Bson}
use mongod_proxy.Prelude.{
  take, drop, length, ltb, if◌then◌else◌, Result, Option, out_of_fuel, err, ok, none, some,
}
use mongod_proxy.Message
use mongod_proxy.Message.Defs.{Message, MessageAndHeaderParseError}
use mongod_proxy.Header.Defs
use mongod_proxy.Header.Defs.{MessageHeader, MessageHeaderParseError}
use mongod_proxy.OpCode.{OpCodeParseError}

pub record WireDecoder : Type 0 where
  pub next_header : Option MessageHeader

-- `WireDecoder::default()`.
abbrev pub fresh : WireDecoder
fresh = record { next_header = none }

-- The decoder's other error, an `io::Error`, is made by the codec library and not here.
pub data WireDecoderError (E : Type 0) : Type 0 where
  invalid_opcode : OpCodeParseError → WireDecoderError E
  message_parse : MessageAndHeaderParseError E → WireDecoderError E
  invalid_message_length : MessageLengthError → WireDecoderError E

-- The `match` on the parsed header: too few bytes are no error here.
unfoldable pub accept_header :
    {E : Type 0}
    → Result MessageHeaderParseError MessageHeader
    → Result (WireDecoderError E) (Option MessageHeader)
accept_header (ok header) = ok (some header)
accept_header (err (MessageHeaderParseError.too_few_bytes n)) = ok none
accept_header (err (MessageHeaderParseError.invalid_op_code e)) = err (invalid_opcode e)
accept_header (err (MessageHeaderParseError.invalid_message_length e)) =
    err (invalid_message_length e)
accept_header out_of_fuel = out_of_fuel

-- The header is parsed only if none is kept from an earlier call.
unfoldable pub next_header :
    {E : Type 0} → Option MessageHeader → Bytes → Result (WireDecoderError E) (Option MessageHeader)
unfolding accept_header
next_header (some header) buf = ok (some header)
next_header none buf = accept_header (Defs.from_bytes buf)

module _ (bson : Bson) where
  open bson use {Document, Error}

  abbrev pub Outcome : Type 0
  Outcome = (WireDecoder × Bytes) × Result (WireDecoderError Error) (Option (Message Document))

  -- The frame is split off, and then parsed.
  unfoldable pub parse_frame :
      MessageHeader → Bytes → Result (WireDecoderError Error) (Option (Message Document))
  parse_frame header message_bytes = do
    m ← map_err message_parse (Message.Defs.from_headers_and_bytes bson header message_bytes)
    ok (some m)

  -- The second half: wait, or take the header and the frame.
  unfoldable pub take_frame : Option MessageHeader → Bytes → Outcome
  unfolding parse_frame
  take_frame none buf = ((record { next_header = none }, buf), ok none)
  take_frame (some header) buf =
      let frame_len = as_usize header.message_length in
      if ltb (length buf) frame_len
      then ((record { next_header = some header }, buf), ok none)
      else (
        (record { next_header = none }, drop frame_len buf),
        parse_frame header (take frame_len buf),
      )

  -- An error about the header leaves the decoder and the buffer as they were.
  unfoldable pub after_header :
      WireDecoder → Bytes → Result (WireDecoderError Error) (Option MessageHeader) → Outcome
  unfolding take_frame
  after_header d buf (ok header) = take_frame header buf
  after_header d buf (err e) = ((d, buf), err e)
  after_header d buf out_of_fuel = ((d, buf), out_of_fuel)

  unfoldable pub decode : WireDecoder → Bytes → Outcome
  unfolding next_header after_header
  decode d buf = after_header d buf (next_header d.next_header buf)
