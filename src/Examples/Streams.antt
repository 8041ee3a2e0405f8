-- ===== src/Examples/Streams.antt =====
-- Whole messages, and streams of them that arrive in chunks.
use mongod_proxy.Ids.MessageLength.{max_len}
use mongod_proxy.Bytes.Defs.{Bytes}
use mongod_proxy.Message
use mongod_proxy.Message.Defs.{Message}
use mongod_proxy.Message.RoundTrip.{IsMessage, Wrote}
use mongod_proxy.Operation
use mongod_proxy.Operation.OpMsg
use mongod_proxy.Header.Frame.{commit}
use mongod_proxy.Decoder.Defs.{fresh, decode}
use mongod_proxy.Decoder.Steps.{IsSynced, Waits, Takes}
use mongod_proxy.Decoder.Stream
use mongod_proxy.Decoder.Steps
use mongod_proxy.Decoder.Stream.{Sent, stream, received}
use mongod_proxy.Examples.Codec.{six_bson, six_bson-IsBson}
use mongod_proxy.Examples.Wire.{ping, ping_sections, ping-encoded, ping-valid}
use mongod_proxy.Prelude.{
  ◌≤◌, length, ◌+◌, map_err, ◌++◌, arith, ℕ, ◌≡◌, ◌∷◌, ok, pos, [], none, some, refl,
}

abbrev pub pinged : Message ℕ
pinged = record {
  request_id = pos 9;
  response_to = some (pos 3);
  operation = Operation.Defs.message ping;
}

abbrev pub pinged_body : Bytes
pinged_body = OpMsg.RoundTrip.body_bytes ping ping_sections

pub pinged-valid : IsMessage pinged
pinged-valid = record {
  id_valid = omega arith;
  response_valid = (omega arith, refl);
  operation_valid = ping-valid;
}

pinged_fits : 16 + length pinged_body ≤ max_len
unfolding mongod_proxy.Bytes.Defs.u32_to_le_bytes mongod_proxy.Bytes.Defs.le_bytes
pinged_fits = omega arith

pub pinged-Wrote : Wrote six_bson pinged pinged_body
pinged-Wrote = record { encodes = ping-encoded; fits = pinged_fits }

pinged_frame :
    Message.Defs.write_bytes six_bson pinged []
    ≡ (ok tt, Message.RoundTrip.frame_of pinged pinged_body)
pinged_frame = Message.RoundTrip.write_bytes_fits six_bson pinged pinged_body [] pinged-Wrote

from_bytes-write_bytes_example :
    Message.Defs.from_bytes six_bson (Message.RoundTrip.frame_of pinged pinged_body)
    ≡ ok (Message.RoundTrip.normalised pinged)
from_bytes-write_bytes_example =
    Message.RoundTrip.from_bytes-write_bytes six_bson six_bson-IsBson pinged pinged-valid
      (omega arith) pinged_frame

write_bytes-commit_example :
    Message.Defs.write_bytes six_bson pinged (1 ∷ [])
    ≡ commit
        (λ n.
          Message.Defs.failed_to_write_operation
            (Operation.RoundTrip.too_large six_bson pinged.operation n))
        (Operation.RoundTrip.op_code_of pinged.operation)
        (pos 9)
        (some (pos 3))
        (map_err Message.Defs.failed_to_write_operation
          (Operation.RoundTrip.encoded six_bson pinged.operation))
        (1 ∷ [])
write_bytes-commit_example = Message.RoundTrip.write_bytes-commit six_bson pinged (1 ∷ [])

abbrev frame : Bytes
frame = Message.RoundTrip.frame_of pinged pinged_body

decode-Takes_example :
    Takes six_bson (frame ++ (7 ∷ [])) (Message.RoundTrip.normalised pinged) fresh (7 ∷ [])
decode-Takes_example =
    Steps.decode-Takes six_bson fresh (frame ++ (7 ∷ [])) (Steps.fresh-IsSynced (frame ++ (7 ∷ [])))
      (Stream.decode-frame_of six_bson six_bson-IsBson pinged (7 ∷ []) pinged-valid (omega arith)
        pinged-Wrote)

short_waits : decode six_bson fresh (16 ∷ 0 ∷ []) ≡ ((fresh, 16 ∷ 0 ∷ []), ok none)
unfolding decode mongod_proxy.Header.Defs.from_bytes
short_waits = refl

decode-Waits_example : Waits six_bson (16 ∷ 0 ∷ []) fresh (16 ∷ 0 ∷ [])
decode-Waits_example =
    Steps.decode-Waits six_bson fresh (16 ∷ 0 ∷ []) (Steps.fresh-IsSynced (16 ∷ 0 ∷ [])) short_waits

abbrev pub sent : Sent six_bson six_bson-IsBson
sent = record {
  message = pinged;
  body = pinged_body;
  typed = pinged-valid;
  content = omega arith;
  wrote = pinged-Wrote;
}

Drains-stream_example :
    Stream.Drains six_bson fresh
      (frame ++ (frame ++ []))
      (Message.RoundTrip.normalised pinged ∷ Message.RoundTrip.normalised pinged ∷ [])
      fresh
      []
Drains-stream_example = Stream.Drains-stream six_bson six_bson-IsBson (sent ∷ sent ∷ [])

short-Drains : Stream.Drains six_bson fresh [] [] fresh []
short-Drains = Stream.Drains-stream six_bson six_bson-IsBson []

one-Drains :
    Stream.Drains six_bson fresh (frame ++ []) (Message.RoundTrip.normalised pinged ∷ []) fresh []
one-Drains = Stream.Drains-stream six_bson six_bson-IsBson (sent ∷ [])

Drains-append_example :
    Stream.Drains six_bson fresh
      ((frame ++ []) ++ (frame ++ []))
      (Message.RoundTrip.normalised pinged ∷ Message.RoundTrip.normalised pinged ∷ [])
      fresh
      []
Drains-append_example =
    Stream.Drains-append six_bson (Message.RoundTrip.normalised pinged ∷ [])
      (Message.RoundTrip.normalised pinged ∷ []) fresh fresh fresh (frame ++ []) (frame ++ []) [] []
      (Steps.fresh-IsSynced (frame ++ [])) one-Drains one-Drains
