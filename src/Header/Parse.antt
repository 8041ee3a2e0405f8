-- ===== src/Header/Parse.antt =====
-- The parser of a header and then the writer, and what the fields say of the buffer.
use mongod_proxy.Header.RoundTrip.{or_zero-non_zero, non_zero-IsResponseTo}
use mongod_proxy.Ids.{or_zero, non_zero}
use mongod_proxy.Bytes.Words.{i32_to_le_bytes-i32_at, i32_at-IsI32}
use mongod_proxy.Bytes.Laws.{eq_bytes_iff}
use mongod_proxy.Ids.MessageLength.{try_new-IsMessageLength}
use mongod_proxy.Prelude.{
  length-drop, drop-append, true, err, ◌+◌, ltb, take-append, ℕ, ◌<◌, not, length-append,
  take-append-take-drop, append_assoc, pos, ◌++◌, drop, take, [], arith, ok, out_of_fuel, length,
  ◌≤◌, ◌≡◌, ◌≢◌,
}
use mongod_proxy.Bytes.Defs.{i32_to_le_bytes, i32_at, AreBytes, Bytes}
use mongod_proxy.Header.Defs.{MessageHeader, IsHeader, from_bytes, write_bytes, size, too_few_bytes}
use mongod_proxy.OpCode
use mongod_proxy.OpCode.{OpCode, msg, query, reply, OpCodeParseError}
use mongod_proxy.Ids.MessageLength

-- The fields of a header that was parsed from `bytes`.
pub record Parsed (bytes : Bytes) (h : MessageHeader) : Type 0 where
  pub long : 16 ≤ length bytes
  pub at_length : MessageLength.try_new (i32_at 0 bytes) ≡ ok h.message_length
  pub at_id : h.request_id ≡ i32_at 4 bytes
  pub at_response : h.response_to ≡ non_zero (i32_at 8 bytes)
  pub at_code : OpCode.from_le_bytes (take 4 (drop 12 bytes)) ≡ ok h.op_code

pub from_bytes-Parsed :
    (bytes : Bytes) {h : MessageHeader} → from_bytes bytes ≡ ok h → Parsed bytes h
unfolding from_bytes
from_bytes-Parsed bytes e = ground arith

pub from_bytes-ne-out_of_fuel : (bytes : Bytes) → from_bytes bytes ≢ out_of_fuel
unfolding from_bytes MessageLength.try_new OpCode.from_le_bytes
from_bytes-ne-out_of_fuel bytes e = ground arith

to_le_bytes-from_le_bytes :
    (bs : Bytes) {c : OpCode} → OpCode.from_le_bytes bs ≡ ok c → OpCode.to_le_bytes c ≡ bs
unfolding OpCode.from_le_bytes OpCode.to_le_bytes
to_le_bytes-from_le_bytes bs {c} h = ground (
  arith,
  eq_bytes_iff bs (i32_to_le_bytes (pos 1)),
  eq_bytes_iff bs (i32_to_le_bytes (pos 2004)),
  eq_bytes_iff bs (i32_to_le_bytes (pos 2013)),
)

-- A header that was parsed from bytes below 256 has a length between 16 bytes and 48 MiB, a
-- request id that is an `i32`, and as its response id nothing or an `i32` other than zero.
pub from_bytes-IsHeader :
    (bytes : Bytes) {h : MessageHeader} → AreBytes bytes → from_bytes bytes ≡ ok h → IsHeader h
from_bytes-IsHeader bytes {h} hb e =
    let p = from_bytes-Parsed bytes e in
    record {
      length_valid = (try_new-IsMessageLength _ p.at_length).1;
      id_valid = rw p.at_id (i32_at-IsI32 4 bytes (omega (arith, p.long)) hb);
      response_valid =
          rw p.at_response
            (non_zero-IsResponseTo _ (i32_at-IsI32 8 bytes (omega (arith, p.long)) hb));
    }

four_windows :
    (bs : Bytes)
    → take 4 bs ++ (take 4 (drop 4 bs) ++ (take 4 (drop 8 bs) ++ take 4 (drop 12 bs))) ≡ take 16 bs
four_windows bs =
    simp (← append_assoc) (
      rw
        (take-append-take-drop 4 4 bs, take-append-take-drop 8 4 bs, take-append-take-drop 12 4 bs))

-- A header that was parsed from bytes below 256 is written as the first sixteen of those bytes.
pub write_bytes-from_bytes :
    (bytes : Bytes) {h : MessageHeader}
    → AreBytes bytes
    → from_bytes bytes ≡ ok h
    → write_bytes h [] ≡ take 16 bytes
unfolding write_bytes
write_bytes-from_bytes bytes {h} hb e =
    let p = from_bytes-Parsed bytes e in
    let n : 16 ≤ length bytes = p.long in
    let length_field : i32_to_le_bytes h.message_length ≡ take 4 bytes =
      rw (try_new-IsMessageLength _ p.at_length).0
        (i32_to_le_bytes-i32_at 0 bytes (omega arith) hb) in
    let id_field : i32_to_le_bytes h.request_id ≡ take 4 (drop 4 bytes) =
      rw p.at_id (i32_to_le_bytes-i32_at 4 bytes (omega arith) hb) in
    let response_field : i32_to_le_bytes (or_zero h.response_to) ≡ take 4 (drop 8 bytes) =
      rw (p.at_response, or_zero-non_zero (i32_at 8 bytes))
        (i32_to_le_bytes-i32_at 8 bytes (omega arith) hb) in
    let code_field : OpCode.to_le_bytes h.op_code ≡ take 4 (drop 12 bytes) =
      to_le_bytes-from_le_bytes _ p.at_code in
    rw (length_field, id_field, response_field, code_field) (simp append_assoc (four_windows bytes))

window-append :
    (i : ℕ) (bs more : Bytes)
    → i + 4 ≤ length bs
    → take 4 (drop i (bs ++ more)) ≡ take 4 (drop i bs)
window-append i bs more h =
    rw (drop-append i bs more (omega arith))
      (take-append 4 (drop i bs) more (omega (arith, length-drop i bs)))

long_enough : (bs : Bytes) → 16 ≤ length bs → not (ltb (length bs) size) ≡ true
long_enough bs h = ground arith

-- The parser looks at the first sixteen bytes and at nothing behind them.
pub from_bytes-append :
    (bytes more : Bytes) → 16 ≤ length bytes → from_bytes (bytes ++ more) ≡ from_bytes bytes
unfolding from_bytes i32_at
from_bytes-append bytes more h = rw (
  long_enough bytes h,
  long_enough (bytes ++ more) (omega (arith, length-append bytes more)),
  take-append 4 bytes more (omega arith),
  window-append 4 bytes more (omega arith),
  window-append 8 bytes more (omega arith),
  window-append 12 bytes more (omega arith),
)

-- On a short buffer the parser says how long it is.
pub from_bytes_short :
    (bytes : Bytes) → length bytes < 16 → from_bytes bytes ≡ err (too_few_bytes (length bytes))
unfolding from_bytes
from_bytes_short bytes h = ground arith
