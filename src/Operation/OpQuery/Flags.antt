-- ===== src/Operation/OpQuery/Flags.antt =====
-- `OperationQueryFlags` of src/operation/op_query.rs, over the named bits of the word: 1 to 7.
use mongod_proxy.Bytes.Bits.{digit-le, bit_value-digit, has_bit, bit_value, has_bit-digit}
use mongod_proxy.Bytes.Defs.{IsU32}
use mongod_proxy.Prelude.{none, ◌==◌, if◌then◌else◌, ◌+◌, Option, some, ◌-◌, ℕ, arith, ◌≡◌, Bool}

pub record OperationQueryFlags : Type 0 where
  pub tailable_cursor : Bool
  pub slave_ok : Bool
  pub oplog_replay : Bool
  pub no_cursor_timeout : Bool
  pub await_data : Bool
  pub exhaust : Bool
  pub partial : Bool

unfoldable pub bits : OperationQueryFlags → ℕ
bits f =
    bit_value f.tailable_cursor 2
    + bit_value f.slave_ok 4
    + bit_value f.oplog_replay 8
    + bit_value f.no_cursor_timeout 16
    + bit_value f.await_data 32
    + bit_value f.exhaust 64
    + bit_value f.partial 128

unfoldable pub from_bits_truncate : ℕ → OperationQueryFlags
from_bits_truncate raw = record {
  tailable_cursor = has_bit raw 2;
  slave_ok = has_bit raw 4;
  oplog_replay = has_bit raw 8;
  no_cursor_timeout = has_bit raw 16;
  await_data = has_bit raw 32;
  exhaust = has_bit raw 64;
  partial = has_bit raw 128;
}

-- `from_bits`: nothing, if an unknown bit is set.
unfoldable pub from_bits : ℕ → Option OperationQueryFlags
from_bits raw = let known = from_bits_truncate raw in if bits known == raw then some known else none

-- `raw & !OperationQueryFlags::all().bits()`.
unfoldable pub unknown_bits : ℕ → ℕ
unknown_bits raw = raw - bits (from_bits_truncate raw)

ruleset digits = (arith, bit_value-digit, digit-le)

from_bits_truncate-bits : (f : OperationQueryFlags) → from_bits_truncate (bits f) ≡ f
unfolding from_bits_truncate bits
from_bits_truncate-bits f = λ i. record {
  tailable_cursor = has_bit-digit f.tailable_cursor (bits f) 2 (omega digits) i;
  slave_ok = has_bit-digit f.slave_ok (bits f) 4 (omega digits) i;
  oplog_replay = has_bit-digit f.oplog_replay (bits f) 8 (omega digits) i;
  no_cursor_timeout = has_bit-digit f.no_cursor_timeout (bits f) 16 (omega digits) i;
  await_data = has_bit-digit f.await_data (bits f) 32 (omega digits) i;
  exhaust = has_bit-digit f.exhaust (bits f) 64 (omega digits) i;
  partial = has_bit-digit f.partial (bits f) 128 (omega digits) i;
}

pub from_bits-bits : (f : OperationQueryFlags) → from_bits (bits f) ≡ some f
unfolding from_bits
from_bits-bits f = rw (from_bits_truncate-bits f) (ground arith)

-- What was accepted is written as the word that it came from.
pub bits-from_bits : (raw : ℕ) {f : OperationQueryFlags} → from_bits raw ≡ some f → bits f ≡ raw
unfolding from_bits
bits-from_bits raw h = ground arith

pub bits-IsU32 : (f : OperationQueryFlags) → IsU32 (bits f)
unfolding bits
bits-IsU32 f = omega digits
