-- ===== src/Operation/OpReply/Flags.antt =====
-- `OperationReplyFlags` of src/operation/op_reply.rs, over the named bits of the word: 0 to 3.
use mongod_proxy.Bytes.Bits.{digit-le, bit_value-digit, has_bit, bit_value, has_bit-digit}
use mongod_proxy.Bytes.Defs.{IsU32}
use mongod_proxy.Prelude.{none, ◌==◌, if◌then◌else◌, ◌+◌, Option, some, ◌-◌, ℕ, arith, ◌≡◌, Bool}

pub record OperationReplyFlags : Type 0 where
  pub cursor_not_found : Bool
  pub query_failure : Bool
  pub shard_config_stale : Bool
  pub await_capable : Bool

unfoldable pub bits : OperationReplyFlags → ℕ
bits f =
    bit_value f.cursor_not_found 1
    + bit_value f.query_failure 2
    + bit_value f.shard_config_stale 4
    + bit_value f.await_capable 8

unfoldable pub from_bits_truncate : ℕ → OperationReplyFlags
from_bits_truncate raw = record {
  cursor_not_found = has_bit raw 1;
  query_failure = has_bit raw 2;
  shard_config_stale = has_bit raw 4;
  await_capable = has_bit raw 8;
}

-- `from_bits`: nothing, if an unknown bit is set.
unfoldable pub from_bits : ℕ → Option OperationReplyFlags
from_bits raw = let known = from_bits_truncate raw in if bits known == raw then some known else none

-- `raw & !OperationReplyFlags::all().bits()`.
unfoldable pub unknown_bits : ℕ → ℕ
unknown_bits raw = raw - bits (from_bits_truncate raw)

ruleset digits = (arith, bit_value-digit, digit-le)

from_bits_truncate-bits : (f : OperationReplyFlags) → from_bits_truncate (bits f) ≡ f
unfolding from_bits_truncate bits
from_bits_truncate-bits f = λ i. record {
  cursor_not_found = has_bit-digit f.cursor_not_found (bits f) 1 (omega digits) i;
  query_failure = has_bit-digit f.query_failure (bits f) 2 (omega digits) i;
  shard_config_stale = has_bit-digit f.shard_config_stale (bits f) 4 (omega digits) i;
  await_capable = has_bit-digit f.await_capable (bits f) 8 (omega digits) i;
}

pub from_bits-bits : (f : OperationReplyFlags) → from_bits (bits f) ≡ some f
unfolding from_bits
from_bits-bits f = rw (from_bits_truncate-bits f) (ground arith)

-- What was accepted is written as the word that it came from.
pub bits-from_bits : (raw : ℕ) {f : OperationReplyFlags} → from_bits raw ≡ some f → bits f ≡ raw
unfolding from_bits
bits-from_bits raw h = ground arith

pub bits-IsU32 : (f : OperationReplyFlags) → IsU32 (bits f)
unfolding bits
bits-IsU32 f = omega digits
