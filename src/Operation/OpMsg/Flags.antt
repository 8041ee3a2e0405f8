-- ===== src/Operation/OpMsg/Flags.antt =====
-- `OperationMessageFlags` of src/operation/op_msg.rs, over the named bits of the word.
-- `raw & REQUIRED_BITS_MASK` is `raw % 2 ^ 16`, and `low & !all().bits()` takes from `low` the known
-- bits that it has.
use mongod_proxy.Bytes.Bits.{
  digit-has_bit, digit-le, bit_value-digit, has_bit, bit_value, has_bit-digit,
}
use mongod_proxy.Bytes.Defs.{IsU32}
use mongod_proxy.Prelude.{◌-◌, ◌+◌, ◌<◌, ◌↔◌, ◌%◌, ℕ, arith, ◌≡◌, Bool}

pub record OperationMessageFlags : Type 0 where
  pub checksum_present : Bool
  pub more_to_come : Bool
  pub exhaust_allowed : Bool

unfoldable pub bits : OperationMessageFlags → ℕ
bits f =
    bit_value f.checksum_present 1
    + bit_value f.more_to_come 2
    + bit_value f.exhaust_allowed 0x10000

unfoldable pub from_bits_truncate : ℕ → OperationMessageFlags
from_bits_truncate raw = record {
  checksum_present = has_bit raw 1;
  more_to_come = has_bit raw 2;
  exhaust_allowed = has_bit raw 0x10000;
}

-- `(raw & REQUIRED_BITS_MASK) & !OperationMessageFlags::all().bits()`.
unfoldable pub unknown_required : ℕ → ℕ
unfolding bits from_bits_truncate
unknown_required raw = raw % 0x10000 - bits (from_bits_truncate (raw % 0x10000))

ruleset digits = (arith, bit_value-digit, digit-le)

pub from_bits_truncate-bits : (f : OperationMessageFlags) → from_bits_truncate (bits f) ≡ f
unfolding from_bits_truncate bits
from_bits_truncate-bits f = λ i. record {
  checksum_present = has_bit-digit f.checksum_present (bits f) 1 (omega digits) i;
  more_to_come = has_bit-digit f.more_to_come (bits f) 2 (omega digits) i;
  exhaust_allowed = has_bit-digit f.exhaust_allowed (bits f) 0x10000 (omega digits) i;
}

pub bits-IsU32 : (f : OperationMessageFlags) → IsU32 (bits f)
unfolding bits
bits-IsU32 f = omega digits

-- The required bits that the parser refuses in a flag word are none exactly when the low sixteen
-- bits of the word are below 4.
unknown_required-zero_iff : (raw : ℕ) → (unknown_required raw ≡ 0) ↔ (raw % 0x10000 < 4)
unfolding unknown_required bits from_bits_truncate
unknown_required-zero_iff raw =
    (λ h. omega (digits, digit-has_bit), λ h. omega (digits, digit-has_bit))

pub unknown_required-bits : (f : OperationMessageFlags) → unknown_required (bits f) ≡ 0
unknown_required-bits f = (unknown_required-zero_iff (bits f)).1 (unfold bits in omega digits)
