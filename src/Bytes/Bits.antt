-- ===== src/Bytes/Bits.antt =====
-- The bits of a `u32`, which the `bitflags` types name one by one. A flag set is a record of its
-- named bits; `bits`, `from_bits` and `from_bits_truncate` go between the record and the word.
use mongod_proxy.Prelude.{false, true, ◌==◌, ◌%◌, ◌*◌, arith, ◌/◌, ◌≡◌, ◌≤◌, ℕ, Bool}

-- Whether the bit that counts for `mask`, a power of two, is set in `n`.
abbrev pub has_bit : ℕ → ℕ → Bool
has_bit n mask = n / mask % 2 == 1

-- What a flag adds to the word.
abbrev pub bit_value : Bool → ℕ → ℕ
bit_value true mask = mask
bit_value false mask = 0

abbrev pub digit : Bool → ℕ
digit true = 1
digit false = 0

pub digit-le : (b : Bool) → digit b ≤ 1
digit-le true = omega arith
digit-le false = omega arith

pub bit_value-digit : (b : Bool) (mask : ℕ) → bit_value b mask ≡ digit b * mask
bit_value-digit true mask = omega arith
bit_value-digit false mask = omega arith

-- A bit is read by its digit.
pub has_bit-digit : (b : Bool) (n mask : ℕ) → n / mask % 2 ≡ digit b → has_bit n mask ≡ b
has_bit-digit true n mask h = rw h
has_bit-digit false n mask h = rw h

one_or_zero : (n : ℕ) → n ≤ 1 → digit (n == 1) ≡ n
one_or_zero n h = ground arith

pub digit-has_bit : (n mask : ℕ) → digit (has_bit n mask) ≡ n / mask % 2
digit-has_bit n mask = one_or_zero (n / mask % 2) (omega arith)
