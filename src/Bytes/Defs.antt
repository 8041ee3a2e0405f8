-- ===== src/Bytes/Defs.antt =====
-- Byte strings and the integers of the wire, as the Rust standard library encodes them:
-- `u32`, `i32` and `i64` in little-endian order. A byte is a number below 256, and a `u32` a number
-- below 2 ^ 32; an `i32` is an integer, encoded by its two's complement.
use mongod_proxy.Prelude.{
  ◌||◌, ◌&&◌, ◌==◌, false, true, Bool, ℕ, zero, suc, ◌+◌, ◌-◌, ◌*◌, ◌/◌, ◌%◌, ◌^◌, ◌<◌, List, [],
  ◌∷◌, All, take, drop, ltb, if◌then◌else◌, ℤ, pos, negsuc,
}

abbrev pub Bytes : Type 0
Bytes = List ℕ

abbrev pub IsByte : ℕ → Type 0
IsByte b = b < 256

abbrev pub AreBytes : Bytes → Type 0
AreBytes bs = All IsByte bs

abbrev pub IsU32 : ℕ → Type 0
IsU32 n = n < 2 ^ 32

-- The range of an `iN` whose sign bit counts for `half`: -half ≤ z < half.
abbrev pub IsSigned : ℕ → ℤ → Type 0
IsSigned half (pos n) = n < half
IsSigned half (negsuc n) = n < half

abbrev pub IsI32 : ℤ → Type 0
IsI32 = IsSigned (2 ^ 31)

abbrev pub IsI64 : ℤ → Type 0
IsI64 = IsSigned (2 ^ 63)

-- The lowest `k` bytes of `n`, lowest first, and the number that such a list stands for.
unfoldable pub le_bytes : ℕ → ℕ → Bytes
le_bytes zero n = []
le_bytes (suc k) n = n % 256 ∷ le_bytes k (n / 256)

unfoldable pub from_le : Bytes → ℕ
from_le [] = 0
from_le (b ∷ bs) = b + 256 * from_le bs

-- Two's complement, at the weight of the sign bit.
unfoldable pub to_pattern : ℕ → ℤ → ℕ
to_pattern half (pos n) = n
to_pattern half (negsuc n) = 2 * half - n - 1

unfoldable pub from_pattern : ℕ → ℕ → ℤ
from_pattern half w = if ltb w half then pos w else negsuc (2 * half - w - 1)

-- `u32::to_le_bytes`, `i32::to_le_bytes`, `i64::to_le_bytes`.
unfoldable pub u32_to_le_bytes : ℕ → Bytes
u32_to_le_bytes n = le_bytes 4 n

unfoldable pub i32_to_le_bytes : ℤ → Bytes
i32_to_le_bytes z = le_bytes 4 (to_pattern (2 ^ 31) z)

unfoldable pub i64_to_le_bytes : ℤ → Bytes
i64_to_le_bytes z = le_bytes 8 (to_pattern (2 ^ 63) z)

-- `u32::from_le_bytes` and its like, on the bytes `bs[i..i + 4]` or `bs[i..i + 8]` of a buffer that
-- is long enough.
unfoldable pub u32_at : ℕ → Bytes → ℕ
u32_at i bs = from_le (take 4 (drop i bs))

unfoldable pub i32_at : ℕ → Bytes → ℤ
i32_at i bs = from_pattern (2 ^ 31) (from_le (take 4 (drop i bs)))

unfoldable pub i64_at : ℕ → Bytes → ℤ
i64_at i bs = from_pattern (2 ^ 63) (from_le (take 8 (drop i bs)))

-- `==` of two byte strings.
unfoldable pub eq_bytes : Bytes → Bytes → Bool
eq_bytes [] [] = true
eq_bytes [] (c ∷ cs) = false
eq_bytes (b ∷ bs) [] = false
eq_bytes (b ∷ bs) (c ∷ cs) = b == c && eq_bytes bs cs

-- A `match` or `matches!` on a text against several literals.
unfoldable pub one_of : Bytes → List Bytes → Bool
unfolding eq_bytes
one_of s [] = false
one_of s (t ∷ ts) = eq_bytes s t || one_of s ts
