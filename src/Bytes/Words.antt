-- ===== src/Bytes/Words.antt =====
-- Reading an integer back from the front of a buffer, and writing back what was read.
use mongod_proxy.Prelude.{
  ℕ, ◌+◌, ◌^◌, ◌≤◌, ◌<◌, ◌≡◌, ap, ◌∙◌, subst, ◌++◌, length, take, drop, length-take, length-drop,
  All-take, All-drop, ℤ, arith,
}
use mongod_proxy.Bytes.Defs.{
  Bytes, IsByte, AreBytes, IsU32, IsI32, IsI64, le_bytes, from_le, from_pattern, u32_to_le_bytes,
  i32_to_le_bytes, i64_to_le_bytes, u32_at, i32_at, i64_at,
}
use mongod_proxy.Bytes.Laws.{
  from_le-le_bytes, le_bytes-from_le, from_le-lt, from_pattern-to_pattern, to_pattern-from_pattern,
  to_pattern-lt, from_pattern-IsSigned, length-le_bytes,
}

pub length-u32_to_le_bytes : (n : ℕ) → length (u32_to_le_bytes n) ≡ 4
unfolding u32_to_le_bytes
length-u32_to_le_bytes n = length-le_bytes 4 n

pub length-i32_to_le_bytes : (z : ℤ) → length (i32_to_le_bytes z) ≡ 4
unfolding i32_to_le_bytes
length-i32_to_le_bytes z = length-le_bytes 4 _

pub length-i64_to_le_bytes : (z : ℤ) → length (i64_to_le_bytes z) ≡ 8
unfolding i64_to_le_bytes
length-i64_to_le_bytes z = length-le_bytes 8 _

pub u32_at-u32_to_le_bytes :
    (n : ℕ) (rest : Bytes) → IsU32 n → u32_at 0 (u32_to_le_bytes n ++ rest) ≡ n
unfolding u32_at u32_to_le_bytes le_bytes
u32_at-u32_to_le_bytes n rest h = from_le-le_bytes 4 n h

pub i32_at-i32_to_le_bytes :
    (z : ℤ) (rest : Bytes) → IsI32 z → i32_at 0 (i32_to_le_bytes z ++ rest) ≡ z
unfolding i32_at i32_to_le_bytes le_bytes
i32_at-i32_to_le_bytes z rest h =
    ap (from_pattern (2 ^ 31)) (from_le-le_bytes 4 _ (to_pattern-lt (2 ^ 31) z h))
    ∙ from_pattern-to_pattern (2 ^ 31) z h

pub i64_at-i64_to_le_bytes :
    (z : ℤ) (rest : Bytes) → IsI64 z → i64_at 0 (i64_to_le_bytes z ++ rest) ≡ z
unfolding i64_at i64_to_le_bytes le_bytes
i64_at-i64_to_le_bytes z rest h =
    ap (from_pattern (2 ^ 63)) (from_le-le_bytes 8 _ (to_pattern-lt (2 ^ 63) z h))
    ∙ from_pattern-to_pattern (2 ^ 63) z h

-- The four bytes at `i`, where the buffer reaches that far.
window : Bytes → ℕ → Bytes
window bs i = take 4 (drop i bs)

length-window : (i : ℕ) (bs : Bytes) → i + 4 ≤ length bs → length (window bs i) ≡ 4
unfolding window
length-window i bs h = omega (arith, length-take 4 (drop i bs), length-drop i bs)

window-AreBytes : (i : ℕ) (bs : Bytes) → AreBytes bs → AreBytes (window bs i)
unfolding window
window-AreBytes i bs h = All-take IsByte 4 (drop i bs) (All-drop IsByte i bs h)

window_value :
    (i : ℕ) (bs : Bytes) → i + 4 ≤ length bs → AreBytes bs → from_le (window bs i) < 2 ^ 32
window_value i bs h hb =
    subst (λ k. from_le (window bs i) < 256 ^ k) (length-window i bs h)
      (from_le-lt (window bs i) (window-AreBytes i bs hb))

window_bytes :
    (i : ℕ) (bs : Bytes)
    → i + 4 ≤ length bs
    → AreBytes bs
    → le_bytes 4 (from_le (window bs i)) ≡ window bs i
window_bytes i bs h hb =
    subst (λ k. le_bytes k (from_le (window bs i)) ≡ window bs i) (length-window i bs h)
      (le_bytes-from_le (window bs i) (window-AreBytes i bs hb))

pub u32_to_le_bytes-u32_at :
    (i : ℕ) (bs : Bytes)
    → i + 4 ≤ length bs
    → AreBytes bs
    → u32_to_le_bytes (u32_at i bs) ≡ take 4 (drop i bs)
unfolding u32_at u32_to_le_bytes window
u32_to_le_bytes-u32_at i bs h hb = window_bytes i bs h hb

pub i32_to_le_bytes-i32_at :
    (i : ℕ) (bs : Bytes)
    → i + 4 ≤ length bs
    → AreBytes bs
    → i32_to_le_bytes (i32_at i bs) ≡ take 4 (drop i bs)
unfolding i32_at i32_to_le_bytes window
i32_to_le_bytes-i32_at i bs h hb =
    ap (le_bytes 4) (to_pattern-from_pattern (2 ^ 31) _ (window_value i bs h hb))
    ∙ window_bytes i bs h hb

pub i32_at-IsI32 : (i : ℕ) (bs : Bytes) → i + 4 ≤ length bs → AreBytes bs → IsI32 (i32_at i bs)
unfolding i32_at window
i32_at-IsI32 i bs h hb = from_pattern-IsSigned (2 ^ 31) _ (window_value i bs h hb)

pub u32_at-IsU32 : (i : ℕ) (bs : Bytes) → i + 4 ≤ length bs → AreBytes bs → IsU32 (u32_at i bs)
unfolding u32_at window
u32_at-IsU32 i bs h hb = window_value i bs h hb
