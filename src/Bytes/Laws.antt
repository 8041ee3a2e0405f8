-- ===== src/Bytes/Laws.antt =====
-- What the integer encodings keep: lengths, ranges, and both directions of the round trip.
use native.Mathlib.Nat.{pow-suc}
use mongod_proxy.Prelude.{
  ℕ, zero, suc, ◌+◌, ◌*◌, ◌/◌, ◌%◌, ◌^◌, ◌<◌, ◌≡◌, refl, ap, [], ◌∷◌, length, ℤ, pos, negsuc, arith,
  ◌↔◌, true,
}
use mongod_proxy.Bytes.Defs.{
  eq_bytes, Bytes, AreBytes, IsSigned, le_bytes, from_le, to_pattern, from_pattern,
}

pub length-le_bytes : (k n : ℕ) → length (le_bytes k n) ≡ k
unfolding le_bytes
length-le_bytes zero n = refl
length-le_bytes (suc k) n = ap suc (length-le_bytes k (n / 256))

pub le_bytes-AreBytes : (k n : ℕ) → AreBytes (le_bytes k n)
unfolding le_bytes
le_bytes-AreBytes zero n = tt
le_bytes-AreBytes (suc k) n = (omega arith, le_bytes-AreBytes k (n / 256))

pub from_le-le_bytes : (k n : ℕ) → n < 256 ^ k → from_le (le_bytes k n) ≡ n
unfolding le_bytes from_le
from_le-le_bytes zero n h = omega arith
from_le-le_bytes (suc k) n h =
    omega (arith, pow-suc 256 k, from_le-le_bytes k (n / 256) (omega (arith, pow-suc 256 k)))

pub le_bytes-from_le : (bs : Bytes) → AreBytes bs → le_bytes (length bs) (from_le bs) ≡ bs
unfolding le_bytes from_le
le_bytes-from_le [] h = refl
le_bytes-from_le (b ∷ bs) (hb, hs) =
    let digit : (b + 256 * from_le bs) % 256 ≡ b = omega arith in
    let more : (b + 256 * from_le bs) / 256 ≡ from_le bs = omega arith in
    rw (digit, more) (ap (λ (t : Bytes). b ∷ t) (le_bytes-from_le bs hs))

pub from_le-lt : (bs : Bytes) → AreBytes bs → from_le bs < 256 ^ length bs
unfolding from_le
from_le-lt [] h = omega arith
from_le-lt (b ∷ bs) (hb, hs) = omega (arith, pow-suc 256 (length bs), from_le-lt bs hs)

pub from_pattern-to_pattern :
    (half : ℕ) (z : ℤ) → IsSigned half z → from_pattern half (to_pattern half z) ≡ z
unfolding from_pattern to_pattern
from_pattern-to_pattern half (pos n) h = ground arith
from_pattern-to_pattern half (negsuc n) h = ground arith

pub to_pattern-from_pattern :
    (half w : ℕ) → w < 2 * half → to_pattern half (from_pattern half w) ≡ w
unfolding from_pattern to_pattern
to_pattern-from_pattern half w h = ground arith

pub to_pattern-lt : (half : ℕ) (z : ℤ) → IsSigned half z → to_pattern half z < 2 * half
unfolding to_pattern
to_pattern-lt half (pos n) h = omega arith
to_pattern-lt half (negsuc n) h = omega arith

pub from_pattern-IsSigned : (half w : ℕ) → w < 2 * half → IsSigned half (from_pattern half w)
unfolding from_pattern
from_pattern-IsSigned half w h = ground arith

pub eq_bytes_iff : (bs cs : Bytes) → (eq_bytes bs cs ≡ true) ↔ (bs ≡ cs)
unfolding eq_bytes
eq_bytes_iff [] [] = (λ h. refl, λ h. refl)
eq_bytes_iff [] (c ∷ cs) = (λ h. cc, λ h. cc)
eq_bytes_iff (b ∷ bs) [] = (λ h. cc, λ h. cc)
eq_bytes_iff (b ∷ bs) (c ∷ cs) =
    (λ h. ground (arith, (eq_bytes_iff bs cs).0), λ h. ground (arith, (eq_bytes_iff bs cs).1))

pub eq_bytes_refl : (bs : Bytes) → eq_bytes bs bs ≡ true
eq_bytes_refl bs = (eq_bytes_iff bs bs).1 refl
