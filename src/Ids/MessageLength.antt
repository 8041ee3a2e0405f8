-- ===== src/Ids/MessageLength.antt =====
-- `MessageLength` of src/ids.rs: the total length of a frame, between 16 bytes and 48 MiB.
use mongod_proxy.Prelude.{
  ℕ, ◌*◌, ◌≤◌, ◌≡◌, ℤ, pos, negsuc, leb_ℤ, ◌&&◌, if◌then◌else◌, Result, ok, err, arith,
}

pub data MessageLengthError : Type 0 where
  predicate_violated : MessageLengthError

abbrev pub MessageLength : Type 0
MessageLength = ℤ

abbrev pub max_len : ℕ
max_len = 48 * 1024 * 1024

-- What the validation promises of the inner value.
abbrev pub IsMessageLength : MessageLength → Type 0
IsMessageLength (pos n) = (16 ≤ n) × (n ≤ max_len)
IsMessageLength (negsuc n) = ⊥

unfoldable pub try_new : ℤ → Result MessageLengthError MessageLength
try_new n = if leb_ℤ (pos 16) n && leb_ℤ n (pos max_len) then ok n else err predicate_violated

-- `usize::try_from(..).unwrap_or(0)`.
unfoldable pub as_usize : MessageLength → ℕ
as_usize (pos n) = n
as_usize (negsuc n) = 0

pub try_new-IsMessageLength :
    (z : ℤ) {m : MessageLength} → try_new z ≡ ok m → (m ≡ z) × IsMessageLength m
unfolding try_new
try_new-IsMessageLength (pos n) h = ground arith
try_new-IsMessageLength (negsuc n) h = ground arith

pub try_new-eq-ok : (z : ℤ) → IsMessageLength z → try_new z ≡ ok z
unfolding try_new
try_new-eq-ok (pos n) h = ground arith
try_new-eq-ok (negsuc n) h = absurd h
