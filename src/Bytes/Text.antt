-- ===== src/Bytes/Text.antt =====
-- Rust's `str` and C strings, as the standard library defines them. A `String` is the list of its
-- UTF-8 bytes. `Utf8Error` and `FromBytesUntilNulError` keep no payload here.
use Prim.Native.Char.{code}
use Prim.Native.String.{String}
use mathlib.Core.Option
use mongod_proxy.Prelude.{
  ℕ, zero, suc, ◌+◌, ◌≡◌, refl, Bool, true, false, ◌&&◌, [], ◌∷◌, ◌++◌, Option, none, some, leb,
  ◌==◌, if◌then◌else◌, Result, ok, err, arith,
}
use mongod_proxy.Bytes.Defs.{Bytes}

-- What a first byte announces: the continuation bytes to come, and the range of the next one.
unfoldable pub lead : ℕ → Option (ℕ × ℕ × ℕ)
lead b =
    if leb b 0x7F
    then some (0, 0, 0)
    else if leb 0xC2 b && leb b 0xDF
    then some (1, 0x80, 0xBF)
    else if b == 0xE0
    then some (2, 0xA0, 0xBF)
    else if b == 0xED
    then some (2, 0x80, 0x9F)
    else if leb 0xE1 b && leb b 0xEF
    then some (2, 0x80, 0xBF)
    else if b == 0xF0
    then some (3, 0x90, 0xBF)
    else if leb 0xF1 b && leb b 0xF3
    then some (3, 0x80, 0xBF)
    else if b == 0xF4
    then some (3, 0x80, 0x8F)
    else none

-- The scan of `str::from_utf8`: `need` continuation bytes are due, the next one within `lo` to `hi`.
unfoldable pub utf8_from : ℕ → ℕ → ℕ → Bytes → Bool
utf8_from zero lo hi [] = true
utf8_from (suc need) lo hi [] = false
utf8_from zero lo hi (b ∷ bs) = elim (lead b) [
  | none ↦ false
  | some (need, lo', hi') ↦ utf8_from need lo' hi' bs
]
utf8_from (suc need) lo hi (b ∷ bs) = leb lo b && leb b hi && utf8_from need 0x80 0xBF bs

-- `str::from_utf8(bs).is_ok()`.
unfoldable pub is_utf8 : Bytes → Bool
unfolding lead utf8_from
is_utf8 bs = utf8_from 0 0 0 bs

-- `CStr::from_bytes_until_nul`: the bytes before the first NUL.
unfoldable pub until_nul : Bytes → Option Bytes
until_nul [] = none
until_nul (b ∷ bs) = if b == 0 then some [] else Option.map (λ (s : Bytes). b ∷ s) (until_nul bs)

-- The position of the first NUL, counted from `i`.
unfoldable pub nul_position : ℕ → Bytes → Option ℕ
nul_position i [] = none
nul_position i (b ∷ bs) = if b == 0 then some i else nul_position (i + 1) bs

-- `std::ffi::NulError`: where the interior NUL stands, and the text.
pub data NulError : Type 0 where
  nul_error : ℕ → Bytes → NulError

cstring_from : Bytes → Option ℕ → Result NulError Bytes
cstring_from s none = ok s
cstring_from s (some i) = err (nul_error i s)

-- `CString::new`; `as_bytes_with_nul` adds the terminator.
unfoldable pub cstring_new : Bytes → Result NulError Bytes
unfolding nul_position cstring_from
cstring_new s = cstring_from s (nul_position 0 s)

abbrev pub as_bytes_with_nul : Bytes → Bytes
as_bytes_with_nul s = s ++ (0 ∷ [])

until_nul-nul_position :
    (i : ℕ) (s rest : Bytes) → nul_position i s ≡ none → until_nul (s ++ (0 ∷ rest)) ≡ some s
unfolding nul_position until_nul
until_nul-nul_position i [] rest h = refl
until_nul-nul_position i (b ∷ s) rest h = ground (arith, until_nul-nul_position (i + 1) s rest)

cstring_from-eq-ok :
    (s : Bytes) (o : Option ℕ) {c : Bytes} → cstring_from s o ≡ ok c → (c ≡ s) × (o ≡ none)
unfolding cstring_from
cstring_from-eq-ok s none h = (cc, refl)
cstring_from-eq-ok s (some i) h = cc

-- A text that `CString::new` accepts is read back from in front of its terminator.
pub cstring_new-eq-ok : (s : Bytes) {c : Bytes} → cstring_new s ≡ ok c → c ≡ s
unfolding cstring_new
cstring_new-eq-ok s h = (cstring_from-eq-ok s _ h).0

pub until_nul-cstring_new :
    (s rest : Bytes) {c : Bytes} → cstring_new s ≡ ok c → until_nul (s ++ (0 ∷ rest)) ≡ some s
unfolding cstring_new
until_nul-cstring_new s rest h = until_nul-nul_position 0 s rest (cstring_from-eq-ok s _ h).1

-- The bytes of an ASCII literal.
abbrev pub ascii : String → Bytes
ascii String.[] = []
ascii (String.◌∷◌ c s) = code c ∷ ascii s
