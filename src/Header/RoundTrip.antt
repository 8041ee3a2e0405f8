-- ===== src/Header/RoundTrip.antt =====
-- The writer of a header and then the parser.
use mongod_proxy.Bytes.Words.{i32_at-i32_to_le_bytes, length-i32_to_le_bytes}
use mongod_proxy.Ids.MessageLength.{try_new-eq-ok, IsMessageLength, MessageLength}
use mongod_proxy.Ids.{non_zero, IsResponseTo, or_zero, ResponseTo}
use mongod_proxy.Bytes.Defs.{i32_at, le_bytes, i32_to_le_bytes, IsI32, Bytes}
use mongod_proxy.Header.Defs.{MessageHeader, IsHeader, from_bytes, write_bytes}
use mongod_proxy.Header.Defs.{size}
use mongod_proxy.OpCode
use mongod_proxy.OpCode.{from_le_bytes-to_le_bytes, OpCode, msg, query, reply}
use mongod_proxy.Prelude.{
  ltb, not, ◌≡◌, refl, ap, ◌∙◌, Option, none, some, [], ◌++◌, append_assoc, length, take, drop, ℤ,
  pos, negsuc, zero, suc, ok, arith, length-append, true,
}

pub write_bytes-append :
    (h : MessageHeader) (dst : Bytes) → write_bytes h dst ≡ dst ++ write_bytes h []
unfolding write_bytes
write_bytes-append h dst = simp append_assoc

length-to_le_bytes : (c : OpCode) → length (OpCode.to_le_bytes c) ≡ 4
unfolding OpCode.to_le_bytes
length-to_le_bytes msg = length-i32_to_le_bytes _
length-to_le_bytes query = length-i32_to_le_bytes _
length-to_le_bytes reply = length-i32_to_le_bytes _

-- Writing appends exactly sixteen bytes.
pub length-write_bytes : (h : MessageHeader) → length (write_bytes h []) ≡ 16
unfolding write_bytes
length-write_bytes h = omega (arith, length-append {0}, length-i32_to_le_bytes, length-to_le_bytes)

or_zero-IsI32 : (r : Option ResponseTo) → IsResponseTo r → IsI32 (or_zero r)
or_zero-IsI32 none h = omega arith
or_zero-IsI32 (some r) h = h.0

non_zero-or_zero : (r : Option ResponseTo) → IsResponseTo r → non_zero (or_zero r) ≡ r
non_zero-or_zero none h = refl
non_zero-or_zero (some (pos zero)) h = cc (h.1)
non_zero-or_zero (some (pos (suc n))) h = refl
non_zero-or_zero (some (negsuc n)) h = refl

pub or_zero-non_zero : (z : ℤ) → or_zero (non_zero z) ≡ z
or_zero-non_zero (pos zero) = refl
or_zero-non_zero (pos (suc n)) = refl
or_zero-non_zero (negsuc n) = refl

pub non_zero-IsResponseTo : (z : ℤ) → IsI32 z → IsResponseTo (non_zero z)
non_zero-IsResponseTo (pos zero) h = tt
non_zero-IsResponseTo (pos (suc n)) h = (h, refl)
non_zero-IsResponseTo (negsuc n) h = (h, refl)

IsMessageLength-IsI32 : (m : MessageLength) → IsMessageLength m → IsI32 m
IsMessageLength-IsI32 (pos n) h = omega arith
IsMessageLength-IsI32 (negsuc n) h = absurd h

-- The header in front of `rest`, as nested blocks of four bytes.
blocks :
    (h : MessageHeader) (rest : Bytes)
    → write_bytes h [] ++ rest
      ≡ i32_to_le_bytes h.message_length
        ++ (i32_to_le_bytes h.request_id
            ++ (i32_to_le_bytes (or_zero h.response_to) ++ (OpCode.to_le_bytes h.op_code ++ rest)))
unfolding write_bytes
blocks h rest = simp append_assoc

code_window :
    (c : OpCode) (rest : Bytes) → take 4 (OpCode.to_le_bytes c ++ rest) ≡ OpCode.to_le_bytes c
unfolding OpCode.to_le_bytes i32_to_le_bytes le_bytes
code_window msg rest = refl
code_window query rest = refl
code_window reply rest = refl

abbrev framed : ℤ → ℤ → ℤ → OpCode → Bytes → Bytes
framed m r s c rest =
    i32_to_le_bytes m
    ++ (i32_to_le_bytes r ++ (i32_to_le_bytes s ++ (OpCode.to_le_bytes c ++ rest)))

module _ (m r s : ℤ) (c : OpCode) (rest : Bytes) where
  framed_long : not (ltb (length (framed m r s c rest)) size) ≡ true
  unfolding i32_to_le_bytes le_bytes OpCode.to_le_bytes
  framed_long = elim c as (λ k. not (ltb (length (framed m r s k rest)) size) ≡ true) [
    | msg ↦ ground arith
    | query ↦ ground arith
    | reply ↦ ground arith
  ]

  framed_id : IsI32 r → i32_at 4 (framed m r s c rest) ≡ r
  unfolding i32_at i32_to_le_bytes le_bytes
  framed_id h = i32_at-i32_to_le_bytes r (i32_to_le_bytes s ++ (OpCode.to_le_bytes c ++ rest)) h

  framed_response : IsI32 s → i32_at 8 (framed m r s c rest) ≡ s
  unfolding i32_at i32_to_le_bytes le_bytes
  framed_response h = i32_at-i32_to_le_bytes s (OpCode.to_le_bytes c ++ rest) h

  framed_code : take 4 (drop 12 (framed m r s c rest)) ≡ OpCode.to_le_bytes c
  unfolding i32_to_le_bytes le_bytes
  framed_code = code_window c rest

  parse_framed :
      IsMessageLength m
      → IsI32 r
      → IsI32 s
      → from_bytes (framed m r s c rest)
        ≡ ok (record { message_length = m; request_id = r; response_to = non_zero s; op_code = c })
  unfolding from_bytes
  parse_framed hm hr hs = rw (
    framed_long,
    i32_at-i32_to_le_bytes m _ (IsMessageLength-IsI32 m hm),
    try_new-eq-ok m hm,
    framed_id hr,
    framed_response hs,
    framed_code,
    from_le_bytes-to_le_bytes c,
  )

-- A header whose fields are in range, written into an empty buffer, parses back to itself,
-- whatever bytes follow it.
pub from_bytes-write_bytes_header :
    (h : MessageHeader) (rest : Bytes) → IsHeader h → from_bytes (write_bytes h [] ++ rest) ≡ ok h
from_bytes-write_bytes_header h rest v =
    ap from_bytes (blocks h rest)
    ∙ parse_framed h.message_length h.request_id (or_zero h.response_to) h.op_code rest
        v.length_valid v.id_valid (or_zero-IsI32 h.response_to v.response_valid)
    ∙ rw (non_zero-or_zero h.response_to v.response_valid)
