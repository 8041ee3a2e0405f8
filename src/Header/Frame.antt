-- ===== src/Header/Frame.antt =====
-- A frame: a body behind the header that describes it. `commit` is the abstract view of the three
-- writers: a body that fits is appended as one frame, and nothing else ever reaches the buffer.
use mongod_proxy.Header.Length.{checked_length_too_large, checked_length_fits, checked_length}
use mongod_proxy.Ids.MessageLength.{MessageLength, max_len}
use mongod_proxy.Header.RoundTrip.{
  write_bytes-append, from_bytes-write_bytes_header, length-write_bytes,
}
use mongod_proxy.Bytes.Writer.{lift, ◌>>=◌, Writer}
use mongod_proxy.Bytes.Defs.{IsI32, Bytes}
use mongod_proxy.Ids.{IsResponseTo, ResponseTo, RequestId}
use mongod_proxy.Prelude.{
  leb→le, Bool-cases, inr, inl, ap, ◌∙◌, ◌≤◌, length-append, leb, append_assoc, arith, ◌+◌,
  drop_all, if◌then◌else◌, ◌≡◌, drop, length, ◌++◌, Result, Option, ℕ, out_of_fuel, err, ok, pos,
  [], refl,
}
use mongod_proxy.OpCode.{OpCode}
use mongod_proxy.Header.Defs.{MessageHeader, write_bytes, from_bytes}

abbrev pub frame_header : OpCode → RequestId → Option ResponseTo → Bytes → MessageHeader
frame_header code request_id response_to body = record {
  message_length = pos (16 + length body);
  request_id = request_id;
  response_to = response_to;
  op_code = code;
}

abbrev pub frame_bytes : OpCode → RequestId → Option ResponseTo → Bytes → Bytes
frame_bytes code request_id response_to body =
    write_bytes (frame_header code request_id response_to body) [] ++ body

unfoldable pub commit :
    {E : Type 0}
    → (ℕ → E)
    → OpCode
    → RequestId
    → Option ResponseTo
    → Result E Bytes
    → Writer E (Unit {0})
commit too_large code request_id response_to (ok body) dst =
    if leb (16 + length body) max_len
    then (ok tt, dst ++ frame_bytes code request_id response_to body)
    else (err (too_large (16 + length body)), dst)
commit too_large code request_id response_to (err e) dst = (err e, dst)
commit too_large code request_id response_to out_of_fuel dst = (out_of_fuel, dst)

pub length-frame_bytes :
    (code : OpCode) (id : RequestId) (r : Option ResponseTo) (body : Bytes)
    → length (frame_bytes code id r body) ≡ 16 + length body
length-frame_bytes code id r body =
    length-append (write_bytes (frame_header code id r body) []) body
    ∙ rw (length-write_bytes (frame_header code id r body))

pub drop-frame_bytes :
    (code : OpCode) (id : RequestId) (r : Option ResponseTo) (body rest : Bytes)
    → drop 16 (frame_bytes code id r body ++ rest) ≡ body ++ rest
drop-frame_bytes code id r body rest =
    drop_all _ (write_bytes (frame_header code id r body) []) (body ++ rest) 16
      (append_assoc (write_bytes (frame_header code id r body) []) body rest)
      (length-write_bytes (frame_header code id r body))

pub from_bytes-frame_bytes :
    (code : OpCode) (id : RequestId) (r : Option ResponseTo) (body rest : Bytes)
    → IsI32 id
    → IsResponseTo r
    → 16 + length body ≤ max_len
    → from_bytes (frame_bytes code id r body ++ rest) ≡ ok (frame_header code id r body)
from_bytes-frame_bytes code id r body rest hid hr fits =
    ap from_bytes (append_assoc (write_bytes (frame_header code id r body) []) body rest)
    ∙ from_bytes-write_bytes_header (frame_header code id r body) (body ++ rest)
        (record { length_valid = (omega arith, fits); id_valid = hid; response_valid = hr })

-- A commit that succeeds had a body, which fits, and appended its frame.
pub commit-eq-ok :
    {E : Type 0} (too_large : ℕ → E) (code : OpCode) (id : RequestId) (r : Option ResponseTo)
    (m : Result E Bytes) (dst : Bytes) {dst' : Bytes}
    → commit too_large code id r m dst ≡ (ok tt, dst')
    → (body : Bytes) × (m ≡ ok body)
      × (16 + length body ≤ max_len)
      × (dst' ≡ dst ++ frame_bytes code id r body)
unfolding commit
commit-eq-ok too_large code id r (ok body) dst h = (body, refl, ground arith, ground arith)
commit-eq-ok too_large code id r (err e) dst h = absurd (ground arith)
commit-eq-ok too_large code id r out_of_fuel dst h = absurd (ground arith)

-- Any other outcome leaves the buffer as it was.
pub commit_failed :
    {E : Type 0} (too_large : ℕ → E) (code : OpCode) (id : RequestId) (r : Option ResponseTo)
    (m : Result E Bytes) (dst : Bytes) {dst' : Bytes} {e : E}
    → commit too_large code id r m dst ≡ (err e, dst')
    → dst' ≡ dst
unfolding commit
commit_failed too_large code id r (ok body) dst h = ground arith
commit_failed too_large code id r (err e) dst h = ground arith
commit_failed too_large code id r out_of_fuel dst h = ground arith

-- The tail that the three writers share: the length check, and then writes that cannot fail.
pub checked_length-commit :
    {E : Type 0} (too_large : ℕ → E) (code : OpCode) (id : RequestId) (r : Option ResponseTo)
    (body dst : Bytes) (n : ℕ) (k : MessageLength → Writer E (Unit {0}))
    → n ≡ 16 + length body
    → k (pos (16 + length body)) dst ≡ (ok tt, dst ++ frame_bytes code id r body)
    → (lift (checked_length too_large n) >>= k) dst ≡ commit too_large code id r (ok body) dst
unfolding commit
checked_length-commit too_large code id r body dst n k e h =
    elim (Bool-cases (leb (16 + length body) max_len)) [
      | inl fits ↦
          rw
            (
              e,
              fits,
              checked_length_fits too_large (16 + length body) (omega arith) (leb→le _ _ fits),
            )
            h
      | inr long ↦
          rw (e, long, checked_length_too_large too_large (16 + length body) (ground arith))
    ]

-- The writes behind the check: the header, and then the pieces of the body.
pub write_bytes-frame_bytes :
    (code : OpCode) (id : RequestId) (r : Option ResponseTo) (body dst : Bytes)
    → write_bytes (frame_header code id r body) dst ++ body ≡ dst ++ frame_bytes code id r body
write_bytes-frame_bytes code id r body dst =
    ap (λ (t : Bytes). t ++ body) (write_bytes-append (frame_header code id r body) dst)
    ∙ append_assoc dst (write_bytes (frame_header code id r body) []) body
