-- ===== src/Operation/OpReply/Commit.antt =====
-- The writer of an OP_REPLY frame beside `commit`.
use mongod_proxy.Operation.OpReply.RoundTrip.{length-body_bytes, body_bytes}
use mongod_proxy.Header.Frame.{write_bytes-frame_bytes, checked_length-commit, commit}
use mongod_proxy.Bytes.Defs.{Bytes}
use mongod_proxy.Ids.{ResponseTo, RequestId}
use mongod_proxy.Operation.OpReply.Defs.{
  write_documents, message_too_large, too_many_documents, OperationReplyWriteError, OperationReply,
}
use mongod_proxy.Header.Length.{i32_try_from}
use mongod_proxy.Bson.{Bson}
use mongod_proxy.OpCode
use mongod_proxy.Operation.OpReply.Frame.{write_bytes}
use mongod_proxy.Prelude.{
  ℤ, append_assoc, ap, arith, ltb→lt, Result-cases, ltb, Bool-cases, ◌⊎◌, ◌≡◌, length, ok_or, ◌^◌,
  Option, Result, ◌<◌, ℕ, err, ok, pos, inr, inl, [], refl, ◌>>=◌,
}

-- The conversion of the count succeeds exactly below 2 ^ 31.
pub count_cases :
    {E : Type 0} (n : ℕ) (e : E)
    → ((n < 2 ^ 31) × (ok_or (i32_try_from n) e ≡ ok (pos n))) ⊎ (ok_or (i32_try_from n) e ≡ err e)
unfolding i32_try_from
count_cases n e = elim (Bool-cases (ltb n (2 ^ 31))) [
  | inl few ↦ inl (ltb→lt _ _ few, rw few)
  | inr many ↦ inr (rw many)
]

pub count_fits : {E : Type 0} (n : ℕ) (e : E) {z : ℤ} → ok_or (i32_try_from n) e ≡ ok z → n < 2 ^ 31
unfolding i32_try_from
count_fits n e h = ground arith

module _ (bson : Bson) where
  open bson use {Document, Error}

  -- The body that the writer would put behind the header.
  abbrev pub encoded : OperationReply Document → Result (OperationReplyWriteError Error) Bytes
  encoded p = do
    number_returned ←
        ok_or (i32_try_from (length p.documents)) (too_many_documents (length p.documents))
    documents ← write_documents bson p.documents []
    ok (body_bytes p documents)

  -- Writing an OP_REPLY appends one whole frame behind what the buffer held; too many documents,
  -- a document that cannot be encoded or a frame above the length limit gives the error and
  -- leaves the buffer as it was.
  pub write_bytes-commit_reply :
      (p : OperationReply Document) (id : RequestId) (r : Option ResponseTo) (dst : Bytes)
      → write_bytes bson p id r dst ≡ commit message_too_large OpCode.reply id r (encoded p) dst
  unfolding write_bytes
  write_bytes-commit_reply p id r dst =
      elim (count_cases {E = OperationReplyWriteError Error} (length p.documents)
        (too_many_documents (length p.documents))) [
          | inr many ↦ rw many (unfold commit in refl)
          | inl (few, fine) ↦ rw fine (elim (Result-cases (write_documents bson p.documents [])) [
            | inr (inl (x, e)) ↦ rw e (unfold commit in refl)
            | inr (inr e) ↦ rw e (unfold commit in refl)
            | inl (documents, e) ↦ rw e (
                checked_length-commit message_too_large OpCode.reply id r (body_bytes p documents)
                  dst _ _ (omega (arith, length-body_bytes p documents))
                  (ap (λ (t : Bytes). (ok tt, t))
                    (simp append_assoc
                      (write_bytes-frame_bytes OpCode.reply id r (body_bytes p documents) dst))))
          ])
        ]
