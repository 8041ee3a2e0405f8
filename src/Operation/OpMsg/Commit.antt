-- ===== src/Operation/OpMsg/Commit.antt =====
-- The writer of an OP_MSG frame beside `commit`.
use mongod_proxy.Operation.OpMsg.Flags.{bits}
use mongod_proxy.Bytes.Words.{length-u32_to_le_bytes}
use mongod_proxy.Operation.OpMsg.RoundTrip.{body_bytes}
use mongod_proxy.Operation.OpMsg.Write.{derived_flags, checksum_bytes, write_sections}
use mongod_proxy.Ids.{ResponseTo, RequestId}
use mongod_proxy.Header.Frame.{write_bytes-frame_bytes, checked_length-commit, commit}
use mongod_proxy.Bytes.Defs.{u32_to_le_bytes, Bytes}
use mongod_proxy.Operation.OpMsg.Defs.{
  message_too_large, OperationMessageWriteError, OperationMessage,
}
use mongod_proxy.Bson.{Bson}
use mongod_proxy.OpCode
use mongod_proxy.Header.Defs
use mongod_proxy.Operation.OpMsg.Frame.{write_bytes, put_checksum}
use mongod_proxy.Prelude.{
  append_assoc, ap, ◌∙◌, append-nil, ◌++◌, length-append, arith, Result-cases, sym, length, ◌≡◌,
  ◌+◌, is_some, if◌then◌else◌, Result, ℕ, Option, ok, inr, inl, [], none, some, refl, ◌>>=◌,
}

length-checksum_bytes : (c : Option ℕ) → (if is_some c then 4 else 0) ≡ length (checksum_bytes c)
length-checksum_bytes none = refl
length-checksum_bytes (some crc) = sym (length-u32_to_le_bytes crc)

module _ (bson : Bson) where
  open bson use {Document, Error}

  -- The body that the writer would put behind the header.
  abbrev pub encoded : OperationMessage Document → Result (OperationMessageWriteError Error) Bytes
  encoded m = write_sections bson m.sections [] >>= λ enc. ok (body_bytes m enc)

  length-body_bytes :
      (m : OperationMessage Document) (enc : Bytes)
      → Defs.size + 4 + length enc + (if is_some m.checksum then 4 else 0)
        ≡ 16 + length (body_bytes m enc)
  length-body_bytes m enc = omega (
    arith,
    length-append (u32_to_le_bytes (bits (derived_flags m))) (enc ++ checksum_bytes m.checksum),
    length-u32_to_le_bytes (bits (derived_flags m)),
    length-append enc (checksum_bytes m.checksum),
    length-checksum_bytes m.checksum,
  )

  put_checksum_lem :
      (checksum : Option ℕ) (dst : Bytes)
      → put_checksum {E = OperationMessageWriteError Error} checksum dst
        ≡ (ok tt, dst ++ checksum_bytes checksum)
  put_checksum_lem none dst = rw (append-nil dst)
  put_checksum_lem (some crc) dst = refl

  -- Writing an OP_MSG appends one whole frame, with the header in front and its length right,
  -- behind what the buffer held; sections that cannot be encoded or a frame above the length
  -- limit give the error and leave the buffer as it was.
  pub write_bytes-commit_msg :
      (m : OperationMessage Document) (id : RequestId) (r : Option ResponseTo) (dst : Bytes)
      → write_bytes bson m id r dst ≡ commit message_too_large OpCode.msg id r (encoded m) dst
  unfolding write_bytes
  write_bytes-commit_msg m id r dst = elim (Result-cases (write_sections bson m.sections [])) [
    | inl (enc, e) ↦ rw e (
        checked_length-commit message_too_large OpCode.msg id r (body_bytes m enc) dst _ _
          (length-body_bytes m enc)
          (put_checksum_lem m.checksum _
            ∙ ap (λ (t : Bytes). (ok tt, t))
                (append_assoc _ enc (checksum_bytes m.checksum)
                  ∙ append_assoc _ _ (enc ++ checksum_bytes m.checksum)
                  ∙ write_bytes-frame_bytes OpCode.msg id r (body_bytes m enc) dst)))
    | inr (inl (x, e)) ↦ rw e (unfold commit in refl)
    | inr (inr e) ↦ rw e (unfold commit in refl)
  ]
