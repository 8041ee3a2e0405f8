-- ===== src/Operation/RoundTrip.antt =====
-- Any operation that is written: its frame and its body.
use mongod_proxy.Header.Length.{i32_try_from}
use mongod_proxy.Bytes.Text.{cstring_new}
use mongod_proxy.Ids.MessageLength.{max_len}
use mongod_proxy.Bytes.Writer.{convert_err}
use mongod_proxy.Bytes.Defs.{Bytes}
use mongod_proxy.Ids.{ResponseTo, RequestId}
use mongod_proxy.Header.Frame.{commit}
use mongod_proxy.Bson.{IsBson, Bson}
use mongod_proxy.Prelude.{
  ok_or, length-append, map_err-eq-ok, arith, >>=-eq-ok, ◌++◌, ◌≤◌, [], leb, ◌∙◌, ap, Bool-cases,
  ◌≡◌, map_err, Option, ◌+◌, ℕ, length, Result, ◌<◌, out_of_fuel, err, ok, inr, inl, refl,
}
use mongod_proxy.OpCode.{OpCode}
use mongod_proxy.Operation.OpMsg
use mongod_proxy.Operation.OpQuery
use mongod_proxy.Operation.OpReply
use mongod_proxy.Operation.Defs.{
  from_bytes, failed_to_write_operation_reply, failed_to_write_operation_query,
  failed_to_write_operation_message, Operation, query, message, reply, write_bytes,
  OperationWriteError,
}

-- The opcode that the writer chooses.
abbrev pub op_code_of : {Document : Type 0} → Operation Document → OpCode
op_code_of (message m) = OpCode.msg
op_code_of (query q) = OpCode.query
op_code_of (reply p) = OpCode.reply

-- What the types of the fields promise.
abbrev pub IsOperation : {Document : Type 0} → Operation Document → Type 0
IsOperation (message m) = OpMsg.Defs.IsOperationMessage m
IsOperation (query q) = OpQuery.Defs.IsOperationQuery q
IsOperation (reply p) = OpReply.Defs.IsOperationReply p

-- An OP_MSG that the parser can read: it has a section, or else a checksum.
abbrev pub HasContent : {Document : Type 0} → Operation Document → Type 0
HasContent (message m) = 0 < length m.sections + length (OpMsg.Write.checksum_bytes m.checksum)
HasContent (query q) = Unit
HasContent (reply p) = Unit

-- The operation as it comes back from the wire.
abbrev pub normalised : {Document : Type 0} → Operation Document → Operation Document
normalised (message m) = message (OpMsg.RoundTrip.normalised m)
normalised (query q) = query q
normalised (reply p) = reply p

module _ (bson : Bson) where
  open bson use {Document, Error}

  -- The body that the writer would put behind the header.
  abbrev pub encoded : Operation Document → Result (OperationWriteError Error) Bytes
  encoded (message m) = map_err failed_to_write_operation_message (OpMsg.Commit.encoded bson m)
  encoded (query q) = map_err failed_to_write_operation_query (OpQuery.Commit.encoded bson q)
  encoded (reply p) = map_err failed_to_write_operation_reply (OpReply.Commit.encoded bson p)

  abbrev pub too_large : Operation Document → ℕ → OperationWriteError Error
  too_large (message m) n = failed_to_write_operation_message (OpMsg.Defs.message_too_large n)
  too_large (query q) n = failed_to_write_operation_query (OpQuery.Defs.message_too_large n)
  too_large (reply p) n = failed_to_write_operation_reply (OpReply.Defs.message_too_large n)

pub convert_err-commit :
    {E F : Type 0} (f : E → F) (too_large : ℕ → E) (code : OpCode) (id : RequestId)
    (r : Option ResponseTo) (m : Result E Bytes) (dst : Bytes)
    → convert_err f (commit too_large code id r m) dst
      ≡ commit (λ n. f (too_large n)) code id r (map_err f m) dst
unfolding commit
convert_err-commit f too_large code id r (ok body) dst =
    elim (Bool-cases (leb (16 + length body) max_len)) [ inl e ↦ rw e | inr e ↦ rw e ]
convert_err-commit f too_large code id r (err e) dst = refl
convert_err-commit f too_large code id r out_of_fuel dst = refl

module _ (bson : Bson) where
  open bson use {Document, Error}

  -- The three writers have one behaviour: the encoded body is appended as one frame if it fits, and
  -- the buffer is left alone otherwise.
  pub write_bytes-commit_operation :
      (op : Operation Document) (id : RequestId) (r : Option ResponseTo) (dst : Bytes)
      → write_bytes bson op id r dst
        ≡ commit (too_large bson op) (op_code_of op) id r (encoded bson op) dst
  unfolding write_bytes
  write_bytes-commit_operation (message m) id r dst =
      ap
        (λ (t : Result (OpMsg.Defs.OperationMessageWriteError Error) (Unit {0}) × Bytes).
          (map_err failed_to_write_operation_message t.0, t.1))
        (OpMsg.Commit.write_bytes-commit_msg bson m id r dst)
      ∙ convert_err-commit _ _ _ id r (OpMsg.Commit.encoded bson m) dst
  write_bytes-commit_operation (query q) id r dst =
      ap
        (λ (t : Result (OpQuery.Defs.OperationQueryWriteError Error) (Unit {0}) × Bytes).
          (map_err failed_to_write_operation_query t.0, t.1))
        (OpQuery.Commit.write_bytes-commit_query bson q id r dst)
      ∙ convert_err-commit _ _ _ id r (OpQuery.Commit.encoded bson q) dst
  write_bytes-commit_operation (reply p) id r dst =
      ap
        (λ (t : Result (OpReply.Defs.OperationReplyWriteError Error) (Unit {0}) × Bytes).
          (map_err failed_to_write_operation_reply t.0, t.1))
        (OpReply.Commit.write_bytes-commit_reply bson p id r dst)
      ∙ convert_err-commit _ _ _ id r (OpReply.Commit.encoded bson p) dst

module _ (bson : Bson) (laws : IsBson bson) where
  open bson use {Document, Error}

  message_content :
      (m : OpMsg.Defs.OperationMessage Document) (enc : Bytes)
      → 0 < length m.sections + length (OpMsg.Write.checksum_bytes m.checksum)
      → length m.sections ≤ length enc
      → 0 < length (enc ++ OpMsg.Write.checksum_bytes m.checksum)
  message_content m enc h k =
      omega (arith, length-append enc (OpMsg.Write.checksum_bytes m.checksum))

  -- Under the laws of the `bson` crate, the body that an operation encodes to parses, under the
  -- opcode of the operation's kind, to the operation with the checksum flag of an OP_MSG derived,
  -- provided that the fields are in range and that an OP_MSG has a section or a checksum.
  pub from_bytes-encoded :
      (op : Operation Document) {body : Bytes}
      → IsOperation op
      → HasContent op
      → encoded bson op ≡ ok body
      → from_bytes bson (op_code_of op) body ≡ ok (normalised op)
  unfolding from_bytes
  from_bytes-encoded (message m) {body} v c h =
      let (enc, e, p) =
        >>=-eq-ok (OpMsg.Write.write_sections bson m.sections []) _ (map_err-eq-ok _ _ h) in
      let (parsed, long) =
        OpMsg.RoundTrip.parse_sections-write_sections bson laws m.sections v.sections_valid e in
      let whole : OpMsg.Parse.from_bytes bson (OpMsg.RoundTrip.body_bytes m enc)
          ≡ ok (OpMsg.RoundTrip.normalised m) =
        OpMsg.RoundTrip.from_bytes-body_bytes_msg bson laws m v e (message_content m enc c long) in
      let same : OpMsg.RoundTrip.body_bytes m enc ≡ body = cc p in rw (rw same at whole)
  from_bytes-encoded (query q) {body} v c h =
      let h₀ = map_err-eq-ok _ _ h in
      let (qb, e₁, h₁) =
        >>=-eq-ok (map_err OpQuery.Defs.serialize_query_error (bson.serialize_to_vec q.query)) _
          h₀ in
      let (sb, e₂, h₂) =
        >>=-eq-ok (OpQuery.Defs.write_selector bson q.return_fields_selector) _ h₁ in
      let (name, e₃, p) =
        >>=-eq-ok
          (map_err OpQuery.Defs.collection_name_contains_null_byte
            (cstring_new q.full_collection_name))
          _ h₂ in
      let whole : OpQuery.Defs.from_bytes bson (OpQuery.RoundTrip.body_bytes q qb sb) ≡ ok q =
        OpQuery.RoundTrip.from_bytes-body_bytes_query bson laws q v (map_err-eq-ok _ _ e₁) e₂
          (map_err-eq-ok _ _ e₃) in
      let same : OpQuery.RoundTrip.body_bytes q qb sb ≡ body = cc p in rw (rw same at whole)
  from_bytes-encoded (reply r) {body} v c h =
      let h₀ = map_err-eq-ok _ _ h in
      let (n, e₁, h₁) = >>=-eq-ok (ok_or (i32_try_from (length r.documents)) _) _ h₀ in
      let (ds, e₂, p) = >>=-eq-ok (OpReply.Defs.write_documents bson r.documents []) _ h₁ in
      let whole : OpReply.Defs.from_bytes bson (OpReply.RoundTrip.body_bytes r ds) ≡ ok r =
        OpReply.RoundTrip.from_bytes-body_bytes_reply bson laws r v
          (OpReply.Commit.count_fits _ _ e₁) e₂ in
      let same : OpReply.RoundTrip.body_bytes r ds ≡ body = cc p in rw (rw same at whole)
