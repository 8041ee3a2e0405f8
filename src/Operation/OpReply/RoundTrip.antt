-- ===== src/Operation/OpReply/RoundTrip.antt =====
-- The writer and the parser of an OP_REPLY body, composed.
use mongod_proxy.Bytes.Words.{
  u32_at-u32_to_le_bytes, i32_at-i32_to_le_bytes, i64_at-i64_to_le_bytes,
}
use mongod_proxy.Operation.OpReply.Flags.{from_bits-bits, bits-IsU32, bits}
use mongod_proxy.Bson.{IsBson, Bson}
use mongod_proxy.Bytes.Defs.{
  IsI32, IsI64, le_bytes, i32_at, i32_to_le_bytes, i64_at, Bytes, i64_to_le_bytes, u32_to_le_bytes,
}
use mongod_proxy.Operation.OpReply.Defs.{
  min_len, serialize_document_error, parse_documents, IsOperationReply, from_bytes, write_documents,
  OperationReply,
}
use mongod_proxy.Prelude.{
  map_err-eq-ok, append_assoc, ◌∙◌, ltb, map_err, not, arith, >>=-eq-ok, ◌+◌, append-nil, ◌^◌, ◌<◌,
  ◌≡◌, ℕ, length, drop, List, ◌++◌, ◌∷◌, ok, pos, [], true, refl,
}

-- What the writer puts behind the header, around the encoded documents.
abbrev pub body_bytes : {Document : Type 0} → OperationReply Document → Bytes → Bytes
body_bytes p documents =
    u32_to_le_bytes (bits p.flags)
    ++ (i64_to_le_bytes p.cursor_id
        ++ (i32_to_le_bytes p.starting_from
            ++ (i32_to_le_bytes (pos (length p.documents)) ++ documents)))

pub length-body_bytes :
    {Document : Type 0} (p : OperationReply Document) (documents : Bytes)
    → length (body_bytes p documents) ≡ 20 + length documents
unfolding u32_to_le_bytes i64_to_le_bytes i32_to_le_bytes le_bytes
length-body_bytes p documents = omega arith

module _ {Document : Type 0} (p : OperationReply Document) (documents : Bytes) where
  cursor_field : IsI64 p.cursor_id → i64_at 4 (body_bytes p documents) ≡ p.cursor_id
  unfolding i64_at u32_to_le_bytes i64_to_le_bytes le_bytes
  cursor_field h =
      i64_at-i64_to_le_bytes p.cursor_id
        (i32_to_le_bytes p.starting_from
          ++ (i32_to_le_bytes (pos (length p.documents)) ++ documents))
        h

  start_field : IsI32 p.starting_from → i32_at 12 (body_bytes p documents) ≡ p.starting_from
  unfolding i32_at u32_to_le_bytes i64_to_le_bytes i32_to_le_bytes le_bytes
  start_field h =
      i32_at-i32_to_le_bytes p.starting_from
        (i32_to_le_bytes (pos (length p.documents)) ++ documents) h

  count_field :
      length p.documents < 2 ^ 31 → i32_at 16 (body_bytes p documents) ≡ pos (length p.documents)
  unfolding i32_at u32_to_le_bytes i64_to_le_bytes i32_to_le_bytes le_bytes
  count_field h = i32_at-i32_to_le_bytes (pos (length p.documents)) documents h

  behind : drop 20 (body_bytes p documents) ≡ documents
  unfolding u32_to_le_bytes i64_to_le_bytes i32_to_le_bytes le_bytes
  behind = refl

module _ (bson : Bson) (laws : IsBson bson) where
  open bson use {Document, Error, from_reader, to_writer}

  -- Documents that were written are read back, one for each that was counted.
  parse_documents-write_documents :
      (ds : List Document) (n : ℕ) (acc : Bytes) {out : Bytes}
      → write_documents bson ds acc ≡ ok out
      → (enc : Bytes) × (out ≡ acc ++ enc) × (parse_documents bson (length ds) n enc ≡ ok ds)
  unfolding write_documents parse_documents
  parse_documents-write_documents [] n acc h = ([], rw append-nil (cc), refl)
  parse_documents-write_documents (d ∷ ds) n acc h =
      let (bytes, e, h') = >>=-eq-ok (map_err serialize_document_error (to_writer d)) _ h in
      let (enc, p, loop) = parse_documents-write_documents ds (n + 1) (acc ++ bytes) h' in
      (
        bytes ++ enc,
        p ∙ append_assoc acc bytes enc,
        rw (laws.reads_back d bytes enc (map_err-eq-ok _ _ e), loop),
      )

  -- Under the laws of the `bson` crate, the body of an OP_REPLY whose fields are in range, whose
  -- documents encode and number fewer than 2^31 parses back to the reply.
  pub from_bytes-body_bytes_reply :
      (p : OperationReply Document) {documents : Bytes}
      → IsOperationReply p
      → length p.documents < 2 ^ 31
      → write_documents bson p.documents [] ≡ ok documents
      → from_bytes bson (body_bytes p documents) ≡ ok p
  unfolding from_bytes
  from_bytes-body_bytes_reply p {documents} v few h =
      let (enc, q, loop) = parse_documents-write_documents p.documents 0 [] h in
      let long : not (ltb (length (body_bytes p documents)) min_len) ≡ true =
        ground (arith, length-body_bytes p documents) in
      let whole : parse_documents bson (length p.documents) 0 documents ≡ ok p.documents =
        rw q loop in
      rw (
        long,
        u32_at-u32_to_le_bytes (bits p.flags) _ (bits-IsU32 p.flags),
        from_bits-bits p.flags,
        cursor_field p documents v.cursor_valid,
        start_field p documents v.start_valid,
        count_field p documents few,
        behind p documents,
        whole,
      )
