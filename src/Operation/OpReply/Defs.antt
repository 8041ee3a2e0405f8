-- ===== src/Operation/OpReply/Defs.antt =====
-- `OperationReply`, its parser and its writer.
use mongod_proxy.Bson.{Bson}
use mongod_proxy.Operation.OpReply.Flags.{unknown_bits, from_bits, OperationReplyFlags}
use mongod_proxy.Bytes.Defs.{i32_at, i64_at, u32_at, IsI32, Bytes, IsI64}
use mongod_proxy.Prelude.{
  drop, pos_part, ok_or, length, ltb, ◌++◌, not, map_err, guard, Result, ◌+◌, ℤ, List, ℕ, ◌∷◌, ok,
  [], suc, zero, ◌>>=◌, ◌>>◌,
}

pub record OperationReply (Document : Type 0) : Type 0 where
  pub flags : OperationReplyFlags
  pub cursor_id : ℤ
  pub starting_from : ℤ
  pub documents : List Document

-- `E` is the error of the `bson` crate.
pub data OperationReplyParseError (E : Type 0) : Type 0 where
  not_enough_bytes : ℕ → ℕ → OperationReplyParseError E
  unknown_flag_bits : ℕ → OperationReplyParseError E
  failed_to_parse_document : ℕ → E → OperationReplyParseError E

pub data OperationReplyWriteError (E : Type 0) : Type 0 where
  serialize_document_error : E → OperationReplyWriteError E
  too_many_documents : ℕ → OperationReplyWriteError E
  message_too_large : ℕ → OperationReplyWriteError E

-- What the types of the fields promise: an `i64` and an `i32`.
pub record IsOperationReply {Document : Type 0} (p : OperationReply Document) : Type 0 where
  pub cursor_valid : IsI64 p.cursor_id
  pub start_valid : IsI32 p.starting_from

abbrev pub min_len : ℕ
min_len = 4 + 8 + 4 + 4

module _ (bson : Bson) where
  open bson use {Document, Error, from_reader, to_writer}

  -- `for n in 0..num_docs`: the documents still to come, and the index of the next.
  unfoldable pub parse_documents :
      ℕ → ℕ → Bytes → Result (OperationReplyParseError Error) (List Document)
  parse_documents zero n bytes = ok []
  parse_documents (suc left) n bytes = do
    (doc, rest) ← map_err (failed_to_parse_document n) (from_reader bytes)
    documents ← parse_documents left (n + 1) rest
    ok (doc ∷ documents)

  unfoldable pub from_bytes :
      Bytes → Result (OperationReplyParseError Error) (OperationReply Document)
  unfolding parse_documents
  from_bytes bytes = do
    guard (not (ltb (length bytes) min_len)) (not_enough_bytes (length bytes) min_len)
    let raw_flags = u32_at 0 bytes
    flags ← ok_or (from_bits raw_flags) (unknown_flag_bits (unknown_bits raw_flags))
    let cursor_id = i64_at 4 bytes
    let starting_from = i32_at 12 bytes
    let number_returned = i32_at 16 bytes
    -- `number_returned.max(0) as usize`
    let num_docs = pos_part number_returned
    documents ← parse_documents num_docs 0 (drop min_len bytes)
    ok (record {
      flags = flags;
      cursor_id = cursor_id;
      starting_from = starting_from;
      documents = documents;
    })

  -- Each document is written behind the ones before it.
  unfoldable pub write_documents :
      List Document → Bytes → Result (OperationReplyWriteError Error) Bytes
  write_documents [] documents_bytes = ok documents_bytes
  write_documents (doc ∷ documents) documents_bytes = do
    bytes ← map_err serialize_document_error (to_writer doc)
    write_documents documents (documents_bytes ++ bytes)
