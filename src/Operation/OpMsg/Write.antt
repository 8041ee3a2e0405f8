-- ===== src/Operation/OpMsg/Write.antt =====
-- The writer of an OP_MSG frame.
use mongod_proxy.Header.Length.{i32_try_from}
use mongod_proxy.Bytes.Text.{as_bytes_with_nul, cstring_new}
use mongod_proxy.Bytes.Defs.{i32_to_le_bytes, u32_to_le_bytes, Bytes}
use mongod_proxy.Operation.OpMsg.Flags.{OperationMessageFlags}
use mongod_proxy.Operation.OpMsg.Defs.{
  section_too_large, identifier_contains_null_byte, document_sequence, serialize_error, body,
  OperationMessageWriteError, OpMsgSection, OperationMessage,
}
use mongod_proxy.Bson.{Bson}
use mongod_proxy.Prelude.{
  ok_or, length, ◌+◌, ◌++◌, map_err, Result, is_some, ℕ, List, Option, ◌∷◌, ok, [], none, some,
  ◌>>=◌,
}

module _ (bson : Bson) where
  open bson use {Document, Error, to_writer}

  -- The documents of a sequence, written one behind the other.
  unfoldable pub write_documents :
      List Document → Bytes → Result (OperationMessageWriteError Error) Bytes
  write_documents [] docs_bytes = ok docs_bytes
  write_documents (doc ∷ documents) docs_bytes = do
    bytes ← map_err serialize_error (to_writer doc)
    write_documents documents (docs_bytes ++ bytes)

  -- The size field, the identifier and the documents. The size counts itself, and must fit an `i32`.
  unfoldable pub frame_sequence :
      Bytes → Bytes → Bytes → Result (OperationMessageWriteError Error) Bytes
  frame_sequence out identifier_bytes docs_bytes = do
    let section_size = 4 + length identifier_bytes + length docs_bytes
    section_size_i32 ← ok_or (i32_try_from section_size) (section_too_large section_size)
    ok (((out ++ i32_to_le_bytes section_size_i32) ++ identifier_bytes) ++ docs_bytes)

  -- The section, behind what the scratch buffer `out` holds.
  unfoldable pub write_section :
      OpMsgSection Document → Bytes → Result (OperationMessageWriteError Error) Bytes
  unfolding write_documents frame_sequence
  write_section (body doc) out = do
    bytes ← map_err serialize_error (to_writer doc)
    ok ((out ++ (0 ∷ [])) ++ bytes)
  write_section (document_sequence identifier documents) out = do
    identifier_cstring ← map_err identifier_contains_null_byte (cstring_new identifier)
    let identifier_bytes = as_bytes_with_nul identifier_cstring
    docs_bytes ← write_documents documents []
    frame_sequence (out ++ (1 ∷ [])) identifier_bytes docs_bytes

  unfoldable pub write_sections :
      List (OpMsgSection Document) → Bytes → Result (OperationMessageWriteError Error) Bytes
  unfolding write_section
  write_sections [] out = ok out
  write_sections (section ∷ sections) out = do
    out' ← write_section section out
    write_sections sections out'

-- `flags.set(CHECKSUM_PRESENT, self.checksum.is_some())`.
unfoldable pub derived_flags :
    {Document : Type 0} → OperationMessage Document → OperationMessageFlags
derived_flags m = let flags = m.flags in record flags { checksum_present = is_some m.checksum }

abbrev pub checksum_bytes : Option ℕ → Bytes
checksum_bytes none = []
checksum_bytes (some checksum) = u32_to_le_bytes checksum
