-- ===== src/Operation/OpMsg/Defs.antt =====
-- `OperationMessage`, its sections and the outcomes of its parser and writer. The documents are
-- those of the `bson` crate.
use mongod_proxy.Bytes.Text.{NulError, is_utf8}
use mongod_proxy.Operation.OpMsg.Flags.{OperationMessageFlags}
use mongod_proxy.Bytes.Defs.{IsU32, Bytes}
use mongod_proxy.Prelude.{List, ◌≡◌, ◌+◌, ℤ, All, ℕ, Option, none, some, true}

pub data OpMsgSection (Document : Type 0) : Type 0 where
  body : Document → OpMsgSection Document
  document_sequence : Bytes → List Document → OpMsgSection Document

pub record OperationMessage (Document : Type 0) : Type 0 where
  pub flags : OperationMessageFlags
  pub sections : List (OpMsgSection Document)
  pub checksum : Option ℕ

-- `E` is the error of the `bson` crate.
pub data OperationMessageParseError (E : Type 0) : Type 0 where
  not_enough_bytes : ℕ → ℕ → OperationMessageParseError E
  unknown_required_bits : ℕ → OperationMessageParseError E
  invalid_kind : ℕ → OperationMessageParseError E
  missing_checksum : OperationMessageParseError E
  invalid_document_sequence_size : ℤ → OperationMessageParseError E
  document_sequence_identifier_missing_nul : OperationMessageParseError E
  document_sequence_identifier_not_utf8 : OperationMessageParseError E
  invalid_bson : E → OperationMessageParseError E

pub data OperationMessageWriteError (E : Type 0) : Type 0 where
  serialize_error : E → OperationMessageWriteError E
  identifier_contains_null_byte : NulError → OperationMessageWriteError E
  section_too_large : ℕ → OperationMessageWriteError E
  message_too_large : ℕ → OperationMessageWriteError E

abbrev pub min_len : ℕ
min_len = 4 + 1

unfoldable pub as_body : {Document : Type 0} → OpMsgSection Document → Option Document
as_body (body doc) = some doc
as_body (document_sequence identifier documents) = none

-- What the types of the fields promise of a section and of a message: an identifier is a `String`,
-- and a checksum a `u32`.
abbrev pub IsSection : {Document : Type 0} → OpMsgSection Document → Type 0
IsSection (body doc) = Unit
IsSection (document_sequence identifier documents) = is_utf8 identifier ≡ true

abbrev pub IsChecksum : Option ℕ → Type 0
IsChecksum none = Unit
IsChecksum (some crc) = IsU32 crc

pub record IsOperationMessage {Document : Type 0} (m : OperationMessage Document) : Type 0 where
  pub sections_valid : All IsSection m.sections
  pub checksum_valid : IsChecksum m.checksum
