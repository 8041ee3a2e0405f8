-- ===== src/Operation/OpMsg/Parse.antt =====
-- The parser of an OP_MSG body. A cursor is the part of its buffer that lies behind its position.
-- Each loop has the length of its input as fuel: no round takes less than a byte.
use mongod_proxy.Bytes.Text.{is_utf8, until_nul}
use mathlib.Core.Option
use mathlib.Core.List.{head?}
use mongod_proxy.Prelude.{
  ◌+◌, guard, leb, pos_part, ◌==◌, leb_ℤ, not, get_range, drop, map_err, ok_or, ◌>>=◌, ◌>>◌,
}
use mongod_proxy.Operation.OpMsg.Defs.{
  document_sequence_identifier_not_utf8, document_sequence_identifier_missing_nul,
  unknown_required_bits, not_enough_bytes, invalid_kind, min_len, invalid_document_sequence_size,
  invalid_bson, missing_checksum, document_sequence, body, OpMsgSection, OperationMessageParseError,
  OperationMessage, as_body,
}
use mongod_proxy.Operation.OpMsg.Flags.{from_bits_truncate, unknown_required, OperationMessageFlags}
use mongod_proxy.Bytes.Defs.{i32_at, u32_at, Bytes}
use mongod_proxy.Bson.{Bson}
use mongod_proxy.Prelude.{
  take, ◌-◌, ltb, length, if◌then◌else◌, Result, List, Option, ℕ, ◌∷◌, out_of_fuel, err, ok, pos,
  [], none, some, suc, zero,
}

-- `find_map` goes on where the section is no body.
abbrev or_else {ℓ} : {A : Type ℓ} → Option A → Option A → Option A
or_else (some a) next = some a
or_else none next = next

module _ (bson : Bson) where
  open bson use {Document, Error, from_reader}

  -- `while reader.position() < docs_bytes.len()`.
  unfoldable pub parse_documents :
      ℕ → Bytes → Result (OperationMessageParseError Error) (List Document)
  parse_documents fuel [] = ok []
  parse_documents zero (b ∷ bytes) = out_of_fuel
  parse_documents (suc fuel) (b ∷ bytes) = do
    (doc, rest) ← map_err invalid_bson (from_reader (b ∷ bytes))
    documents ← parse_documents fuel rest
    ok (doc ∷ documents)

  -- The arm of kind 1. `rest` begins at `section_start`, and the offsets count from there.
  unfoldable pub parse_document_sequence :
      Bytes → Result (OperationMessageParseError Error) (OpMsgSection Document × Bytes)
  unfolding parse_documents
  parse_document_sequence rest = do
    size_bytes ← ok_or (get_range rest 0 4) (invalid_document_sequence_size (pos 0))
    let size = i32_at 0 size_bytes
    guard (leb_ℤ (pos 5) size) (invalid_document_sequence_size size)
    let payload_end = pos_part size
    guard (leb payload_end (length rest)) (invalid_document_sequence_size size)
    identifier_bytes ← ok_or (get_range rest 4 payload_end) (invalid_document_sequence_size size)
    identifier ← ok_or (until_nul identifier_bytes) document_sequence_identifier_missing_nul
    guard (is_utf8 identifier) document_sequence_identifier_not_utf8
    let ident_end = 4 + length identifier + 1
    docs_bytes ← ok_or (get_range rest ident_end payload_end) (invalid_document_sequence_size size)
    documents ← parse_documents (length docs_bytes) docs_bytes
    ok (document_sequence identifier documents, drop payload_end rest)

  -- One round of the loop over the sections, behind the kind byte.
  unfoldable pub parse_section :
      ℕ → Bytes → Result (OperationMessageParseError Error) (OpMsgSection Document × Bytes)
  unfolding parse_document_sequence
  parse_section zero rest = do
    (doc, rest') ← map_err invalid_bson (from_reader rest)
    ok (body doc, rest')
  parse_section (suc zero) rest = parse_document_sequence rest
  parse_section (suc (suc n)) rest = err (invalid_kind (suc (suc n)))

  unfoldable pub parse_sections_loop :
      ℕ → Bytes → Result (OperationMessageParseError Error) (List (OpMsgSection Document))
  unfolding parse_section
  parse_sections_loop fuel [] = ok []
  parse_sections_loop zero (kind ∷ rest) = out_of_fuel
  parse_sections_loop (suc fuel) (kind ∷ rest) = do
    (section, rest') ← parse_section kind rest
    sections ← parse_sections_loop fuel rest'
    ok (section ∷ sections)

  unfoldable pub parse_sections :
      Bytes → Result (OperationMessageParseError Error) (List (OpMsgSection Document))
  unfolding parse_sections_loop
  parse_sections bytes = parse_sections_loop (length bytes) bytes

  -- Cuts the trailing checksum off, if the flags announce one.
  unfoldable pub split_checksum :
      OperationMessageFlags → Bytes → Result (OperationMessageParseError Error) (Bytes × Option ℕ)
  split_checksum flags after_flags =
      if flags.checksum_present
      then (if ltb (length after_flags) 4
          then err missing_checksum
          else let body_len = length after_flags - 4 in
            ok (take body_len after_flags, some (u32_at 0 (drop body_len after_flags))))
      else ok (after_flags, none)

  unfoldable pub from_bytes :
      Bytes → Result (OperationMessageParseError Error) (OperationMessage Document)
  unfolding split_checksum parse_sections
  from_bytes bytes = do
    guard (not (ltb (length bytes) min_len)) (not_enough_bytes (length bytes) min_len)
    let raw_flags = u32_at 0 bytes
    guard (unknown_required raw_flags == 0) (unknown_required_bits (unknown_required raw_flags))
    let flags = from_bits_truncate raw_flags
    (sections_bytes, checksum) ← split_checksum flags (drop 4 bytes)
    sections ← parse_sections sections_bytes
    ok (record { flags = flags; sections = sections; checksum = checksum })

  -- The first key of the first body section.
  unfoldable pub find_body : List (OpMsgSection Document) → Option Document
  unfolding as_body
  find_body [] = none
  find_body (section ∷ sections) = or_else (as_body section) (find_body sections)

  unfoldable pub command_name : OperationMessage Document → Option Bytes
  unfolding find_body
  command_name m = Option.bind (find_body m.sections) (λ doc. head? (bson.keys doc))
