-- ===== src/Operation/OpQuery/Defs.antt =====
-- `OperationQuery`, its parser and its writer.
use mongod_proxy.Bytes.Defs.{i32_at, u32_at, IsI32, Bytes}
use mongod_proxy.Bytes.Text.{until_nul, NulError, is_utf8}
use mongod_proxy.Operation.OpQuery.Flags.{unknown_bits, from_bits, OperationQueryFlags}
use mongod_proxy.Bson.{Bson}
use mongod_proxy.Prelude.{
  drop, ok_or, ◌-◌, length, ltb, not, map_err, guard, Result, ℤ, ◌≡◌, Option, ◌+◌, ℕ, ◌∷◌, ok, [],
  none, some, true, ◌>>=◌, ◌>>◌,
}

pub record OperationQuery (Document : Type 0) : Type 0 where
  pub flags : OperationQueryFlags
  pub full_collection_name : Bytes
  pub number_to_skip : ℤ
  pub number_to_return : ℤ
  pub query : Document
  pub return_fields_selector : Option Document

-- `E` is the error of the `bson` crate.
pub data OperationQueryParseError (E : Type 0) : Type 0 where
  not_enough_bytes : ℕ → ℕ → OperationQueryParseError E
  unknown_flag_bits : ℕ → OperationQueryParseError E
  invalid_collection_name : OperationQueryParseError E
  invalid_utf8_collection_name : OperationQueryParseError E
  failed_to_parse_query : E → OperationQueryParseError E
  failed_to_parse_return_fields_selector : E → OperationQueryParseError E

pub data OperationQueryWriteError (E : Type 0) : Type 0 where
  serialize_query_error : E → OperationQueryWriteError E
  serialize_return_field_selector_error : E → OperationQueryWriteError E
  collection_name_contains_null_byte : NulError → OperationQueryWriteError E
  message_too_large : ℕ → OperationQueryWriteError E

-- What the types of the fields promise: the name is a `String`, the numbers are `i32`s.
pub record IsOperationQuery {Document : Type 0} (q : OperationQuery Document) : Type 0 where
  pub name_valid : is_utf8 q.full_collection_name ≡ true
  pub skip_valid : IsI32 q.number_to_skip
  pub return_valid : IsI32 q.number_to_return

abbrev pub min_len : ℕ
min_len = 4 + 1 + 4 + 4 + 5

abbrev pub tail_min : ℕ
tail_min = 4 + 4 + 5

module _ (bson : Bson) where
  open bson use {Document, Error, from_reader, serialize_to_vec}

  -- `if reader.has_remaining() { Some(..) } else { None }`.
  unfoldable pub parse_selector : Bytes → Result (OperationQueryParseError Error) (Option Document)
  parse_selector [] = ok none
  parse_selector (b ∷ bytes) = do
    (doc, rest) ← map_err failed_to_parse_return_fields_selector (from_reader (b ∷ bytes))
    ok (some doc)

  -- What stands behind the collection's name; `actual_len` is the length of the whole body.
  unfoldable pub parse_tail :
      OperationQueryFlags
      → Bytes
      → ℕ
      → Bytes
      → Result (OperationQueryParseError Error) (OperationQuery Document)
  unfolding parse_selector
  parse_tail flags full_collection_name actual_len bytes = do
    guard (not (ltb (length bytes) tail_min))
        (not_enough_bytes actual_len (actual_len - length bytes + tail_min))
    let number_to_skip = i32_at 0 bytes
    let number_to_return = i32_at 4 bytes
    (query, rest) ← map_err failed_to_parse_query (from_reader (drop 8 bytes))
    return_fields_selector ← parse_selector rest
    ok (record {
      flags = flags;
      full_collection_name = full_collection_name;
      number_to_skip = number_to_skip;
      number_to_return = number_to_return;
      query = query;
      return_fields_selector = return_fields_selector;
    })

  unfoldable pub from_bytes :
      Bytes → Result (OperationQueryParseError Error) (OperationQuery Document)
  unfolding parse_tail
  from_bytes bytes = do
    guard (not (ltb (length bytes) min_len)) (not_enough_bytes (length bytes) min_len)
    let raw_flags = u32_at 0 bytes
    flags ← ok_or (from_bits raw_flags) (unknown_flag_bits (unknown_bits raw_flags))
    full_collection_name ← ok_or (until_nul (drop 4 bytes)) invalid_collection_name
    guard (is_utf8 full_collection_name) invalid_utf8_collection_name
    parse_tail flags full_collection_name (length bytes)
        (drop (length full_collection_name + 1) (drop 4 bytes))

  unfoldable pub write_selector : Option Document → Result (OperationQueryWriteError Error) Bytes
  write_selector none = ok []
  write_selector (some doc) = map_err serialize_return_field_selector_error (serialize_to_vec doc)
