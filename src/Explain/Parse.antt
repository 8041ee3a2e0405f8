-- ===== src/Explain/Parse.antt =====
-- `probe_ok` and `parse_reply_doc` of src/serve/explain/parse.rs, over the wire types of
-- src/serve/explain/wire.rs. Reading a document into those types is serde's and the `bson` crate's.
use mongod_proxy.Bytes.Text.{ascii}
use mongod_proxy.Prelude.{
  ℕ, map_err, if◌then◌else◌, Bool, List, Result, ℤ, Option, err, ok, negsuc, pos, none, some, suc,
  zero, false, true, ◌>>=◌,
}
use mongod_proxy.Bytes.Defs.{Bytes}
use mongod_proxy.Bson.{Bson}
use mongod_proxy.Bson.Documents.{Documents}
use mongod_proxy.Explain.Plan.{RawPlanNode}
use mongod_proxy.Explain.Preview.{truncate_doc_preview}
use mongod_proxy.Explain.Model.Event.{
  null, string_value, bool, array_value, document_value, other_type, deserialise, rejected,
  malformed_server_error, malformed_ok, ExplainServerError, non_finite, MalformedOkShape, missing,
  ExplainParseError,
}
use mongod_proxy.Explain.Model.OpenVocab.{ErrorLabel, ServerErrorCodeName}

pub record RawExplainReply (Document : Type 0) : Type 0 where
  pub namespace : Bytes
  pub execution_time_millis : ℤ
  pub n_returned : ℤ
  pub total_docs_examined : ℤ
  pub total_keys_examined : ℤ
  pub execution_stages : RawPlanNode Document

pub record RawServerError : Type 0 where
  pub message : Bytes
  pub code : Option ℤ
  pub code_name : Option ServerErrorCodeName
  pub error_labels : List ErrorLabel

-- A `Bson` value as `probe_ok` tells values apart: a double by whether it is finite and whether it
-- is 0, and any other type by its element type.
pub data OkValue : Type 0 where
  int32 : ℤ → OkValue
  int64 : ℤ → OkValue
  double : Bool → Bool → OkValue
  null_ok : OkValue
  string_ok : OkValue
  boolean_ok : OkValue
  array_ok : OkValue
  document_ok : OkValue
  other_ok : ℕ → OkValue

pub record ReplyReader (Document Value E : Type 0) : Type 0 where
  pub ok_value : Value → OkValue
  -- `bson::deserialize_from_document`, at the two types that it is called with.
  pub deserialize_server_error : Document → Result E RawServerError
  pub deserialize_reply : Document → Result E (RawExplainReply Document)
  -- What `Debug` writes.
  pub debug_pieces : Document → List Bytes

pub data OkOutcome : Type 0 where
  success : OkOutcome
  rejected_reply : OkOutcome
  malformed : MalformedOkShape → OkOutcome

abbrev pub of_integer : ℤ → OkOutcome
of_integer (pos zero) = rejected_reply
of_integer (pos (suc n)) = success
of_integer (negsuc n) = success

unfoldable pub from_non_numeric_bson : OkValue → MalformedOkShape
from_non_numeric_bson null_ok = null
from_non_numeric_bson string_ok = string_value
from_non_numeric_bson boolean_ok = bool
from_non_numeric_bson array_ok = array_value
from_non_numeric_bson document_ok = document_value
from_non_numeric_bson (int32 n) = non_finite
from_non_numeric_bson (int64 n) = non_finite
from_non_numeric_bson (double is_finite is_zero) = non_finite
from_non_numeric_bson (other_ok element_type) = other_type element_type

unfoldable pub of_value : OkValue → OkOutcome
unfolding from_non_numeric_bson
of_value (int32 n) = of_integer n
of_value (int64 n) = of_integer n
of_value (double false is_zero) = malformed non_finite
of_value (double true is_zero) = if is_zero then rejected_reply else success
of_value other = malformed (from_non_numeric_bson other)

module _ (bson : Bson) (docs : Documents bson.Document)
    (reader : ReplyReader bson.Document docs.Value bson.Error) where
  open bson use {Document, Error}

  unfoldable pub probe_ok : Document → OkOutcome
  unfolding of_value
  probe_ok doc = elim (docs.get doc (ascii "ok")) [
    | none ↦ malformed missing
    | some b ↦ of_value (reader.ok_value b)
  ]

  unfoldable pub preview : Document → Bytes
  unfolding truncate_doc_preview
  preview doc = truncate_doc_preview (reader.debug_pieces doc) 256

  unfoldable pub by_outcome :
      Document
      → OkOutcome
      → Result (ExplainParseError Error) (Result ExplainServerError (RawExplainReply Document))
  unfolding preview
  by_outcome doc (malformed shape) = err (malformed_ok shape)
  by_outcome doc rejected_reply = do
    raw ← map_err (malformed_server_error (preview doc)) (reader.deserialize_server_error doc)
    ok (err (rejected raw.message raw.code raw.code_name raw.error_labels))
  by_outcome doc success = do
    reply ← map_err (deserialise (preview doc)) (reader.deserialize_reply doc)
    ok (ok reply)

  unfoldable pub parse_reply_doc :
      Document
      → Result (ExplainParseError Error) (Result ExplainServerError (RawExplainReply Document))
  unfolding probe_ok by_outcome
  parse_reply_doc doc = by_outcome doc (probe_ok doc)
