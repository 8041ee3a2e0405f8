-- ===== src/Explain/Build.antt =====
-- `build_explain` of src/serve/explain/build.rs: the request that asks the server to explain another.
use mongod_proxy.Message.Defs.{Message}
use mongod_proxy.Bytes.Text.{ascii}
use mongod_proxy.Ids.ExplainRequestId.{ExplainRequestId}
use mongod_proxy.Prelude.{
  length, ltb, if◌then◌else◌, Bool, Option, List, ◌∷◌, [], none, some, false,
}
use mongod_proxy.Bson.{Bson}
use mongod_proxy.Bson.Documents.{Documents}
use mongod_proxy.Bytes.Defs.{Bytes, one_of, eq_bytes}
use mongod_proxy.Explain.Classify.{ClassifiedRequest}
use mongod_proxy.Explain.Model.Command.{Command, update, delete}
use mongod_proxy.Operation.Defs.{Operation}
use mongod_proxy.Operation.OpMsg.Defs.{OperationMessage, OpMsgSection, body, document_sequence}

pub data UnsupportedShape : Type 0 where
  multi_op_write_batch : UnsupportedShape

pub data BuildExplainOutcome (Document : Type 0) : Type 0 where
  built : Message Document → BuildExplainOutcome Document
  unsupported_shape : UnsupportedShape → BuildExplainOutcome Document

abbrev pub explain_verbosity : Bytes
explain_verbosity = ascii "executionStats"

-- The identifier that the write operations of a command stand under.
unfoldable pub op_identifier : Command → Option Bytes
op_identifier update = some (ascii "updates")
op_identifier delete = some (ascii "deletes")
op_identifier _ = none

abbrev pub stripped_keys : List Bytes
stripped_keys =
    ascii "$db"
    ∷ ascii "lsid"
    ∷ ascii "txnNumber"
    ∷ ascii "autocommit"
    ∷ ascii "$clusterTime"
    ∷ ascii "$readPreference"
    ∷ ascii "$readConcern"
    ∷ ascii "readConcern"
    ∷ ascii "startTransaction"
    ∷ ascii "stmtId"
    ∷ []

unfoldable pub should_strip_from_inner : Bytes → Bool
unfolding one_of
should_strip_from_inner key = one_of key stripped_keys

module _ {Document : Type 0} where
  -- The first sequence under the identifier decides.
  unfoldable pub has_many : Bytes → List (OpMsgSection Document) → Bool
  has_many ident [] = false
  has_many ident (body doc ∷ sections) = has_many ident sections
  has_many ident (document_sequence identifier documents ∷ sections) =
      let later = has_many ident sections in
      if eq_bytes identifier ident then ltb 1 (length documents) else later

  unfoldable pub is_multi_op_write_batch : Command → List (OpMsgSection Document) → Bool
  unfolding op_identifier has_many
  is_multi_op_write_batch command sections = elim (op_identifier command) [
    | none ↦ false
    | some ident ↦ has_many ident sections
  ]

  -- The first sequence under the identifier that has exactly one document gives it.
  unfoldable pub single_op : Bytes → List (OpMsgSection Document) → Option Document
  single_op ident [] = none
  single_op ident (body doc ∷ sections) = single_op ident sections
  single_op ident (document_sequence identifier (only ∷ []) ∷ sections) =
      let later = single_op ident sections in if eq_bytes identifier ident then some only else later
  single_op ident (document_sequence identifier [] ∷ sections) = single_op ident sections
  single_op ident (document_sequence identifier (d ∷ e ∷ ds) ∷ sections) = single_op ident sections

module _ (bson : Bson) (docs : Documents bson.Document) where
  open bson use {Document}

  unfoldable pub copy_fields : List (Bytes × docs.Value) → Document → Document
  unfolding should_strip_from_inner
  copy_fields [] inner = inner
  copy_fields ((k, v) ∷ fields) inner =
      copy_fields fields (if should_strip_from_inner k then inner else docs.insert inner k v)

  unfoldable pub fold_single_op_doc_sequence :
      Command → List (OpMsgSection Document) → Document → Document
  unfolding op_identifier single_op
  fold_single_op_doc_sequence command sections inner = elim (op_identifier command) [
    | none ↦ inner
    | some ident ↦ elim (single_op ident sections) [
      | none ↦ inner
      | some only ↦ docs.insert inner ident (docs.array (docs.embed only ∷ []))
    ]
  ]

  unfoldable pub inner_command : ClassifiedRequest Document → Document
  unfolding copy_fields fold_single_op_doc_sequence
  inner_command plan =
      fold_single_op_doc_sequence plan.command plan.doc_sequences
        (copy_fields (docs.entries plan.body) docs.empty)

  unfoldable pub envelope : ClassifiedRequest Document → Document
  unfolding inner_command
  envelope plan =
      let wrapped = docs.insert docs.empty (ascii "explain") (docs.embed (inner_command plan)) in
      let verbose = docs.insert wrapped (ascii "verbosity") (docs.string explain_verbosity) in
      docs.insert verbose (ascii "$db") (docs.string (plan.database).database_name)

  unfoldable pub explain_operation : ClassifiedRequest Document → OperationMessage Document
  unfolding envelope
  explain_operation plan = record {
    flags = record { checksum_present = false; more_to_come = false; exhaust_allowed = false };
    sections = body (envelope plan) ∷ [];
    checksum = none;
  }

  unfoldable pub explain_message : ClassifiedRequest Document → ExplainRequestId → Message Document
  unfolding explain_operation
  explain_message plan id = record {
    request_id = id;
    response_to = none;
    operation = Operation.message (explain_operation plan);
  }

  unfoldable pub build_explain :
      ClassifiedRequest Document → ExplainRequestId → BuildExplainOutcome Document
  unfolding is_multi_op_write_batch explain_message
  build_explain plan request_id =
      if is_multi_op_write_batch plan.command plan.doc_sequences
      then unsupported_shape multi_op_write_batch
      else built (explain_message plan request_id)
