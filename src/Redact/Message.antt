-- ===== src/Redact/Message.antt =====
-- The `Debug` of a message: src/operation/op_msg.rs, op_query.rs and op_reply.rs render every document
-- of a message by `RedactedDoc` and derive the rest. `R` is a rendered document.
use mongod_proxy.Operation.OpReply.Flags.{OperationReplyFlags}
use mongod_proxy.Operation.OpMsg.Flags.{OperationMessageFlags}
use mongod_proxy.Operation.OpQuery.Defs.{OperationQuery}
use mongod_proxy.Redact.Defs.{Entries, render_fields, Fields}
use mongod_proxy.Bytes.Defs.{Bytes}
use mongod_proxy.Ids.{ResponseTo, RequestId}
use mathlib.Core.Option
use mongod_proxy.Message.Defs.{Message}
use mongod_proxy.Operation.OpMsg.Defs.{OpMsgSection}
use mongod_proxy.Operation.Defs.{Operation}
use mongod_proxy.Prelude.{ℤ, length, ℕ, List, ◌∷◌, [], Option}

pub data RenderedSection (R : Type 0) : Type 0 where
  body : R → RenderedSection R
  document_sequence : Bytes → ℕ → List R → RenderedSection R

pub data RenderedOperation (R : Type 0) : Type 0 where
  query : OperationQuery R → RenderedOperation R
  message : OperationMessageFlags → List (RenderedSection R) → Option ℕ → RenderedOperation R
  reply : OperationReplyFlags → ℤ → ℤ → ℕ → List R → RenderedOperation R

pub record RenderedMessage (R : Type 0) : Type 0 where
  pub request_id : RequestId
  pub response_to : Option ResponseTo
  pub operation : RenderedOperation R

-- `view` is a document as its iteration by the `bson` crate shows it.
module _ {Document S : Type 0} (view : Document → Fields S) where
  unfoldable pub redacted_doc : Document → Entries S
  unfolding render_fields
  redacted_doc doc = render_fields (view doc)

  unfoldable pub redacted_docs : List Document → List (Entries S)
  unfolding redacted_doc
  redacted_docs [] = []
  redacted_docs (d ∷ ds) = redacted_doc d ∷ redacted_docs ds

  unfoldable pub debug_section : OpMsgSection Document → RenderedSection (Entries S)
  unfolding redacted_doc redacted_docs
  debug_section (OpMsgSection.body doc) = body (redacted_doc doc)
  debug_section (OpMsgSection.document_sequence identifier documents) =
      document_sequence identifier (length documents) (redacted_docs documents)

  unfoldable pub debug_sections : List (OpMsgSection Document) → List (RenderedSection (Entries S))
  unfolding debug_section
  debug_sections [] = []
  debug_sections (section ∷ sections) = debug_section section ∷ debug_sections sections

  unfoldable pub debug_query : OperationQuery Document → OperationQuery (Entries S)
  unfolding redacted_doc
  debug_query q = record {
    flags = q.flags;
    full_collection_name = q.full_collection_name;
    number_to_skip = q.number_to_skip;
    number_to_return = q.number_to_return;
    query = redacted_doc q.query;
    return_fields_selector = Option.map redacted_doc q.return_fields_selector;
  }

  unfoldable pub debug_operation : Operation Document → RenderedOperation (Entries S)
  unfolding debug_sections debug_query redacted_docs
  debug_operation (Operation.query q) = query (debug_query q)
  debug_operation (Operation.message m) = message m.flags (debug_sections m.sections) m.checksum
  debug_operation (Operation.reply p) =
      reply p.flags p.cursor_id p.starting_from (length p.documents) (redacted_docs p.documents)

  unfoldable pub debug_message : Message Document → RenderedMessage (Entries S)
  unfolding debug_operation
  debug_message m = record {
    request_id = m.request_id;
    response_to = m.response_to;
    operation = debug_operation m.operation;
  }
