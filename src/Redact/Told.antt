-- ===== src/Redact/Told.antt =====
-- The `Debug` of a whole message tells everything but what stands under sensitive keys.
use mongod_proxy.Prelude.{ap, ◌↔◌, ◌≡◌}
use mongod_proxy.Operation.OpQuery.Defs.{OperationQuery}
use mongod_proxy.Redact.Defs.{Entries, Fields}
use mongod_proxy.Operation.Defs.{Operation}
use mongod_proxy.Redact.Message.{
  RenderedMessage, debug_message, debug_query, debug_operation, query, message, reply,
}
use mongod_proxy.Message.Defs.{Message}
use mongod_proxy.Redact.Alike.{
  docs_same, length_same, option_told, docs_told, sections_same, option_same, doc_iff,
  sections_told, AgreeOperation, AgreeMessage, AgreeQuery,
}

module _ {Document S : Type 0} (view : Document → Fields S) where
  query_told :
      (p q : OperationQuery Document)
      → debug_query view p ≡ debug_query view q
      → AgreeQuery view p q
  unfolding debug_query
  query_told p q h = (
    ap (λ (r : OperationQuery (Entries S)). r.flags) h,
    ap (λ (r : OperationQuery (Entries S)). r.full_collection_name) h,
    ap (λ (r : OperationQuery (Entries S)). r.number_to_skip) h,
    ap (λ (r : OperationQuery (Entries S)). r.number_to_return) h,
    (doc_iff view p.query q.query).0 (ap (λ (r : OperationQuery (Entries S)). r.query) h),
    option_told view p.return_fields_selector q.return_fields_selector
        (ap (λ (r : OperationQuery (Entries S)). r.return_fields_selector) h),
  )

  query_same :
      (p q : OperationQuery Document)
      → AgreeQuery view p q
      → debug_query view p ≡ debug_query view q
  unfolding debug_query
  query_same p q (flags, name, skip, count, doc, selector) = λ i. record {
    flags = flags i;
    full_collection_name = name i;
    number_to_skip = skip i;
    number_to_return = count i;
    query = (doc_iff view p.query q.query).1 doc i;
    return_fields_selector =
        option_same view p.return_fields_selector q.return_fields_selector selector i;
  }

  operation_told :
      (x y : Operation Document)
      → debug_operation view x ≡ debug_operation view y
      → AgreeOperation view x y
  unfolding debug_operation
  operation_told (Operation.query p) (Operation.query q) h = query_told p q cc
  operation_told (Operation.query p) (Operation.message n) h = cc
  operation_told (Operation.query p) (Operation.reply q) h = cc
  operation_told (Operation.message m) (Operation.query q) h = cc
  operation_told (Operation.message m) (Operation.message n) h =
      (cc, sections_told view m.sections n.sections cc, cc)
  operation_told (Operation.message m) (Operation.reply q) h = cc
  operation_told (Operation.reply p) (Operation.query q) h = cc
  operation_told (Operation.reply p) (Operation.message n) h = cc
  operation_told (Operation.reply p) (Operation.reply q) h =
      (cc, cc, cc, docs_told view p.documents q.documents cc)

  operation_same :
      (x y : Operation Document)
      → AgreeOperation view x y
      → debug_operation view x ≡ debug_operation view y
  unfolding debug_operation
  operation_same (Operation.query p) (Operation.query q) h = ap (λ r. query r) (query_same p q h)
  operation_same (Operation.query p) (Operation.message n) h = absurd h
  operation_same (Operation.query p) (Operation.reply q) h = absurd h
  operation_same (Operation.message m) (Operation.query q) h = absurd h
  operation_same (Operation.message m) (Operation.message n) (flags, sections, checksum) =
      λ i. message (flags i) (sections_same view m.sections n.sections sections i) (checksum i)
  operation_same (Operation.message m) (Operation.reply q) h = absurd h
  operation_same (Operation.reply p) (Operation.query q) h = absurd h
  operation_same (Operation.reply p) (Operation.message n) h = absurd h
  operation_same (Operation.reply p) (Operation.reply q) (flags, cursor, start, docs) = λ i.
      reply (flags i) (cursor i) (start i) (length_same view p.documents q.documents docs i)
        (docs_same view p.documents q.documents docs i)

  -- Two messages have the same `Debug` exactly when they agree in everything except the values
  -- that stand under sensitive keys of their documents, at any depth of documents and arrays but
  -- not in the scope of a JavaScript code.
  pub debug_message-AgreeMessage :
      (m n : Message Document)
      → (debug_message view m ≡ debug_message view n) ↔ AgreeMessage view m n
  unfolding debug_message
  debug_message-AgreeMessage m n = (
    λ h. (
      ap (λ (r : RenderedMessage (Entries S)). r.request_id) h,
      ap (λ (r : RenderedMessage (Entries S)). r.response_to) h,
      operation_told m.operation n.operation
          (ap (λ (r : RenderedMessage (Entries S)). r.operation) h),
    ),
    λ (id, to, op). λ i. record {
      request_id = id i;
      response_to = to i;
      operation = operation_same m.operation n.operation op i;
    },
  )
