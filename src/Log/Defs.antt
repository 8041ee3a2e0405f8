-- ===== src/Log/Defs.antt =====
-- `LogService` and `LoggedStream` of src/serve/log.rs, with the records that they give to `tracing` as
-- a list in their order; which of them a subscriber keeps is up to its level.
use mongod_proxy.Operation.Defs.{Operation}
use mongod_proxy.Redact.Message.{debug_message, RenderedMessage}
use mongod_proxy.Ids.{ResponseTo, RequestId}
use mongod_proxy.Bytes.Defs.{Bytes}
use mongod_proxy.Bson.{Bson}
use mongod_proxy.Prelude.{◌++◌, unwrap_or, List, Result, Option, ◌∷◌, out_of_fuel, err, ok, []}
use mongod_proxy.Message.Defs.{Message}
use mongod_proxy.Operation
use mongod_proxy.Redact.Defs.{Entries, Fields}
use mongod_proxy.Service.Defs.{Service, Item, value, failure}

pub data Level : Type 0 where
  debug : Level
  trace : Level

-- The span of a request, which all its records carry.
pub record RequestSpan : Type 0 where
  pub request_id : RequestId
  pub op : Bytes

-- The fields of a record; `R` is a rendered document.
pub data LogEvent (R : Type 0) : Type 0 where
  received_request : Bytes → Bytes → RequestId → LogEvent R
  request_body : RenderedMessage R → LogEvent R
  received_response : Bytes → Bytes → Option ResponseTo → RequestId → LogEvent R
  response_body : RenderedMessage R → LogEvent R

pub record LogRecord (R : Type 0) : Type 0 where
  pub span : RequestSpan
  pub level : Level
  pub event : LogEvent R

module _ (bson : Bson) {S : Type 0} (view : bson.Document → Fields S) where
  open bson use {Document}

  abbrev pub Record : Type 0
  Record = LogRecord (Entries S)

  -- `command_name().unwrap_or("")`.
  abbrev pub command : Operation Document → Bytes
  command operation = unwrap_or [] (Operation.Defs.command_name bson operation)

  unfoldable pub request_span : Message Document → RequestSpan
  unfolding Operation.Defs.op_kind
  request_span req = record {
    request_id = req.request_id;
    op = Operation.Defs.op_kind req.operation;
  }

  unfoldable pub request_records : Message Document → List Record
  unfolding request_span Operation.Defs.op_kind Operation.Defs.command_name debug_message
  request_records req =
      record {
        span = request_span req;
        level = debug;
        event =
            received_request (Operation.Defs.op_kind req.operation) (command req.operation)
              req.request_id;
      }
      ∷ record {
        span = request_span req;
        level = trace;
        event = request_body (debug_message view req);
      }
      ∷ []

  unfoldable pub response_records : RequestSpan → Message Document → List Record
  unfolding Operation.Defs.op_kind Operation.Defs.command_name debug_message
  response_records span message =
      record {
        span = span;
        level = debug;
        event =
            received_response (Operation.Defs.op_kind message.operation) (command message.operation)
              message.response_to message.request_id;
      }
      ∷ record { span = span; level = trace; event = response_body (debug_message view message) }
      ∷ []

  module _ {E : Type 0} where
    -- `LoggedStream::poll_next` until the stream ends: what it yields, and the records.
    unfoldable pub logged_stream :
        RequestSpan
        → List (Item E (Message Document))
        → List (Item E (Message Document)) × List Record
    unfolding response_records
    logged_stream span [] = ([], [])
    logged_stream span (value message ∷ items) =
        let (yielded, records) = logged_stream span items in
        (value message ∷ yielded, response_records span message ++ records)
    logged_stream span (failure e ∷ items) =
        let (yielded, records) = logged_stream span items in (failure e ∷ yielded, records)

    unfoldable pub logged_reply :
        RequestSpan
        → Result E (List (Item E (Message Document)))
        → Result E (List (Item E (Message Document))) × List Record
    unfolding logged_stream
    logged_reply span (ok items) =
        let (yielded, records) = logged_stream span items in (ok yielded, records)
    logged_reply span (err e) = (err e, [])
    logged_reply span out_of_fuel = (out_of_fuel, [])

    module _ (inner : Service (Message Document) E) where
      unfoldable pub call :
          inner.State × List Record
          → Message Document
          → Result E (List (Item E (Message Document))) × (inner.State × List Record)
      unfolding request_span request_records logged_reply
      call (state, log) req =
          let (reply, next) = inner.call state req in
          let (logged, records) = logged_reply (request_span req) reply in
          (logged, (next, log ++ (request_records req ++ records)))

      abbrev pub log_service : Service (Message Document) E
      log_service = record { State = inner.State × List Record; call = call }
