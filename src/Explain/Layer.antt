-- ===== src/Explain/Layer.antt =====
-- `ExplainLayer` of src/serve/explain/layer.rs over any inner service. The sink is the trace of the
-- calls that it got; `tracing` has no counterpart.
use mongod_proxy.Bytes.Text.{ascii}
use mongod_proxy.Ids.{RequestId}
use mongod_proxy.Message.Defs.{Message}
use mongod_proxy.Ids.ExplainRequestId.{ExplainRequestId}
use mongod_proxy.Prelude.{
  ℤ, map_err, ok_or, ◌++◌, Option, List, Result, ◌∷◌, out_of_fuel, err, ok, [], none, some, ◌>>=◌,
}
use mongod_proxy.Bson.{Bson}
use mongod_proxy.Bson.Documents.{Documents}
use mongod_proxy.Bytes.Defs.{Bytes}
use mongod_proxy.Explain.Build.{unsupported_shape, built, BuildExplainOutcome, build_explain}
use mongod_proxy.Explain.Classify.{ClassifiedRequest, classify}
use mongod_proxy.Explain.Model.Command.{Command}
use mongod_proxy.Explain.Model.Event.{
  unsupported, negative_duration, server, id_space_exhausted, parse_failed, inner_service,
  bad_namespace, missing_body, ExplainEvent, ExplainError, ExplainParseError,
}
use mongod_proxy.Explain.Model.Namespace
use mongod_proxy.Explain.Parse.{ReplyReader, RawExplainReply, parse_reply_doc}
use mongod_proxy.Explain.Plan.{to_plan_node, i64_ms_to_duration}
use mongod_proxy.Explain.RequestId.{RequestIdExhausted, alloc_request_id, seed}
use mongod_proxy.Operation.Defs.{Operation}
use mongod_proxy.Operation.OpMsg
use mongod_proxy.Service.Defs.{values, Item, value, failure, Service, collect}

pub data SinkCall (Document S E : Type 0) : Type 0 where
  record_event : ExplainEvent Document → SinkCall Document S E
  record_error : ExplainError S E → SinkCall Document S E

module _ (bson : Bson) (docs : Documents bson.Document)
    (reader : ReplyReader bson.Document docs.Value bson.Error) (to_lowercase : Bytes → Bytes) where
  open bson use {Document, Error}

  unfoldable pub body_of : Operation Document → Result (ExplainParseError Error) Document
  body_of (Operation.message m) = ok_or (OpMsg.Parse.find_body bson m.sections) missing_body
  body_of (Operation.query q) = err missing_body
  body_of (Operation.reply p) = err missing_body

  unfoldable pub extract_body : List (Message Document) → Result (ExplainParseError Error) Document
  unfolding body_of
  extract_body [] = err missing_body
  extract_body (first ∷ others) = body_of first.operation

  unfoldable pub raw_into_event :
      Command
      → RawExplainReply Document
      → RequestId
      → Option ExplainRequestId
      → Result (ExplainParseError Error) (ExplainEvent Document)
  unfolding Namespace.parse i64_ms_to_duration to_plan_node
  raw_into_event command raw client_request_id explain_request_id = do
    namespace ← map_err bad_namespace (Namespace.parse raw.namespace)
    execution_time ←
        map_err negative_duration
          (i64_ms_to_duration (ascii "executionTimeMillis") raw.execution_time_millis)
    plan ← to_plan_node Document Error to_lowercase raw.execution_stages 0
    ok (record {
      command = command;
      namespace = namespace;
      total = record {
        n_returned = raw.n_returned;
        docs_examined = raw.total_docs_examined;
        keys_examined = raw.total_keys_examined;
        execution_time = execution_time;
      };
      plan = plan;
      client_request_id = client_request_id;
      explain_request_id = explain_request_id;
    })

  module _ (S : Type 0) where
    -- What the replies to an explain come to.
    unfoldable pub into_event :
        Command
        → RequestId
        → Option ExplainRequestId
        → List (Message Document)
        → Result (ExplainError S Error) (ExplainEvent Document)
    unfolding extract_body raw_into_event
    into_event command client_request_id explain_request_id replies = do
      body ← map_err parse_failed (extract_body replies)
      reply ← map_err parse_failed (parse_reply_doc bson docs reader body)
      raw ← map_err server reply
      map_err parse_failed (raw_into_event command raw client_request_id explain_request_id)

    abbrev pub Prepared : Type 0
    Prepared =
        Command × (Option ExplainRequestId × Result (ExplainError S Error) (Message Document))

    unfoldable pub built_with :
        ExplainRequestId
        → BuildExplainOutcome Document
        → Option ExplainRequestId × Result (ExplainError S Error) (Message Document)
    built_with rid (built msg) = (some rid, ok msg)
    built_with rid (unsupported_shape r) = (some rid, err (unsupported r))

    unfoldable pub allocated :
        ClassifiedRequest Document
        → Result RequestIdExhausted ExplainRequestId
        → Option ExplainRequestId × Result (ExplainError S Error) (Message Document)
    unfolding built_with
    allocated plan (ok rid) = built_with rid (build_explain bson docs plan rid)
    allocated plan (err e) = (none, err (id_space_exhausted e))
    allocated plan out_of_fuel = (none, out_of_fuel)

    -- Phase 1, with what the counter holds behind it.
    unfoldable pub prepare : Option (ClassifiedRequest Document) → ℤ → Option Prepared × ℤ
    unfolding allocated
    prepare none counter = (none, counter)
    prepare (some plan) counter =
        let (r, next) = alloc_request_id counter in (some (plan.command, allocated plan r), next)

    unfoldable pub sink_call :
        Result (ExplainError S Error) (ExplainEvent Document) → List (SinkCall Document S Error)
    sink_call (ok event) = record_event event ∷ []
    sink_call (err e) = record_error e ∷ []
    sink_call out_of_fuel = []

    unfoldable pub from_item : Item S (List (Message Document)) → Result S (List (Message Document))
    from_item (value replies) = ok replies
    from_item (failure e) = err e

    -- `inner.call(..).await?` and `drain_stream(stream).await?`.
    unfoldable pub drained :
        Result S (List (Item S (Message Document))) → Result S (List (Message Document))
    unfolding from_item
    drained (ok items) = from_item (collect [] items)
    drained (err e) = err e
    drained out_of_fuel = out_of_fuel

    module _ (inner : Service (Message Document) S) where
      open inner use {State}

      pub record ExplainService : Type 0 where
        pub state : State
        pub next_request_id : ℤ
        pub sink : List (SinkCall Document S Error)

      unfoldable pub forward : State → Message Document → Result S (List (Message Document)) × State
      unfolding drained
      forward state req = let (r, next) = inner.call state req in (drained r, next)

      unfoldable pub run_explain :
          Command
          → Message Document
          → RequestId
          → Option ExplainRequestId
          → State
          → Result (ExplainError S Error) (ExplainEvent Document) × State
      unfolding forward into_event
      run_explain command explain_msg client_request_id explain_request_id state =
          let (r, next) = forward state explain_msg in
          (
            map_err inner_service r >>= into_event command client_request_id explain_request_id,
            next,
          )

      -- Phase 3, which never changes the replies.
      unfoldable pub explain_phase : RequestId → Option Prepared → ExplainService → ExplainService
      unfolding run_explain sink_call
      explain_phase client_request_id none s = s
      explain_phase client_request_id (some (command, (rid, err e))) s = record s {
        sink = s.sink ++ sink_call (err e);
      }
      explain_phase client_request_id (some (command, (rid, out_of_fuel))) s = s
      explain_phase client_request_id (some (command, (rid, ok explain_msg))) s =
          let (result, next) = run_explain command explain_msg client_request_id rid s.state in
          record s { state = next; sink = s.sink ++ sink_call result }

      unfoldable pub after_forward :
          RequestId
          → Option Prepared
          → Result S (List (Message Document))
          → ExplainService
          → Result S (List (Message Document)) × ExplainService
      unfolding explain_phase
      after_forward client_request_id prepared (ok replies) s =
          (ok replies, explain_phase client_request_id prepared s)
      after_forward client_request_id prepared (err e) s = (err e, s)
      after_forward client_request_id prepared out_of_fuel s = (out_of_fuel, s)

      unfoldable pub handle_request :
          ExplainService → Message Document → Result S (List (Message Document)) × ExplainService
      unfolding prepare forward after_forward
      handle_request s req =
          let (prepared, counter) =
            prepare (classify bson docs to_lowercase req) s.next_request_id in
          let (replies, next) = forward s.state req in
          after_forward req.request_id prepared replies
            (record s { state = next; next_request_id = counter })

      -- `ReplayStream` replays the buffered replies.
      unfoldable pub call :
          ExplainService
          → Message Document
          → Result S (List (Item S (Message Document))) × ExplainService
      unfolding handle_request
      call s req =
          let (r, next) = handle_request s req in ((do replies ← r; ok (values replies)), next)

      abbrev pub explain_service : Service (Message Document) S
      explain_service = record { State = ExplainService; call = call }

      -- `ExplainLayer::layer`, one per connection.
      abbrev pub layer : State → ExplainService
      layer state = record { state = state; next_request_id = seed; sink = [] }
