-- ===== src/Explain/Recorded.antt =====
-- What the sink of src/serve/explain/layer.rs gets for one request.
use mongod_proxy.Bytes.Text.{ascii}
use mongod_proxy.Explain.Plan.{to_plan_node, i64_ms_to_duration}
use mongod_proxy.Explain.Model.Event.{
  server, negative_duration, inner_service, parse_failed, bad_namespace, ExplainError, ExplainEvent,
}
use mongod_proxy.Ids.ExplainRequestId.{ExplainRequestId}
use mongod_proxy.Explain.Classify.{classify}
use mongod_proxy.Explain.Model.Command.{Command}
use mongod_proxy.Message.Defs.{Message}
use mongod_proxy.Ids.{RequestId}
use mongod_proxy.Bson.{Bson}
use mongod_proxy.Bson.Documents.{Documents, IsDocuments}
use mongod_proxy.Bytes.Defs.{Bytes}
use mongod_proxy.Explain.Model.Namespace
use mongod_proxy.Explain.Layer.{
  extract_body, forward, record_event, Prepared, record_error, SinkCall, prepare, explain_phase,
  run_explain, sink_call, after_forward, ExplainService, into_event, raw_into_event, handle_request,
}
use mongod_proxy.Explain.Parse.{parse_reply_doc, ReplyReader, RawExplainReply}
use mongod_proxy.Explain.Transparent.{IsPrepared, prepare-IsPrepared}
use mongod_proxy.Service.Defs.{Service}
use mongod_proxy.Prelude.{
  ap, ok-same, map_err-eq-ok, All, ◌≤◌, map_err, ltb_ℤ, length, arith, ◌++◌, append-nil, ◌∙◌,
  Result, ◌≡◌, sym, Option, List, ◌∷◌, out_of_fuel, err, ok, pos, [], none, some, true, refl,
  >>=-eq-ok,
}

module _ (bson : Bson) (docs : Documents bson.Document) (laws : IsDocuments bson docs)
    (reader : ReplyReader bson.Document docs.Value bson.Error) (to_lowercase : Bytes → Bytes)
    (S : Type 0) where
  open bson use {Document, Error}

  -- The ids of an event are those of the two requests.
  abbrev HasIds : RequestId → Option ExplainRequestId → ExplainEvent Document → Type 0
  HasIds cid rid event = (event.client_request_id ≡ cid) × (event.explain_request_id ≡ rid)

  raw_into_event-HasIds :
      (command : Command) (raw : RawExplainReply Document) (cid : RequestId)
      (rid : Option ExplainRequestId) {event : ExplainEvent Document}
      → raw_into_event bson docs reader to_lowercase command raw cid rid ≡ ok event
      → HasIds cid rid event
  unfolding raw_into_event
  raw_into_event-HasIds command raw cid rid e =
      let (_, _, e1) = >>=-eq-ok (map_err bad_namespace (Namespace.parse raw.namespace)) _ e in
      let (_, _, e2) =
        >>=-eq-ok
          (map_err negative_duration
            (i64_ms_to_duration (ascii "executionTimeMillis") raw.execution_time_millis))
          _ e1 in
      let (_, _, e3) =
        >>=-eq-ok (to_plan_node Document Error to_lowercase raw.execution_stages 0) _ e2 in
      let same = ok-same e3 in
      (
        sym (ap (λ (x : ExplainEvent Document). x.client_request_id) same),
        sym (ap (λ (x : ExplainEvent Document). x.explain_request_id) same),
      )

  into_event-HasIds :
      (command : Command) (cid : RequestId) (rid : Option ExplainRequestId)
      (replies : List (Message Document)) {event : ExplainEvent Document}
      → into_event bson docs reader to_lowercase S command cid rid replies ≡ ok event
      → HasIds cid rid event
  unfolding into_event
  into_event-HasIds command cid rid replies e =
      let (body, _, e1) =
        >>=-eq-ok (map_err parse_failed (extract_body bson docs reader to_lowercase replies)) _ e in
      let (reply, _, e2) =
        >>=-eq-ok (map_err parse_failed (parse_reply_doc bson docs reader body)) _ e1 in
      let (raw, _, e3) = >>=-eq-ok (map_err server reply) _ e2 in
      raw_into_event-HasIds command raw cid rid (
        map_err-eq-ok parse_failed
          (raw_into_event bson docs reader to_lowercase command raw cid rid) e3)

  module _ (inner : Service (Message Document) S) where
    abbrev Handler : Type 0
    Handler = ExplainService bson docs reader to_lowercase S inner

    -- An event in the trace belongs to the request, and carries the id of its explain.
    abbrev pub IsCorrelated : RequestId → SinkCall Document S Error → Type 0
    IsCorrelated cid (record_error e) = Unit
    IsCorrelated cid (record_event event) =
        (event.client_request_id ≡ cid)
        × ((rid : ExplainRequestId) × (event.explain_request_id ≡ some rid)
            × (ltb_ℤ rid (pos 0) ≡ true))

    -- One call of the sink at most, behind those that it had.
    pub record IsRecorded (cid : RequestId) (old new : List (SinkCall Document S Error))
        : Type 0 where
      pub calls : List (SinkCall Document S Error)
      pub appended : new ≡ old ++ calls
      pub single : length calls ≤ 1
      pub correlated : All (IsCorrelated cid) calls

    unrecorded : (cid : RequestId) (old : List (SinkCall Document S Error)) → IsRecorded cid old old
    unrecorded cid old = record {
      calls = [];
      appended = sym (append-nil old);
      single = omega arith;
      correlated = tt;
    }

    sink_call-IsRecorded :
        (cid : RequestId) (old : List (SinkCall Document S Error))
        (r : Result (ExplainError S Error) (ExplainEvent Document))
        → ((event : ExplainEvent Document) → r ≡ ok event → IsCorrelated cid (record_event event))
        → IsRecorded cid old (old ++ sink_call bson docs reader to_lowercase S r)
    unfolding sink_call
    sink_call-IsRecorded cid old (ok event) h = record {
      calls = record_event event ∷ [];
      appended = refl;
      single = omega arith;
      correlated = (h event refl, tt);
    }
    sink_call-IsRecorded cid old (err e) h = record {
      calls = record_error e ∷ [];
      appended = refl;
      single = omega arith;
      correlated = (tt, tt);
    }
    sink_call-IsRecorded cid old out_of_fuel h = record {
      calls = [];
      appended = refl;
      single = omega arith;
      correlated = tt;
    }

    run_explain-IsCorrelated :
        (command : Command) (m : Message Document) (cid : RequestId) (rid : Option ExplainRequestId)
        (state : inner.State) (event : ExplainEvent Document)
        → (run_explain bson docs reader to_lowercase S inner command m cid rid state).0 ≡ ok event
        → HasIds cid rid event
    unfolding run_explain
    run_explain-IsCorrelated command m cid rid state event e =
        let (replies, _, e1) =
          >>=-eq-ok
            (map_err inner_service (forward bson docs reader to_lowercase S inner state m).0) _ e in
        into_event-HasIds command cid rid replies e1

    explain_phase-IsRecorded :
        (cid : RequestId) (p : Option (Prepared bson docs reader to_lowercase S)) (s : Handler)
        → IsPrepared bson docs laws reader to_lowercase S p
        → IsRecorded cid s.sink (explain_phase bson docs reader to_lowercase S inner cid p s).sink
    unfolding explain_phase
    explain_phase-IsRecorded cid none s h = unrecorded cid s.sink
    explain_phase-IsRecorded cid (some (command, (rid, err e))) s h =
        sink_call-IsRecorded cid s.sink (err e) (λ event k. cc)
    explain_phase-IsRecorded cid (some (command, (rid, out_of_fuel))) s h = unrecorded cid s.sink
    explain_phase-IsRecorded cid (some (command, (rid, ok m))) s (sideband, id) =
        sink_call-IsRecorded cid s.sink
          (run_explain bson docs reader to_lowercase S inner command m cid rid s.state).0
          (λ event k.
            let (client, own) = run_explain-IsCorrelated command m cid rid s.state event k in
            (client, (m.request_id, own ∙ id, sideband.negative)))

    after_forward-IsRecorded :
        (cid : RequestId) (p : Option (Prepared bson docs reader to_lowercase S))
        (r : Result S (List (Message Document))) (s : Handler)
        → IsPrepared bson docs laws reader to_lowercase S p
        → IsRecorded cid s.sink
            (after_forward bson docs reader to_lowercase S inner cid p r s).1.sink
    unfolding after_forward
    after_forward-IsRecorded cid p (ok replies) s h = explain_phase-IsRecorded cid p s h
    after_forward-IsRecorded cid p (err e) s h = unrecorded cid s.sink
    after_forward-IsRecorded cid p out_of_fuel s h = unrecorded cid s.sink

    -- Under the laws of documents, a request adds at most one call to the trace of the sink,
    -- behind those that stood there; an event in it carries the id of the client's request and a
    -- negative id as that of the explain.
    pub handle_request-IsRecorded :
        (s : Handler) (req : Message Document)
        → IsRecorded req.request_id s.sink
            (handle_request bson docs reader to_lowercase S inner s req).1.sink
    unfolding handle_request
    handle_request-IsRecorded s req =
        let prepared =
          prepare bson docs reader to_lowercase S (classify bson docs to_lowercase req)
            s.next_request_id in
        let got = forward bson docs reader to_lowercase S inner s.state req in
        after_forward-IsRecorded req.request_id prepared.0 got.0
          (record s { state = got.1; next_request_id = prepared.1 })
          (prepare-IsPrepared bson docs laws reader to_lowercase S
            (classify bson docs to_lowercase req) s.next_request_id)
