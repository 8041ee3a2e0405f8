-- ===== src/Log/Transparent.antt =====
-- A client is served in the same way with the log layer and without it.
use mongod_proxy.Bytes.Defs.{Bytes}
use mongod_proxy.Service.Accept.{
  AcceptError, forward_replies, after_replies, accept_client_inner, Served, after_call,
}
use mongod_proxy.Bson.{Bson}
use mongod_proxy.Prelude.{◌∙◌, ap, ◌≡◌, Result, List, ◌∷◌, out_of_fuel, err, ok, [], refl}
use mongod_proxy.Log.Defs
use mongod_proxy.Message.Defs.{Message}
use mongod_proxy.Service.Defs.{Service, Item, value, failure}
use mongod_proxy.Redact.Defs.{Fields}
use mongod_proxy.Log.Defs.{
  request_span, RequestSpan, log_service, logged_stream, logged_reply, call,
}

module _ (bson : Bson) {S : Type 0} (view : bson.Document → Fields S) {E : Type 0} where
  open bson use {Document}

  logged_stream_same :
      (span : RequestSpan) (items : List (Item E (Message Document)))
      → (logged_stream bson view span items).0 ≡ items
  unfolding logged_stream
  logged_stream_same span [] = refl
  logged_stream_same span (value message ∷ items) =
      ap (λ (l : List (Item E (Message Document))). value message ∷ l)
        (logged_stream_same span items)
  logged_stream_same span (failure e ∷ items) =
      ap (λ (l : List (Item E (Message Document))). failure e ∷ l) (logged_stream_same span items)

  logged_reply_same :
      (span : RequestSpan) (r : Result E (List (Item E (Message Document))))
      → (logged_reply bson view span r).0 ≡ r
  unfolding logged_reply
  logged_reply_same span (ok items) = ap (λ l. ok l) (logged_stream_same span items)
  logged_reply_same span (err e) = refl
  logged_reply_same span out_of_fuel = refl

  module _ (D : Type 0) (inner : Service (Message Document) E) where
    -- The outcome without what the log adds to the state of the service.
    abbrev pub unlogged : Served bson D E (log_service bson view inner) → Served bson D E inner
    unlogged (r, ((state, log), written)) = (r, (state, written))

    abbrev logged_loop :
        List (Item D (Message Document))
        → inner.State × List (Defs.Record bson view)
        → Bytes
        → Served bson D E (log_service bson view inner)
    logged_loop reqs = accept_client_inner bson D E (log_service bson view inner) reqs

    abbrev plain_loop :
        List (Item D (Message Document)) → inner.State → Bytes → Served bson D E inner
    plain_loop reqs = accept_client_inner bson D E inner reqs

    abbrev IsSame : List (Item D (Message Document)) → Type 0
    IsSame reqs =
        (state : inner.State) (log : List (Defs.Record bson view)) (written : Bytes)
        → unlogged (logged_loop reqs (state, log) written) ≡ plain_loop reqs state written

    after_replies_same :
        (reqs : List (Item D (Message Document)))
        → IsSame reqs
        → (state : inner.State) (log : List (Defs.Record bson view))
          (sent : Result (AcceptError bson D E) (Unit {0}) × Bytes)
        → unlogged (
            after_replies bson D E
              (log_service bson view inner)
              (logged_loop reqs)
              (state, log)
              sent)
          ≡ after_replies bson D E inner (plain_loop reqs) state sent
    unfolding after_replies
    after_replies_same reqs ih state log (ok u, written) = ih state log written
    after_replies_same reqs ih state log (err e, written) = refl
    after_replies_same reqs ih state log (out_of_fuel, written) = refl

    after_call_same :
        (reqs : List (Item D (Message Document)))
        → IsSame reqs
        → (r : Result E (List (Item E (Message Document)))) (state : inner.State)
          (log : List (Defs.Record bson view)) (written : Bytes)
        → unlogged (
            after_call bson D E
              (log_service bson view inner)
              (logged_loop reqs)
              (r, (state, log))
              written)
          ≡ after_call bson D E inner (plain_loop reqs) (r, state) written
    unfolding after_call
    after_call_same reqs ih (ok items) state log written =
        after_replies_same reqs ih state log (forward_replies bson D E items written)
    after_call_same reqs ih (err e) state log written = refl
    after_call_same reqs ih out_of_fuel state log written = refl

    -- Serving a client through the log layer gives the same outcome, the same state of the
    -- service and the same bytes to the client as serving it without that layer.
    pub accept_client_inner-log_service :
        (reqs : List (Item D (Message Document))) (state : inner.State)
        (log : List (Defs.Record bson view)) (written : Bytes)
        → unlogged
            (accept_client_inner bson D E (log_service bson view inner) reqs (state, log) written)
          ≡ accept_client_inner bson D E inner reqs state written
    unfolding accept_client_inner call
    accept_client_inner-log_service [] state log written = refl
    accept_client_inner-log_service (failure e ∷ reqs) state log written = refl
    accept_client_inner-log_service (value req ∷ reqs) state log written =
        let log' = (call bson view inner (state, log) req).1.1 in
        ap
          (λ (r : Result E (List (Item E (Message Document)))). unlogged (
            after_call bson D E (log_service bson view inner) (logged_loop reqs)
              (r, ((inner.call state req).1, log')) written))
          (logged_reply_same (request_span bson view req) (inner.call state req).0)
        ∙ after_call_same reqs (accept_client_inner-log_service reqs) (inner.call state req).0
            (inner.call state req).1 log' written
