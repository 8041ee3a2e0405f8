-- ===== src/Log/Discreet.antt =====
-- The log does not depend on the values that stand under sensitive keys.
use mongod_proxy.Redact.Told.{debug_message-AgreeMessage}
use mongod_proxy.Redact.Message.{debug_message}
use mathlib.Core.Option
use mathlib.Core.List.{head?}
use mongod_proxy.Redact.Alike.{AgreeSections, AgreeOperation}
use mongod_proxy.Log.Defs.{
  command, debug, trace, received_request, received_response, request_body, response_body,
  request_span, request_records, response_records, RequestSpan, Record,
}
use mongod_proxy.Bytes.Defs.{Bytes}
use mongod_proxy.Redact.Agree.{Agree}
use mongod_proxy.Bson.{Bson}
use mongod_proxy.Prelude.{
  unwrap_or, Result, Option, ◌++◌, out_of_fuel, err, ok, ap, sym, ◌∙◌, ◌≡◌, List, ◌∷◌, [], refl,
}
use mongod_proxy.Log.Defs.{
  RequestSpan, request_span, response_records, request_records, logged_stream, logged_reply, call,
}
use mongod_proxy.Message.Defs.{Message}
use mongod_proxy.Operation
use mongod_proxy.Operation.OpMsg
use mongod_proxy.Operation.Defs.{Operation}
use mongod_proxy.Operation.OpMsg.Defs.{OpMsgSection}
use mongod_proxy.Service.Defs.{Service, Item, value, failure}
use mongod_proxy.Redact.Defs.{Fields, no_fields, field}
use mongod_proxy.Redact.Alike.{AgreeOperation, AgreeDoc, AgreeMessage}

abbrev pub names : {S : Type 0} → Fields S → List Bytes
names no_fields = []
names (field key v fields) = key ∷ names fields

-- The keys of a document are those that its iteration shows.
abbrev pub KeysShown : (bson : Bson) {S : Type 0} → (bson.Document → Fields S) → Type 0
KeysShown bson view = (d : bson.Document) → bson.keys d ≡ names (view d)

names_same : {S : Type 0} (d e : Fields S) → Agree d e → names d ≡ names e
unfolding Agree
names_same no_fields no_fields h = refl
names_same no_fields (field j w e) h = absurd h
names_same (field k v d) no_fields h = absurd h
names_same (field k v d) (field j w e) h = rw (h.0, names_same d e h.2) refl

module _ (bson : Bson) {S : Type 0} (view : bson.Document → Fields S)
    (shown : KeysShown bson view) where
  open bson use {Document}

  keys_same : (d e : Document) → AgreeDoc view d e → bson.keys d ≡ bson.keys e
  keys_same d e h = shown d ∙ (names_same (view d) (view e) h ∙ sym (shown e))

  first_key_same :
      (xs ys : List (OpMsgSection Document))
      → AgreeSections view xs ys
      → Option.bind (OpMsg.Parse.find_body bson xs) (λ doc. head? (bson.keys doc))
        ≡ Option.bind (OpMsg.Parse.find_body bson ys) (λ doc. head? (bson.keys doc))
  unfolding OpMsg.Parse.find_body Option.bind
  first_key_same [] [] h = refl
  first_key_same [] (y ∷ ys) h = absurd h
  first_key_same (x ∷ xs) [] h = absurd h
  first_key_same (OpMsgSection.body d ∷ xs) (OpMsgSection.body e ∷ ys) (h, hs) =
      ap (λ (ks : List Bytes). head? ks) (keys_same d e h)
  first_key_same (OpMsgSection.body d ∷ xs) (OpMsgSection.document_sequence j es ∷ ys) (h, hs) =
      absurd h
  first_key_same (OpMsgSection.document_sequence i ds ∷ xs) (OpMsgSection.body e ∷ ys) (h, hs) =
      absurd h
  first_key_same (OpMsgSection.document_sequence i ds ∷ xs)
        (OpMsgSection.document_sequence j es ∷ ys) (h, hs) =
      first_key_same xs ys hs

  command_name_same :
      (x y : Operation Document)
      → AgreeOperation view x y
      → Operation.Defs.command_name bson x ≡ Operation.Defs.command_name bson y
  unfolding Operation.Defs.command_name OpMsg.Parse.command_name
  command_name_same (Operation.query p) (Operation.query q) h =
      ap (λ (ks : List Bytes). head? ks) (keys_same p.query q.query h.4)
  command_name_same (Operation.query p) (Operation.message n) h = absurd h
  command_name_same (Operation.query p) (Operation.reply q) h = absurd h
  command_name_same (Operation.message m) (Operation.query q) h = absurd h
  command_name_same (Operation.message m) (Operation.message n) h =
      first_key_same m.sections n.sections h.1
  command_name_same (Operation.message m) (Operation.reply q) h = absurd h
  command_name_same (Operation.reply p) (Operation.query q) h = absurd h
  command_name_same (Operation.reply p) (Operation.message n) h = absurd h
  command_name_same (Operation.reply p) (Operation.reply q) h = refl

  op_kind_same :
      (x y : Operation Document)
      → AgreeOperation view x y
      → Operation.Defs.op_kind x ≡ Operation.Defs.op_kind y
  unfolding Operation.Defs.op_kind
  op_kind_same (Operation.query p) (Operation.query q) h = refl
  op_kind_same (Operation.query p) (Operation.message n) h = absurd h
  op_kind_same (Operation.query p) (Operation.reply q) h = absurd h
  op_kind_same (Operation.message m) (Operation.query q) h = absurd h
  op_kind_same (Operation.message m) (Operation.message n) h = refl
  op_kind_same (Operation.message m) (Operation.reply q) h = absurd h
  op_kind_same (Operation.reply p) (Operation.query q) h = absurd h
  op_kind_same (Operation.reply p) (Operation.message n) h = absurd h
  op_kind_same (Operation.reply p) (Operation.reply q) h = refl

  -- What the records hold of a message is the same for messages that agree.
  module _ (m n : Message Document) (h : AgreeMessage view m n) where
    span_same : request_span bson view m ≡ request_span bson view n
    unfolding request_span
    span_same = λ i. record { request_id = h.0 i; op = op_kind_same m.operation n.operation h.2 i }

    kind_same : Operation.Defs.op_kind m.operation ≡ Operation.Defs.op_kind n.operation
    kind_same = op_kind_same m.operation n.operation h.2

    command_same : command bson view m.operation ≡ command bson view n.operation
    command_same =
        ap (λ (o : Option Bytes). unwrap_or [] o) (command_name_same m.operation n.operation h.2)

    debug_same : debug_message view m ≡ debug_message view n
    debug_same = (debug_message-AgreeMessage view m n).1 h

    request_same : request_records bson view m ≡ request_records bson view n
    unfolding request_records
    request_same = λ i.
        record {
          span = span_same i;
          level = debug;
          event = received_request (kind_same i) (command_same i) (h.0 i);
        }
        ∷ record { span = span_same i; level = trace; event = request_body (debug_same i) }
        ∷ []

    response_same :
        (span : RequestSpan) → response_records bson view span m ≡ response_records bson view span n
    unfolding response_records
    response_same span = λ i.
        record {
          span = span;
          level = debug;
          event = received_response (kind_same i) (command_same i) (h.1 i) (h.0 i);
        }
        ∷ record { span = span; level = trace; event = response_body (debug_same i) }
        ∷ []

  -- Items, and outcomes of a call, that hold messages that agree; errors are not logged.
  abbrev pub AgreeItems :
      {E : Type 0} → List (Item E (Message Document)) → List (Item E (Message Document)) → Type 0
  AgreeItems [] [] = Unit
  AgreeItems [] (y ∷ ys) = ⊥
  AgreeItems (x ∷ xs) [] = ⊥
  AgreeItems (value m ∷ xs) (value n ∷ ys) = AgreeMessage view m n × AgreeItems xs ys
  AgreeItems (value m ∷ xs) (failure e ∷ ys) = ⊥
  AgreeItems (failure e ∷ xs) (value n ∷ ys) = ⊥
  AgreeItems (failure e ∷ xs) (failure f ∷ ys) = AgreeItems xs ys

  abbrev pub AgreeReply :
      {E : Type 0}
      → Result E (List (Item E (Message Document)))
      → Result E (List (Item E (Message Document)))
      → Type 0
  AgreeReply (ok xs) (ok ys) = AgreeItems xs ys
  AgreeReply (err e) (err f) = Unit
  AgreeReply out_of_fuel out_of_fuel = Unit
  AgreeReply _ _ = ⊥

  stream_same :
      {E : Type 0} (span : RequestSpan) (xs ys : List (Item E (Message Document)))
      → AgreeItems xs ys
      → (logged_stream bson view span xs).1 ≡ (logged_stream bson view span ys).1
  unfolding logged_stream
  stream_same span [] [] h = refl
  stream_same span [] (y ∷ ys) h = absurd h
  stream_same span (x ∷ xs) [] h = absurd h
  stream_same span (value m ∷ xs) (value n ∷ ys) (h, hs) =
      λ i. response_same m n h span i ++ stream_same span xs ys hs i
  stream_same span (value m ∷ xs) (failure e ∷ ys) h = absurd h
  stream_same span (failure e ∷ xs) (value n ∷ ys) h = absurd h
  stream_same span (failure e ∷ xs) (failure f ∷ ys) h = stream_same span xs ys h

  reply_same :
      {E : Type 0} (span : RequestSpan) (x y : Result E (List (Item E (Message Document))))
      → AgreeReply x y
      → (logged_reply bson view span x).1 ≡ (logged_reply bson view span y).1
  unfolding logged_reply
  reply_same span (ok xs) (ok ys) h = stream_same span xs ys h
  reply_same span (ok xs) (err f) h = absurd h
  reply_same span (ok xs) out_of_fuel h = absurd h
  reply_same span (err e) (ok ys) h = absurd h
  reply_same span (err e) (err f) h = refl
  reply_same span (err e) out_of_fuel h = absurd h
  reply_same span out_of_fuel (ok ys) h = absurd h
  reply_same span out_of_fuel (err f) h = absurd h
  reply_same span out_of_fuel out_of_fuel h = refl

  -- When the keys of a document are those that its iteration shows, two calls of log layers, over
  -- two inner services, add the same records to the same log, at every level, if the requests
  -- agree in everything except the values that stand under sensitive keys, at any depth of
  -- documents and arrays but not in the scope of a JavaScript code, and the outcomes that the
  -- inner services give agree in the same way, whatever their errors are.
  pub call-AgreeMessage :
      {E : Type 0} (inner other : Service (Message Document) E) (s : inner.State) (t : other.State)
      (log : List (Record bson view)) (req req' : Message Document)
      → AgreeMessage view req req'
      → AgreeReply (inner.call s req).0 (other.call t req').0
      → (call bson view inner (s, log) req).1.1 ≡ (call bson view other (t, log) req').1.1
  unfolding call
  call-AgreeMessage inner other s t log req req' h k =
      λ i. log ++ (request_same req req' h i ++ records i)
    where
      records :
          (logged_reply bson view (request_span bson view req) (inner.call s req).0).1
          ≡ (logged_reply bson view (request_span bson view req') (other.call t req').0).1
      records =
          ap (λ (span : RequestSpan). (logged_reply bson view span (inner.call s req).0).1)
            (span_same req req' h)
          ∙ reply_same (request_span bson view req') (inner.call s req).0 (other.call t req').0 k
