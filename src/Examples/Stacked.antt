-- ===== src/Examples/Stacked.antt =====
-- A hello request through the layers of a connection, over documents of texts.
use mongod_proxy.Prelude.{◌≡◌, List, All, ◌∷◌, ok, [], true, refl, ◌∙◌}
use mongod_proxy.Bson.{Bson}
use mongod_proxy.Bson.Documents.{IsDocuments}
use mongod_proxy.Bytes.Text.{ascii}
use mongod_proxy.Examples.Explained.{reader}
use mongod_proxy.Examples.Fields.{Fields, text_bson, text_docs, text_docs-IsDocuments}
use mongod_proxy.Examples.Inspector.{with_body, hello}
use mongod_proxy.Explain.Layer.{ExplainService, handle_request, layer, forward}
use mongod_proxy.Explain.Transparent
use mongod_proxy.Hello.Defs
use mongod_proxy.Hello.Stripped.{IsStrippedOperation}
use mongod_proxy.Message.Defs.{Message}
use mongod_proxy.Proxy.Stack
use mongod_proxy.Proxy.Startup.{Proxy}
use mongod_proxy.Service.Defs.{value}
use mongod_proxy.Service.Upstream.{RequestError, ProxyClient}

-- The documents of `text_bson`, with a writer that succeeds.
abbrev pub sent_bson : Bson
sent_bson = record text_bson { to_writer = λ d. ok (5 ∷ 0 ∷ 0 ∷ 0 ∷ 0 ∷ []) }

laws : IsDocuments sent_bson text_docs
laws = record {
  get_empty = text_docs-IsDocuments.get_empty;
  get_insert = text_docs-IsDocuments.get_insert;
  get_remove = text_docs-IsDocuments.get_remove;
  get_entries = text_docs-IsDocuments.get_entries;
  keys_empty = text_docs-IsDocuments.keys_empty;
  keys_insert = text_docs-IsDocuments.keys_insert;
}

abbrev proxy : Proxy
proxy = record {
  target = record { host = ascii "h"; port = 27017 };
  tls = true;
  rewrite_hello = true;
}

-- An upstream that names itself and its replica set.
abbrev upstream : ProxyClient sent_bson
upstream = record {
  server_reader =
      value (with_body ((ascii "ok", ascii "1") ∷ (ascii "setName", ascii "rs") ∷ [])) ∷ [];
  server_writer = [];
}

abbrev fresh :
    ExplainService sent_bson text_docs reader
      (λ s. s)
      (RequestError sent_bson)
      (Stack.rewritten sent_bson text_docs reader (λ s. s) proxy)
fresh =
    layer sent_bson text_docs reader (λ s. s) (RequestError sent_bson)
      (Stack.rewritten sent_bson text_docs reader (λ s. s) proxy) upstream

abbrev answered : List (Message Fields)
answered = with_body ((ascii "ok", ascii "1") ∷ []) ∷ []

hello_named : mongod_proxy.Hello.Defs.is_hello_request sent_bson text_docs hello ≡ true
unfolding mongod_proxy.Hello.Defs.is_hello_request mongod_proxy.Operation.Defs.command_name
    mongod_proxy.Operation.OpMsg.Parse.command_name mathlib.Core.Option.bind
hello_named = refl

forwarded :
    (forward sent_bson text_docs reader
      (λ s. s)
      (RequestError sent_bson)
      (Stack.rewritten sent_bson text_docs reader (λ s. s) proxy)
      upstream
      hello).0
    ≡ ok answered
unfolding forward mongod_proxy.Explain.Layer.drained mongod_proxy.Explain.Layer.from_item
    mongod_proxy.Service.Defs.collect Defs.call Defs.rewrite_item
    mongod_proxy.Operation.Defs.command_name mongod_proxy.Operation.OpMsg.Parse.command_name
    mathlib.Core.Option.bind Defs.strip_topology_fields mongod_proxy.Examples.Fields.without
    mongod_proxy.Service.Upstream.call mongod_proxy.Message.Defs.encode
    mongod_proxy.Message.Defs.write_bytes mongod_proxy.Operation.Defs.write_bytes
    mongod_proxy.Operation.OpMsg.Frame.write_bytes mongod_proxy.Header.Length.checked_length
    mongod_proxy.Ids.MessageLength.try_new mongod_proxy.Service.Upstream.more_to_come
    mongod_proxy.Service.Upstream.after_poll mongod_proxy.Service.Upstream.poll_next
forwarded = refl

stack-IsStripped_example :
    All (λ (m : Message Fields). IsStrippedOperation sent_bson text_docs m.operation) answered
stack-IsStripped_example =
    Stack.stack-IsStripped sent_bson text_docs reader (λ s. s) laws proxy fresh hello answered refl
      hello_named
      ((Transparent.handle_request-forward sent_bson text_docs laws reader (λ s. s)
          (RequestError sent_bson) (Stack.rewritten sent_bson text_docs reader (λ s. s) proxy) fresh
          hello).0
        ∙ forwarded)
