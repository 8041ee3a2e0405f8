-- ===== src/Examples/Inspector.antt =====
-- The layers and the logs at concrete inputs, over documents of texts.
use mongod_proxy.Hello.Stripped.{IsStrippedItem}
use mongod_proxy.Hello.Defs.{is_hello_request}
use mongod_proxy.Prelude.{
  ◌+◌, ◌&&◌, ◌≡◌, List, All, ℕ, ◌∷◌, ok, negsuc, pos, [], none, false, true, refl,
}
use mongod_proxy.Bytes.Defs.{Bytes}
use mongod_proxy.Bytes.Text.{ascii}
use mongod_proxy.Examples.Fields.{Fields, text_bson, text_docs, text_docs-IsDocuments}
use mongod_proxy.Explain.Build.{build_explain, built, inner_command, op_identifier, explain_message}
use mongod_proxy.Explain.Classify.{ClassifiedRequest}
use mongod_proxy.Explain.Envelope
use mongod_proxy.Explain.Envelope.{IsExplain}
use mongod_proxy.Explain.Model.Command
use mongod_proxy.Hello.Defs
use mongod_proxy.Hello.Stripped
use mongod_proxy.Message.Defs.{Message}
use mongod_proxy.Operation
use mongod_proxy.Operation.OpMsg.Defs.{OpMsgSection}
use mongod_proxy.Service.Defs.{Service, Item, value}

-- An OP_MSG with one body.
abbrev pub with_body : Fields → Message Fields
with_body doc = record {
  request_id = pos 5;
  response_to = none;
  operation = Operation.Defs.message (record {
    flags = record { checksum_present = false; more_to_come = false; exhaust_allowed = false };
    sections = OpMsgSection.body doc ∷ [];
    checksum = none;
  });
}

-- A server that counts its requests, and answers each with one document.
abbrev pub member : Service (Message Fields) Bytes
member = record {
  State = ℕ;
  call = λ n req. (
    ok (value (with_body ((ascii "ok", ascii "1") ∷ (ascii "setName", ascii "rs") ∷ [])) ∷ []),
    n + 1,
  );
}

abbrev pub hello : Message Fields
hello = with_body ((ascii "hello", ascii "1") ∷ [])

abbrev ping : Message Fields
ping = with_body ((ascii "ping", ascii "1") ∷ [])

hello_named : is_hello_request text_bson text_docs hello ≡ true
unfolding is_hello_request Operation.Defs.command_name
    mongod_proxy.Operation.OpMsg.Parse.command_name mathlib.Core.Option.bind
hello_named = refl

ping_named : true && is_hello_request text_bson text_docs ping ≡ false
unfolding is_hello_request Operation.Defs.command_name
    mongod_proxy.Operation.OpMsg.Parse.command_name mathlib.Core.Option.bind
ping_named = refl

abbrev hidden : List (Item Bytes (Message Fields))
hidden = value (with_body ((ascii "ok", ascii "1") ∷ [])) ∷ []

hello_called : (Defs.call text_bson text_docs member true 0 hello).0 ≡ ok hidden
unfolding Defs.call Defs.rewrite_item mongod_proxy.Operation.Defs.command_name
    mongod_proxy.Operation.OpMsg.Parse.command_name mathlib.Core.Option.bind
    Defs.strip_topology_fields mongod_proxy.Examples.Fields.without
hello_called = refl

call-IsStripped_example : All (IsStrippedItem text_bson text_docs) hidden
call-IsStripped_example =
    Stripped.call-IsStripped text_bson text_docs member text_docs-IsDocuments 0 hello hidden
      hello_named hello_called

abbrev deletion : ClassifiedRequest Fields
deletion = record {
  command = Command.delete;
  database = record { database_name = ascii "db" };
  body = (ascii "delete", ascii "c") ∷ (ascii "lsid", ascii "1") ∷ (ascii "$db", ascii "db") ∷ [];
  doc_sequences =
      OpMsgSection.document_sequence (ascii "deletes") (((ascii "q", ascii "x") ∷ []) ∷ []) ∷ [];
}

deletion_built :
    build_explain text_bson text_docs deletion (negsuc 1)
    ≡ built (explain_message text_bson text_docs deletion (negsuc 1))
unfolding build_explain
deletion_built = refl

build_explain-IsExplain_example :
    IsExplain text_bson text_docs text_docs-IsDocuments
      (explain_message text_bson text_docs deletion (negsuc 1))
      (negsuc 1)
      (λ s. s)
build_explain-IsExplain_example =
    Envelope.build_explain-IsExplain text_bson text_docs text_docs-IsDocuments (λ s. s) deletion
      (negsuc 1) (explain_message text_bson text_docs deletion (negsuc 1)) deletion_built

get-inner_command_example :
    text_docs.get (inner_command text_bson text_docs deletion) (ascii "lsid")
    ≡ Envelope.op_field text_bson text_docs text_docs-IsDocuments
        (op_identifier Command.delete)
        (Envelope.op_of text_bson text_docs text_docs-IsDocuments
          (op_identifier Command.delete)
          deletion.doc_sequences)
        (ascii "lsid")
        (Envelope.inner_field text_bson text_docs text_docs-IsDocuments deletion (ascii "lsid"))
get-inner_command_example =
    Envelope.get-inner_command text_bson text_docs text_docs-IsDocuments deletion (ascii "lsid")
