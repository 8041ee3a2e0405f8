-- ===== src/Hello/Defs.antt =====
-- `RewriteHelloLayer` of src/serve/rewrite_hello.rs, over any inner service. The stream that `call`
-- returns is the list of its items.
use mathlib.Core.List
use mongod_proxy.Bytes.Text.{ascii}
use mongod_proxy.Message.Defs.{Message}
use mongod_proxy.Prelude.{
  ◌&&◌, Result, if◌then◌else◌, Bool, List, ◌∷◌, out_of_fuel, err, ok, [], none, some, false,
}
use mongod_proxy.Bson.{Bson}
use mongod_proxy.Bson.Documents.{Documents}
use mongod_proxy.Bytes.Defs.{Bytes, one_of}
use mongod_proxy.Operation.OpMsg.Defs.{OpMsgSection, body, document_sequence}
use mongod_proxy.Operation.Defs.{message, Operation}
use mongod_proxy.Operation
use mongod_proxy.Service.Defs.{Item, value, failure, Service}

abbrev pub topology_discovery_fields : List Bytes
topology_discovery_fields =
    ascii "setName"
    ∷ ascii "setVersion"
    ∷ ascii "electionId"
    ∷ ascii "hosts"
    ∷ ascii "passives"
    ∷ ascii "arbiters"
    ∷ ascii "primary"
    ∷ ascii "me"
    ∷ ascii "secondary"
    ∷ ascii "arbiterOnly"
    ∷ ascii "passive"
    ∷ ascii "hidden"
    ∷ ascii "tags"
    ∷ ascii "lastWrite"
    ∷ ascii "topologyVersion"
    ∷ ascii "isreplicaset"
    ∷ []

module _ (bson : Bson) (docs : Documents bson.Document) where
  open bson use {Document}

  unfoldable pub remove_all : List Bytes → Document → Document
  remove_all [] doc = doc
  remove_all (field ∷ fields) doc = remove_all fields (docs.remove doc field)

  unfoldable pub strip_topology_fields : Document → Document
  unfolding remove_all
  strip_topology_fields doc = remove_all topology_discovery_fields doc

  unfoldable pub strip_section : OpMsgSection Document → OpMsgSection Document
  strip_section (body doc) = body (strip_topology_fields doc)
  strip_section (document_sequence identifier documents) = document_sequence identifier documents

  unfoldable pub strip_operation : Operation Document → Operation Document
  unfolding strip_section
  strip_operation (Operation.message m) =
      Operation.message (record m { sections = List.map strip_section m.sections })
  strip_operation (Operation.reply p) =
      Operation.reply (record p { documents = List.map strip_topology_fields p.documents })
  strip_operation (Operation.query q) = Operation.query q

  unfoldable pub strip_topology_from_message : Message Document → Message Document
  unfolding strip_operation
  strip_topology_from_message msg = record msg { operation = strip_operation msg.operation }

  unfoldable pub is_hello_request : Message Document → Bool
  unfolding one_of
  is_hello_request msg = elim (Operation.Defs.command_name bson msg.operation) [
    | none ↦ false
    | some name ↦ one_of name (ascii "hello" ∷ ascii "isMaster" ∷ ascii "ismaster" ∷ [])
  ]

  -- `poll_next`, at an item that the inner stream gives.
  unfoldable pub rewrite_item :
      {E : Type 0} → Bool → Item E (Message Document) → Item E (Message Document)
  unfolding strip_topology_from_message
  rewrite_item rewrite (failure e) = failure e
  rewrite_item rewrite (value msg) =
      value (if rewrite then strip_topology_from_message msg else msg)

  module _ {E : Type 0} (inner : Service (Message Document) E) (enabled : Bool) where
    open inner use {State}

    abbrev pub rewriting :
        Bool
        → Result E (List (Item E (Message Document))) × State
        → Result E (List (Item E (Message Document))) × State
    rewriting rewrite (ok items, state) = (ok (List.map (rewrite_item rewrite) items), state)
    rewriting rewrite (err e, state) = (err e, state)
    rewriting rewrite (out_of_fuel, state) = (out_of_fuel, state)

    unfoldable pub call :
        State → Message Document → Result E (List (Item E (Message Document))) × State
    unfolding is_hello_request
    call state req = rewriting (enabled && is_hello_request req) (inner.call state req)

    abbrev pub rewrite_hello_service : Service (Message Document) E
    rewrite_hello_service = record { State = State; call = call }
