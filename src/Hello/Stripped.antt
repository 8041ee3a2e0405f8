-- ===== src/Hello/Stripped.antt =====
-- What a driver can see of a reply behind the layer of src/serve/rewrite_hello.rs.
use mongod_proxy.Message.Defs.{Message}
use mongod_proxy.Prelude.{
  err-ne-ok, ok-same, Result, arith, subst, out_of_fuel, err, if◌then◌else◌, ap, ◌&&◌, ◌≡◌, Bool,
  ◌∙◌, All, List, ◌∷◌, ok, [], none, false, true, refl,
}
use mongod_proxy.Bson.{Bson}
use mathlib.Core.List
use mongod_proxy.Bson.Documents.{Documents, IsDocuments}
use mongod_proxy.Bytes.Defs.{Bytes, one_of}
use mongod_proxy.Operation.OpMsg.Defs.{OpMsgSection, body, document_sequence}
use mongod_proxy.Operation.Defs.{Operation}
use mongod_proxy.Service.Defs.{Item, value, failure, Service}
use mongod_proxy.Hello.Defs.{
  rewriting, is_hello_request, strip_topology_from_message, strip_topology_fields,
  topology_discovery_fields, strip_operation, remove_all, strip_section, rewrite_item, call,
}

module _ (bson : Bson) (docs : Documents bson.Document) where
  open bson use {Document}

  -- No lookup finds a field that a driver reads the topology from.
  abbrev pub IsStripped : Document → Type 0
  IsStripped doc = (k : Bytes) → one_of k topology_discovery_fields ≡ true → docs.get doc k ≡ none

  abbrev pub IsStrippedSection : OpMsgSection Document → Type 0
  IsStrippedSection (body doc) = IsStripped doc
  IsStrippedSection (document_sequence identifier documents) = Unit

  abbrev pub IsStrippedOperation : Operation Document → Type 0
  IsStrippedOperation (Operation.message m) = All IsStrippedSection m.sections
  IsStrippedOperation (Operation.reply p) = All IsStripped p.documents
  IsStrippedOperation (Operation.query q) = Unit

  abbrev pub IsStrippedItem : {E : Type 0} → Item E (Message Document) → Type 0
  IsStrippedItem (failure e) = Unit
  IsStrippedItem (value m) = IsStrippedOperation m.operation

  module _ (laws : IsDocuments bson docs) where
    get-remove_all :
        (fields : List Bytes) (doc : Document) (k : Bytes)
        → docs.get (remove_all bson docs fields doc) k
          ≡ (if one_of k fields then none else docs.get doc k)
    unfolding remove_all one_of
    get-remove_all [] doc k = refl
    get-remove_all (field ∷ fields) doc k =
        get-remove_all fields (docs.remove doc field) k
        ∙ ground (arith, laws.get_remove doc field k)

    -- A lookup in a stripped document finds nothing under a topology field, and under any other
    -- key what it finds in the document.
    pub get-strip_topology_fields :
        (doc : Document) (k : Bytes)
        → docs.get (strip_topology_fields bson docs doc) k
          ≡ (if one_of k topology_discovery_fields then none else docs.get doc k)
    unfolding strip_topology_fields
    get-strip_topology_fields doc k = get-remove_all topology_discovery_fields doc k

    stripped : (doc : Document) → IsStripped (strip_topology_fields bson docs doc)
    stripped doc k h = get-strip_topology_fields doc k ∙ rw h

    hidden_each :
        (ds : List Document) → All IsStripped (List.map (strip_topology_fields bson docs) ds)
    hidden_each [] = tt
    hidden_each (d ∷ ds) = (stripped d, hidden_each ds)

    stripped_sections :
        (ss : List (OpMsgSection Document))
        → All IsStrippedSection (List.map (strip_section bson docs) ss)
    unfolding strip_section
    stripped_sections [] = tt
    stripped_sections (body doc ∷ ss) = (stripped doc, stripped_sections ss)
    stripped_sections (document_sequence identifier documents ∷ ss) = (tt, stripped_sections ss)

    stripped_operation :
        (op : Operation Document) → IsStrippedOperation (strip_operation bson docs op)
    unfolding strip_operation
    stripped_operation (Operation.message m) = stripped_sections m.sections
    stripped_operation (Operation.reply p) = hidden_each p.documents
    stripped_operation (Operation.query q) = tt

    stripped_items :
        {E : Type 0} (items : List (Item E (Message Document)))
        → All IsStrippedItem (List.map (rewrite_item bson docs true) items)
    unfolding rewrite_item strip_topology_from_message
    stripped_items [] = tt
    stripped_items (failure e ∷ items) = (tt, stripped_items items)
    stripped_items (value m ∷ items) = (stripped_operation m.operation, stripped_items items)

  verbatim :
      {E : Type 0} (items : List (Item E (Message Document)))
      → List.map (rewrite_item bson docs false) items ≡ items
  unfolding rewrite_item
  verbatim [] = refl
  verbatim (failure e ∷ items) = ap (λ (l : List _). failure e ∷ l) (verbatim items)
  verbatim (value m ∷ items) = ap (λ (l : List _). value m ∷ l) (verbatim items)

  module _ {E : Type 0} (inner : Service (Message Document) E) where
    open inner use {State}

    rewriting-IsStripped :
        IsDocuments bson docs
        → (enabled : Bool) (r : Result E (List (Item E (Message Document))) × State)
          (items : List (Item E (Message Document)))
        → (rewriting bson docs inner enabled true r).0 ≡ ok items
        → All IsStrippedItem items
    rewriting-IsStripped laws enabled (ok replies, state) items h =
        subst (λ l. All IsStrippedItem l) (ok-same h) (stripped_items laws replies)
    rewriting-IsStripped laws enabled (err e, state) items h = absurd (err-ne-ok h)
    rewriting-IsStripped laws enabled (out_of_fuel, state) items h = cc

    rewriting_verbatim :
        (enabled : Bool) (r : Result E (List (Item E (Message Document))) × State)
        → rewriting bson docs inner enabled false r ≡ r
    rewriting_verbatim enabled (ok replies, state) =
        ap (λ (l : List _). (ok l, state)) (verbatim replies)
    rewriting_verbatim enabled (err e, state) = refl
    rewriting_verbatim enabled (out_of_fuel, state) = refl

    -- Under the laws of documents, when an enabled layer's call for a hello request gives a
    -- stream, no body of an OP_MSG and no document of an OP_REPLY in it has one of the fields
    -- that a driver reads the topology from.
    pub call-IsStripped :
        IsDocuments bson docs
        → (state : State) (req : Message Document) (items : List (Item E (Message Document)))
        → is_hello_request bson docs req ≡ true
        → (call bson docs inner true state req).0 ≡ ok items
        → All IsStrippedItem items
    unfolding call
    call-IsStripped laws state req items hello h =
        rewriting-IsStripped laws true (inner.call state req) items (
          subst (λ b. (rewriting bson docs inner true b (inner.call state req)).0 ≡ ok items) hello
            h)

    -- When the layer is disabled or the request is no hello, a call does exactly what the inner
    -- service does.
    pub call_verbatim :
        (enabled : Bool) (state : State) (req : Message Document)
        → enabled && is_hello_request bson docs req ≡ false
        → call bson docs inner enabled state req ≡ inner.call state req
    unfolding call
    call_verbatim enabled state req h =
        ap (λ b. rewriting bson docs inner enabled b (inner.call state req)) h
        ∙ rewriting_verbatim enabled (inner.call state req)
