-- ===== src/Explain/Envelope.antt =====
-- What `build_explain` of src/serve/explain/build.rs keeps of a request.
use mongod_proxy.Explain.Model.Command.{from_command_name, Command}
use mongod_proxy.Bytes.Laws.{eq_bytes_iff}
use mongod_proxy.Bytes.Text.{ascii}
use mongod_proxy.Message.Defs.{Message}
use mongod_proxy.Operation.OpMsg.Defs.{OperationMessage, OpMsgSection}
use mongod_proxy.Ids.ExplainRequestId.{ExplainRequestId}
use mongod_proxy.Prelude.{
  Bool, subst, ◌++◌, Option-cases, ◌≢◌, none, refl, Option, ap, ◌∙◌, Bool-cases, arith,
  if◌then◌else◌, ◌≡◌, List, ◌∷◌, inr, inl, [], some, false, true,
}
use mongod_proxy.Bson.{Bson}
use mongod_proxy.Bson.Documents.{Documents, IsDocuments, find_entry}
use mongod_proxy.Bytes.Defs.{Bytes, one_of, eq_bytes}
use mongod_proxy.Explain.Classify.{classify_message, ClassifiedRequest, classify}
use mongod_proxy.Explain.Build.{
  multi_op_write_batch, unsupported_shape, explain_operation, explain_verbosity, explain_message,
  single_op, built, fold_single_op_doc_sequence, envelope, op_identifier, should_strip_from_inner,
  build_explain, inner_command, copy_fields,
}
use mongod_proxy.Operation
use mathlib.Core.Option
use mongod_proxy.Operation.OpMsg
use mathlib.Core.List.{head?}
use mongod_proxy.Service.Upstream.{more_to_come}
use mongod_proxy.Operation.Defs.{message, Operation}

module _ (bson : Bson) (docs : Documents bson.Document) (laws : IsDocuments bson docs) where
  open bson use {Document}

  differ :
      (k j : Bytes) → should_strip_from_inner k ≢ should_strip_from_inner j → eq_bytes k j ≡ false
  differ k j h = elim (Bool-cases (eq_bytes k j)) [
    | inl t ↦ absurd (h (ap should_strip_from_inner ((eq_bytes_iff k j).0 t)))
    | inr f ↦ f
  ]

  get_copied :
      (j : Bytes) (v : docs.Value) (inner : Document) (k : Bytes)
      → should_strip_from_inner k ≡ false
      → docs.get (if should_strip_from_inner j then inner else docs.insert inner j v) k
        ≡ (if eq_bytes k j then some v else docs.get inner k)
  get_copied j v inner k h = elim (Bool-cases (should_strip_from_inner j)) [
    | inl t ↦ rw (t, differ k j (λ e. cc)) refl
    | inr f ↦ rw f (laws.get_insert inner j k v)
  ]

  get_stripped :
      (j : Bytes) (v : docs.Value) (inner : Document) (k : Bytes)
      → should_strip_from_inner k ≡ true
      → docs.get (if should_strip_from_inner j then inner else docs.insert inner j v) k
        ≡ docs.get inner k
  get_stripped j v inner k h = elim (Bool-cases (should_strip_from_inner j)) [
    | inl t ↦ rw t
    | inr f ↦ rw f (laws.get_insert inner j k v ∙ rw (differ k j (λ e. cc)) refl)
  ]

  get-copy_fields :
      (fields : List (Bytes × docs.Value)) (inner : Document) (k : Bytes)
      → docs.get (copy_fields bson docs fields inner) k ≡ (
          if should_strip_from_inner k
          then docs.get inner k
          else find_entry k (docs.get inner k) fields)
  unfolding copy_fields find_entry
  get-copy_fields [] inner k = ground arith
  get-copy_fields ((j, v) ∷ fields) inner k = elim (Bool-cases (should_strip_from_inner k)) [
    | inl t ↦
        get-copy_fields fields (if should_strip_from_inner j then inner else docs.insert inner j v)
          k
        ∙ rw t (get_stripped j v inner k t)
    | inr f ↦
        get-copy_fields fields (if should_strip_from_inner j then inner else docs.insert inner j v)
          k
        ∙ rw f (ap (λ (o : Option docs.Value). find_entry k o fields) (get_copied j v inner k f))
  ]

  -- What the explained command has under a key.
  abbrev pub inner_field : ClassifiedRequest Document → Bytes → Option docs.Value
  inner_field plan k = if should_strip_from_inner k then none else docs.get plan.body k

  abbrev pub op_field :
      Option Bytes → Option Document → Bytes → Option docs.Value → Option docs.Value
  op_field none only k field = field
  op_field (some ident) none k field = field
  op_field (some ident) (some only) k field =
      if eq_bytes k ident then some (docs.array (docs.embed only ∷ [])) else field

  abbrev pub op_of : Option Bytes → List (OpMsgSection Document) → Option Document
  op_of none sections = none
  op_of (some ident) sections = single_op ident sections

  get-fold :
      (command : Command) (sections : List (OpMsgSection Document)) (inner : Document) (k : Bytes)
      → docs.get (fold_single_op_doc_sequence bson docs command sections inner) k
        ≡ op_field
            (op_identifier command)
            (op_of (op_identifier command) sections)
            k
            (docs.get inner k)
  unfolding fold_single_op_doc_sequence
  get-fold command sections inner k = elim (Option-cases (op_identifier command)) [
    | inl none_at ↦ rw (fold_single_op_doc_sequence, none_at) refl
    | inr (ident, at) ↦ elim (Option-cases (single_op ident sections)) [
      | inl missing ↦ rw (fold_single_op_doc_sequence, at, missing) refl
      | inr (only, one) ↦
          rw (fold_single_op_doc_sequence, at, one)
            (laws.get_insert inner ident k (docs.array (docs.embed only ∷ [])))
    ]
  ]

  get-copied_body :
      (plan : ClassifiedRequest Document) (k : Bytes)
      → docs.get (copy_fields bson docs (docs.entries plan.body) docs.empty) k ≡ inner_field plan k
  get-copied_body plan k =
      get-copy_fields (docs.entries plan.body) docs.empty k
      ∙ rw (laws.get_empty k, laws.get_entries plan.body k) refl

  -- Under the laws of documents, the explained command has under the identifier of a single write
  -- operation that operation alone, nothing under the keys that are stripped, and under every
  -- other key what the client's command has.
  pub get-inner_command :
      (plan : ClassifiedRequest Document) (k : Bytes)
      → docs.get (inner_command bson docs plan) k
        ≡ op_field
            (op_identifier plan.command)
            (op_of (op_identifier plan.command) plan.doc_sequences)
            k
            (inner_field plan k)
  unfolding inner_command
  get-inner_command plan k =
      get-fold plan.command plan.doc_sequences
        (copy_fields bson docs (docs.entries plan.body) docs.empty) k
      ∙ ap
          (op_field (op_identifier plan.command)
            (op_of (op_identifier plan.command) plan.doc_sequences) k)
          (get-copied_body plan k)

  absent :
      (d : Document) (j k : Bytes) (v : docs.Value)
      → docs.get d k ≡ none
      → eq_bytes k j ≡ false
      → docs.get (docs.insert d j v) k ≡ none
  absent d j k v h f = laws.get_insert d j k v ∙ rw f h

  keys_appended :
      (d : Document) (k : Bytes) (v : docs.Value) (ks : List Bytes)
      → docs.get d k ≡ none
      → bson.keys d ≡ ks
      → bson.keys (docs.insert d k v) ≡ ks ++ (k ∷ [])
  keys_appended d k v ks h e = laws.keys_insert d k v h ∙ ap (λ l. l ++ (k ∷ [])) e

  keys-envelope :
      (plan : ClassifiedRequest Document)
      → bson.keys (envelope bson docs plan) ≡ ascii "explain" ∷ ascii "verbosity" ∷ ascii "$db" ∷ []
  unfolding envelope eq_bytes
  keys-envelope plan =
      let v = docs.embed (inner_command bson docs plan) in
      let wrapped = docs.insert docs.empty (ascii "explain") v in
      let verbose = docs.insert wrapped (ascii "verbosity") (docs.string explain_verbosity) in
      let first =
        keys_appended docs.empty (ascii "explain") v [] (laws.get_empty _) laws.keys_empty in
      let no_verbosity =
        absent docs.empty (ascii "explain") (ascii "verbosity") v (laws.get_empty _) refl in
      let second =
        keys_appended wrapped (ascii "verbosity") (docs.string explain_verbosity) _ no_verbosity
          first in
      let no_db = absent docs.empty (ascii "explain") (ascii "$db") v (laws.get_empty _) refl in
      keys_appended verbose (ascii "$db") (docs.string (plan.database).database_name) _
        (absent wrapped (ascii "verbosity") (ascii "$db") (docs.string explain_verbosity) no_db
          refl)
        second

  pub record IsExplain (m : Message Document) (id : ExplainRequestId) (to_lowercase : Bytes → Bytes)
      : Type 0 where
    pub stamped : m.request_id ≡ id
    pub named : Operation.Defs.command_name bson m.operation ≡ some (ascii "explain")
    pub not_explained : classify bson docs to_lowercase m ≡ none
    pub awaits_reply : more_to_come m.operation ≡ false

  classify_message_explain :
      (to_lowercase : Bytes → Bytes) (m : OperationMessage Document)
      → OpMsg.Parse.command_name bson m ≡ some (ascii "explain")
      → classify_message bson docs to_lowercase m ≡ none
  unfolding classify_message from_command_name one_of eq_bytes Option.bind
  classify_message_explain to_lowercase m h = rw (classify_message, h) refl

  explained :
      (to_lowercase : Bytes → Bytes) (plan : ClassifiedRequest Document) (id : ExplainRequestId)
      → IsExplain (explain_message bson docs plan id) id to_lowercase
  unfolding more_to_come explain_message explain_operation Operation.Defs.command_name
      OpMsg.Parse.command_name OpMsg.Parse.find_body mongod_proxy.Operation.OpMsg.Defs.as_body
      classify Option.bind
  explained to_lowercase plan id =
      let named = ap head? (keys-envelope plan) in
      record {
        stamped = refl;
        named = named;
        not_explained =
            classify_message_explain to_lowercase (explain_operation bson docs plan) named;
        awaits_reply = refl;
      }

  of_outcome :
      (b : Bool) {x m : Message Document}
      → (if b then unsupported_shape multi_op_write_batch else built x) ≡ built m
      → x ≡ m
  of_outcome true h = cc
  of_outcome false h = cc

  -- Under the laws of documents, a request that `build_explain` builds has the id that it was
  -- given, is called `explain`, is not classified as a request to explain and waits for its
  -- reply.
  pub build_explain-IsExplain :
      (to_lowercase : Bytes → Bytes) (plan : ClassifiedRequest Document) (id : ExplainRequestId)
      (m : Message Document)
      → build_explain bson docs plan id ≡ built m
      → IsExplain m id to_lowercase
  unfolding build_explain
  build_explain-IsExplain to_lowercase plan id m h =
      subst (λ x. IsExplain x id to_lowercase) (of_outcome _ h) (explained to_lowercase plan id)
