-- ===== src/Redact/Alike.antt =====
-- What the `Debug` of a message tells of the message.
use mongod_proxy.Redact.Agree.{render_fields-Agree, Agree}
use mongod_proxy.Operation.OpQuery.Defs.{OperationQuery}
use mongod_proxy.Redact.Defs.{Fields}
use mongod_proxy.Prelude.{ℕ, length, ap, ◌↔◌, ◌≡◌, List, Option, ◌∷◌, [], none, some, suc, refl}
use mathlib.Core.Option
use mongod_proxy.Operation.OpMsg.Defs.{OpMsgSection}
use mongod_proxy.Operation.Defs.{Operation}
use mongod_proxy.Redact.Message.{redacted_doc, debug_section, redacted_docs, debug_sections, body}
use mongod_proxy.Message.Defs.{Message}

module _ {Document S : Type 0} (view : Document → Fields S) where
  -- Two documents, or two messages, that differ only in what stands under sensitive keys.
  abbrev pub AgreeDoc : Document → Document → Type 0
  AgreeDoc d e = Agree (view d) (view e)

  abbrev pub AgreeDocs : List Document → List Document → Type 0
  AgreeDocs [] [] = Unit
  AgreeDocs [] (e ∷ es) = ⊥
  AgreeDocs (d ∷ ds) [] = ⊥
  AgreeDocs (d ∷ ds) (e ∷ es) = AgreeDoc d e × AgreeDocs ds es

  abbrev pub AgreeOption : Option Document → Option Document → Type 0
  AgreeOption none none = Unit
  AgreeOption none (some e) = ⊥
  AgreeOption (some d) none = ⊥
  AgreeOption (some d) (some e) = AgreeDoc d e

  abbrev pub AgreeSection : OpMsgSection Document → OpMsgSection Document → Type 0
  AgreeSection (OpMsgSection.body d) (OpMsgSection.body e) = AgreeDoc d e
  AgreeSection (OpMsgSection.body d) (OpMsgSection.document_sequence j es) = ⊥
  AgreeSection (OpMsgSection.document_sequence i ds) (OpMsgSection.body e) = ⊥
  AgreeSection (OpMsgSection.document_sequence i ds) (OpMsgSection.document_sequence j es) =
      (i ≡ j) × AgreeDocs ds es

  abbrev pub AgreeSections : List (OpMsgSection Document) → List (OpMsgSection Document) → Type 0
  AgreeSections [] [] = Unit
  AgreeSections [] (y ∷ ys) = ⊥
  AgreeSections (x ∷ xs) [] = ⊥
  AgreeSections (x ∷ xs) (y ∷ ys) = AgreeSection x y × AgreeSections xs ys

  abbrev pub AgreeQuery : OperationQuery Document → OperationQuery Document → Type 0
  AgreeQuery p q =
      (p.flags ≡ q.flags)
      × (p.full_collection_name ≡ q.full_collection_name)
      × (p.number_to_skip ≡ q.number_to_skip)
      × (p.number_to_return ≡ q.number_to_return)
      × AgreeDoc p.query q.query
      × AgreeOption p.return_fields_selector q.return_fields_selector

  abbrev pub AgreeOperation : Operation Document → Operation Document → Type 0
  AgreeOperation (Operation.query p) (Operation.query q) = AgreeQuery p q
  AgreeOperation (Operation.message m) (Operation.message n) =
      (m.flags ≡ n.flags) × AgreeSections m.sections n.sections × (m.checksum ≡ n.checksum)
  AgreeOperation (Operation.reply p) (Operation.reply q) =
      (p.flags ≡ q.flags)
      × (p.cursor_id ≡ q.cursor_id)
      × (p.starting_from ≡ q.starting_from)
      × AgreeDocs p.documents q.documents
  AgreeOperation _ _ = ⊥

  abbrev pub AgreeMessage : Message Document → Message Document → Type 0
  AgreeMessage m n =
      (m.request_id ≡ n.request_id)
      × (m.response_to ≡ n.response_to)
      × AgreeOperation m.operation n.operation

  pub doc_iff : (d e : Document) → (redacted_doc view d ≡ redacted_doc view e) ↔ AgreeDoc d e
  unfolding redacted_doc
  doc_iff d e = render_fields-Agree (view d) (view e)

  pub docs_told :
      (ds es : List Document) → redacted_docs view ds ≡ redacted_docs view es → AgreeDocs ds es
  unfolding redacted_docs
  docs_told [] [] h = tt
  docs_told [] (e ∷ es) h = cc
  docs_told (d ∷ ds) [] h = cc
  docs_told (d ∷ ds) (e ∷ es) h = ((doc_iff d e).0 cc, docs_told ds es cc)

  pub docs_same :
      (ds es : List Document) → AgreeDocs ds es → redacted_docs view ds ≡ redacted_docs view es
  unfolding redacted_docs
  docs_same [] [] h = refl
  docs_same [] (e ∷ es) h = absurd h
  docs_same (d ∷ ds) [] h = absurd h
  docs_same (d ∷ ds) (e ∷ es) (h, hs) = rw ((doc_iff d e).1 h, docs_same ds es hs) refl

  pub length_same : (ds es : List Document) → AgreeDocs ds es → length ds ≡ length es
  length_same [] [] h = refl
  length_same [] (e ∷ es) h = absurd h
  length_same (d ∷ ds) [] h = absurd h
  length_same (d ∷ ds) (e ∷ es) (h, hs) = ap (λ (n : ℕ). suc n) (length_same ds es hs)

  pub option_told :
      (d e : Option Document)
      → Option.map (redacted_doc view) d ≡ Option.map (redacted_doc view) e
      → AgreeOption d e
  option_told none none h = tt
  option_told none (some e) h = cc
  option_told (some d) none h = cc
  option_told (some d) (some e) h = (doc_iff d e).0 cc

  pub option_same :
      (d e : Option Document)
      → AgreeOption d e
      → Option.map (redacted_doc view) d ≡ Option.map (redacted_doc view) e
  option_same none none h = refl
  option_same none (some e) h = absurd h
  option_same (some d) none h = absurd h
  option_same (some d) (some e) h = ap (λ r. some r) ((doc_iff d e).1 h)

  section_told :
      (x y : OpMsgSection Document) → debug_section view x ≡ debug_section view y → AgreeSection x y
  unfolding debug_section
  section_told (OpMsgSection.body d) (OpMsgSection.body e) h = (doc_iff d e).0 cc
  section_told (OpMsgSection.body d) (OpMsgSection.document_sequence j es) h = cc
  section_told (OpMsgSection.document_sequence i ds) (OpMsgSection.body e) h = cc
  section_told (OpMsgSection.document_sequence i ds) (OpMsgSection.document_sequence j es) h =
      (cc, docs_told ds es cc)

  section_same :
      (x y : OpMsgSection Document) → AgreeSection x y → debug_section view x ≡ debug_section view y
  unfolding debug_section
  section_same (OpMsgSection.body d) (OpMsgSection.body e) h = ap (λ r. body r) ((doc_iff d e).1 h)
  section_same (OpMsgSection.body d) (OpMsgSection.document_sequence j es) h = absurd h
  section_same (OpMsgSection.document_sequence i ds) (OpMsgSection.body e) h = absurd h
  section_same (OpMsgSection.document_sequence i ds) (OpMsgSection.document_sequence j es) (ij, h) =
      cc (ij, length_same ds es h, docs_same ds es h)

  pub sections_told :
      (xs ys : List (OpMsgSection Document))
      → debug_sections view xs ≡ debug_sections view ys
      → AgreeSections xs ys
  unfolding debug_sections
  sections_told [] [] h = tt
  sections_told [] (y ∷ ys) h = cc
  sections_told (x ∷ xs) [] h = cc
  sections_told (x ∷ xs) (y ∷ ys) h = (section_told x y cc, sections_told xs ys cc)

  pub sections_same :
      (xs ys : List (OpMsgSection Document))
      → AgreeSections xs ys
      → debug_sections view xs ≡ debug_sections view ys
  unfolding debug_sections
  sections_same [] [] h = refl
  sections_same [] (y ∷ ys) h = absurd h
  sections_same (x ∷ xs) [] h = absurd h
  sections_same (x ∷ xs) (y ∷ ys) (h, hs) = rw (section_same x y h, sections_same xs ys hs) refl
