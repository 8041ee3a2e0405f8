-- ===== src/Operation/OpMsg/Sections.antt =====
-- The writer and the parser of one section of an OP_MSG, composed.
use mongod_proxy.Header.Length.{i32_try_from}
use mongod_proxy.Operation.OpMsg.Write.{frame_sequence, write_documents, write_section}
use mongod_proxy.Operation.OpMsg.Defs.{
  identifier_contains_null_byte, serialize_error, body, IsSection, OpMsgSection, document_sequence,
}
use mongod_proxy.Operation.OpMsg.Documents.{
  write_documents-Written, parse_documents-Written, Written,
}
use mongod_proxy.Bytes.Words.{length-i32_to_le_bytes, i32_at-i32_to_le_bytes}
use mongod_proxy.Bytes.Text.{
  until_nul-cstring_new, cstring_new-eq-ok, cstring_new, is_utf8, until_nul,
}
use mongod_proxy.Operation.OpMsg.Parse.{parse_section, parse_document_sequence}
use mongod_proxy.Bytes.Defs.{i32_at, i32_to_le_bytes, Bytes}
use mongod_proxy.Bson.{IsBson, Bson}
use mongod_proxy.Prelude.{
  ap, ◌∙◌, map_err-eq-ok, map_err, >>=-eq-ok, leb_ℤ, append_assoc, drop_all, get_range_middle,
  length-append, append-nil, le→leb, leb, arith, drop, get_range, ◌^◌, ◌<◌, length, ◌++◌, List, ◌+◌,
  ◌≡◌, ℕ, ◌∷◌, ok, pos, [], some, true, refl,
}

abbrev sequence_bytes : ℕ → Bytes → Bytes → Bytes → Bytes
sequence_bytes size id docs rest = i32_to_le_bytes (pos size) ++ (id ++ (0 ∷ (docs ++ rest)))

-- The pieces of a document sequence, as the parser cuts them out.
module _ (size : ℕ) (id docs rest : Bytes)
    (sized : size ≡ 4 + length (id ++ (0 ∷ [])) + length docs) (fits : size < 2 ^ 31) where
  sum_id : length (id ++ (0 ∷ [])) ≡ length id + 1
  sum_id = omega (arith, length-append id (0 ∷ []))

  size_field : get_range (sequence_bytes size id docs rest) 0 4 ≡ some (i32_to_le_bytes (pos size))
  size_field =
      get_range_middle _ [] (i32_to_le_bytes (pos size)) _ 0 4 refl refl
        (omega (arith, length-i32_to_le_bytes (pos size)))

  size_value : i32_at 0 (i32_to_le_bytes (pos size)) ≡ pos size
  size_value =
      rw (append-nil (i32_to_le_bytes (pos size))) at (i32_at-i32_to_le_bytes (pos size) [] fits)

  at_least_five : leb_ℤ (pos 5) (pos size) ≡ true
  at_least_five = le→leb _ _ (omega (arith, sum_id))

  size_inside : leb size (length (sequence_bytes size id docs rest)) ≡ true
  size_inside = le→leb _ _ (
      omega (
        arith,
        sum_id,
        length-i32_to_le_bytes (pos size),
        length-append (i32_to_le_bytes (pos size)) (id ++ (0 ∷ (docs ++ rest))),
        length-append id (0 ∷ (docs ++ rest)),
        length-append docs rest,
      ))

  payload_range : get_range (sequence_bytes size id docs rest) 4 size ≡ some (id ++ (0 ∷ docs))
  payload_range =
      get_range_middle _ (i32_to_le_bytes (pos size)) (id ++ (0 ∷ docs)) rest 4 size
        (simp append_assoc) (length-i32_to_le_bytes (pos size))
        (omega (arith, sum_id, length-append id (0 ∷ docs)))

  docs_range : get_range (sequence_bytes size id docs rest) (4 + length id + 1) size ≡ some docs
  docs_range =
      get_range_middle _ (i32_to_le_bytes (pos size) ++ (id ++ (0 ∷ []))) docs rest _ size
        (simp append_assoc)
        (omega (
          arith,
          sum_id,
          length-i32_to_le_bytes (pos size),
          length-append (i32_to_le_bytes (pos size)) (id ++ (0 ∷ [])),
        ))
        (omega (arith, sum_id))

  behind : drop size (sequence_bytes size id docs rest) ≡ rest
  behind =
      drop_all _ (i32_to_le_bytes (pos size) ++ (id ++ (0 ∷ docs))) rest size (simp append_assoc) (
        omega (
          arith,
          sum_id,
          length-i32_to_le_bytes (pos size),
          length-append (i32_to_le_bytes (pos size)) (id ++ (0 ∷ docs)),
          length-append id (0 ∷ docs),
        ))

module _ (bson : Bson) (laws : IsBson bson) where
  open bson use {Document, Error, from_reader, to_writer}

  parse_sequence :
      (size : ℕ) (id docs rest : Bytes) (ds : List Document)
      → size ≡ 4 + length (id ++ (0 ∷ [])) + length docs
      → size < 2 ^ 31
      → until_nul (id ++ (0 ∷ docs)) ≡ some id
      → is_utf8 id ≡ true
      → Written bson ds docs
      → parse_document_sequence bson (sequence_bytes size id docs rest)
        ≡ ok (document_sequence id ds, rest)
  unfolding parse_document_sequence
  parse_sequence size id docs rest ds sized fits nul utf8 w = rw (
    size_field size id docs rest sized fits,
    size_value size id docs rest sized fits,
    at_least_five size id docs rest sized fits,
    size_inside size id docs rest sized fits,
    payload_range size id docs rest sized fits,
    nul,
    utf8,
    docs_range size id docs rest sized fits,
    parse_documents-Written bson laws ds (length docs) docs w (omega arith),
    behind size id docs rest sized fits,
  )

  frame_sequence-eq-ok :
      (out named docs : Bytes) {out' : Bytes}
      → frame_sequence bson out named docs ≡ ok out'
      → (4 + length named + length docs < 2 ^ 31)
        × (out'
            ≡ ((out ++ i32_to_le_bytes (pos (4 + length named + length docs))) ++ named) ++ docs)
  unfolding frame_sequence i32_try_from
  frame_sequence-eq-ok out named docs h = ground arith

  -- What one section adds to the scratch buffer, and how it parses.
  abbrev pub Reads : OpMsgSection Document → Bytes → Bytes → Type 0
  Reads s out out' =
      (kind : ℕ) × (enc : Bytes) × (out' ≡ out ++ (kind ∷ enc))
      × ((rest : Bytes) → parse_section bson kind (enc ++ rest) ≡ ok (s, rest))

  sequence-Reads :
      (id docs out : Bytes) (ds : List Document) {out' : Bytes}
      → cstring_new id ≡ ok id
      → Written bson ds docs
      → is_utf8 id ≡ true
      → frame_sequence bson (out ++ (1 ∷ [])) (id ++ (0 ∷ [])) docs ≡ ok out'
      → Reads (document_sequence id ds) out out'
  unfolding parse_section
  sequence-Reads id docs out ds named w utf8 h =
      let (fits, p) = frame_sequence-eq-ok (out ++ (1 ∷ [])) (id ++ (0 ∷ [])) docs h in
      let size = 4 + length (id ++ (0 ∷ [])) + length docs in
      (
        1,
        i32_to_le_bytes (pos size) ++ (id ++ (0 ∷ docs)),
        p ∙ simp append_assoc,
        λ rest.
            ap (parse_document_sequence bson) (
              append_assoc (i32_to_le_bytes (pos size)) (id ++ (0 ∷ docs)) rest
              ∙ ap (λ (t : Bytes). i32_to_le_bytes (pos size) ++ t)
                  (append_assoc id (0 ∷ docs) rest))
            ∙ parse_sequence size id docs rest ds refl fits (until_nul-cstring_new id docs named)
                utf8 w,
      )

  pub write_section-Reads :
      (s : OpMsgSection Document) (out : Bytes) {out' : Bytes}
      → IsSection s
      → write_section bson s out ≡ ok out'
      → Reads s out out'
  unfolding write_section parse_section
  write_section-Reads (body doc) out v h =
      let (bytes, e, p) = >>=-eq-ok (map_err serialize_error (to_writer doc)) _ h in
      (
        0,
        bytes,
        cc (append_assoc out (0 ∷ []) bytes),
        λ rest. rw (laws.reads_back doc bytes rest (map_err-eq-ok _ _ e)),
      )
  write_section-Reads (document_sequence id ds) out v h =
      let (c, e₁, h₁) = >>=-eq-ok (map_err identifier_contains_null_byte (cstring_new id)) _ h in
      let same : c ≡ id = cstring_new-eq-ok id (map_err-eq-ok _ _ e₁) in
      let (docs, e₂, h₂) = >>=-eq-ok (write_documents bson ds []) _ h₁ in
      let (enc, q, w) = write_documents-Written bson ds [] e₂ in
      sequence-Reads id docs out ds (rw same at (map_err-eq-ok _ _ e₁)) (rw (← q) at w) v
        (rw same at h₂)
