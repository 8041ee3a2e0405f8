-- ===== src/Operation/OpMsg/Documents.antt =====
-- The payload of a document sequence: its writer and the loop that parses it.
use mongod_proxy.Bson.Laws.{length-to_writer}
use mongod_proxy.Operation.OpMsg.Defs.{serialize_error}
use mongod_proxy.Bytes.Defs.{Bytes}
use mongod_proxy.Operation.OpMsg.Parse.{parse_documents}
use mongod_proxy.Operation.OpMsg.Write.{write_documents}
use mongod_proxy.Bson.{IsBson, Bson}
use mongod_proxy.Prelude.{
  append_assoc, ◌∙◌, map_err-eq-ok, map_err, map_err-ne-out_of_fuel, ◌+◌, >>=-ne-out_of_fuel,
  >>=-eq-ok, length-append, append-nil, ap, ◌≢◌, ◌≤◌, ◌++◌, arith, length, ◌<◌, ◌≡◌, ℕ, List, ◌∷◌,
  out_of_fuel, ok, [], suc, zero, refl, ◌>>=◌,
}

-- `enc` is the encodings of the documents, one behind the other.
abbrev pub Written : (bson : Bson) → List bson.Document → Bytes → Type 0
Written bson [] enc = enc ≡ []
Written bson (d ∷ ds) enc =
    (out : Bytes) × (rest : Bytes) × (bson.to_writer d ≡ ok out)
    × (enc ≡ out ++ rest)
    × Written bson ds rest

module _ (bson : Bson) where
  open bson use {Document, Error, from_reader, to_writer}

  -- What a successful write appended.
  pub write_documents-Written :
      (ds : List Document) (acc : Bytes) {out : Bytes}
      → write_documents bson ds acc ≡ ok out
      → (enc : Bytes) × (out ≡ acc ++ enc) × Written bson ds enc
  unfolding write_documents
  write_documents-Written [] acc h = ([], rw append-nil (cc), refl)
  write_documents-Written (d ∷ ds) acc h =
      let (bytes, e, h') = >>=-eq-ok (map_err serialize_error (to_writer d)) _ h in
      let (enc, p, w) = write_documents-Written ds (acc ++ bytes) h' in
      (bytes ++ enc, p ∙ append_assoc acc bytes enc, (bytes, enc, map_err-eq-ok _ _ e, refl, w))

  parse_documents_step :
      (fuel : ℕ) (bytes rest : Bytes) (d : Document)
      → 0 < length bytes
      → from_reader bytes ≡ ok (d, rest)
      → parse_documents bson (suc fuel) bytes
        ≡ (parse_documents bson fuel rest >>= λ documents. ok (d ∷ documents))
  unfolding parse_documents
  parse_documents_step fuel [] rest d h e = absurd (omega arith)
  parse_documents_step fuel (b ∷ bytes) rest d h e = rw e

module _ (bson : Bson) (laws : IsBson bson) where
  open bson use {Document, Error, from_reader, to_writer}

  -- A run of written documents parses back, with a unit of fuel for each byte.
  pub parse_documents-Written :
      (ds : List Document) (fuel : ℕ) (enc : Bytes)
      → Written bson ds enc
      → length enc ≤ fuel
      → parse_documents bson fuel enc ≡ ok ds
  parse_documents-Written [] fuel enc w hf = rw w (unfold parse_documents in refl)
  parse_documents-Written (d ∷ ds) zero enc (out, rest, e, p, w) hf =
      absurd (omega (arith, ap length p, length-append out rest, length-to_writer bson laws d e))
  parse_documents-Written (d ∷ ds) (suc fuel) enc (out, rest, e, p, w) hf =
      let long : 5 ≤ length out = length-to_writer bson laws d e in
      let sum : length (out ++ rest) ≡ length out + length rest = length-append out rest in
      rw p (
        parse_documents_step bson fuel (out ++ rest) rest d (omega arith)
          (laws.reads_back d out rest e)
        ∙ rw (parse_documents-Written ds fuel rest w (omega (arith, ap length p))))

  -- Under the laws of the `bson` crate, the loop over the documents of a document sequence ends
  -- within any fuel that is at least the number of bytes, whatever the bytes are.
  pub parse_documents-ne-out_of_fuel :
      (fuel : ℕ) (bytes : Bytes)
      → length bytes ≤ fuel
      → parse_documents bson fuel bytes ≢ out_of_fuel
  unfolding parse_documents
  parse_documents-ne-out_of_fuel fuel [] h = λ p. cc
  parse_documents-ne-out_of_fuel zero (b ∷ bytes) h = absurd (omega arith)
  parse_documents-ne-out_of_fuel (suc fuel) (b ∷ bytes) h =
      >>=-ne-out_of_fuel _ _ (map_err-ne-out_of_fuel _ _ (laws.reader_ends (b ∷ bytes)))
        λ (doc, rest) e.
          let (used, p, long) = laws.takes_five _ rest doc (map_err-eq-ok _ _ e) in
          >>=-ne-out_of_fuel _ _
            (parse_documents-ne-out_of_fuel fuel rest
              (omega (arith, ap length p, length-append used rest)))
            λ ds e'. λ q. cc
