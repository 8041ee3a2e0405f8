-- ===== src/Bson/Laws.antt =====
-- What follows from the laws of the `bson` crate.
use mongod_proxy.Bytes.Defs.{Bytes}
use mongod_proxy.Bson.{IsBson, Bson}
use mongod_proxy.Prelude.{length-append, ap, arith, ◌∙◌, sym, length, ◌++◌, ◌≤◌, ◌≡◌, ok, []}

module _ (bson : Bson) (laws : IsBson bson) where
  open bson use {Document, Error, from_reader, to_writer, serialize_to_vec}

  -- A written document is five bytes at least, since reading it back takes that many.
  pub length-to_writer : (d : Document) {out : Bytes} → to_writer d ≡ ok out → 5 ≤ length out
  length-to_writer d {out} h =
      let (used, e, long) = laws.takes_five (out ++ []) [] d (laws.reads_back d out [] h) in
      omega (arith, ap length e, length-append out [], length-append used [])

  pub reads_back_vec :
      (d : Document) (out rest : Bytes)
      → serialize_to_vec d ≡ ok out
      → from_reader (out ++ rest) ≡ ok (d, rest)
  reads_back_vec d out rest h = laws.reads_back d out rest (sym (laws.vec_agrees d) ∙ h)

  pub length-serialize_to_vec :
      (d : Document) {out : Bytes} → serialize_to_vec d ≡ ok out → 5 ≤ length out
  length-serialize_to_vec d h = length-to_writer d (sym (laws.vec_agrees d) ∙ h)
