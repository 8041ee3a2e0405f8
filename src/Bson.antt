-- ===== src/Bson.antt =====
-- The `bson` crate, which the repository only calls: a type of documents, its reader and writer,
-- and the field names of a document. The laws say what the crate documents of these: a written
-- document reads back, reading takes the document off the front of the input, and no document is
-- shorter than five bytes; both writers give the same bytes.
pub mod Laws
pub mod Documents
use mongod_proxy.Prelude.{◌≤◌, ◌≡◌, List, ◌++◌, length, Result, ok, ◌≢◌, out_of_fuel}
use mongod_proxy.Bytes.Defs.{Bytes}

pub record Bson : Type 1 where
  pub Document : Type 0
  pub Error : Type 0
  -- `Document::from_reader` over a cursor: the document, and the bytes behind it.
  pub from_reader : Bytes → Result Error (Document × Bytes)
  -- `Document::to_writer`: the bytes that it appends to the writer.
  pub to_writer : Document → Result Error Bytes
  -- `bson::serialize_to_vec` of a document.
  pub serialize_to_vec : Document → Result Error Bytes
  pub keys : Document → List Bytes

pub record IsBson (b : Bson) : Type 0 where
  pub reads_back :
      (d : b.Document) (out rest : Bytes)
      → b.to_writer d ≡ ok out
      → b.from_reader (out ++ rest) ≡ ok (d, rest)
  pub takes_five :
      (bs rest : Bytes) (d : b.Document)
      → b.from_reader bs ≡ ok (d, rest)
      → (used : Bytes) × (bs ≡ used ++ rest) × (5 ≤ length used)
  pub vec_agrees : (d : b.Document) → b.serialize_to_vec d ≡ b.to_writer d
  pub reader_ends : (bs : Bytes) → b.from_reader bs ≢ out_of_fuel
  pub writer_ends : (d : b.Document) → b.to_writer d ≢ out_of_fuel
