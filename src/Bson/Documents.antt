-- ===== src/Bson/Documents.antt =====
-- The fields of a document, as the `bson` crate gives them: `Document` is a map that keeps the order
-- of its keys. The laws say what a lookup finds behind each operation.
use mongod_proxy.Prelude.{◌++◌, if◌then◌else◌, Option, List, ◌≡◌, ◌∷◌, [], none, some}
use mongod_proxy.Bson.{Bson}
use mongod_proxy.Bytes.Defs.{Bytes, eq_bytes}

pub record Documents (Document : Type 0) : Type 1 where
  pub Value : Type 0
  -- The pairs that an iteration gives.
  pub entries : Document → List (Bytes × Value)
  pub empty : Document
  pub get : Document → Bytes → Option Value
  pub insert : Document → Bytes → Value → Document
  -- What `Document::remove` leaves.
  pub remove : Document → Bytes → Document
  -- `Bson::as_str`, and the values for a text, a document and an array.
  pub as_str : Value → Option Bytes
  pub string : Bytes → Value
  pub embed : Document → Value
  pub array : List Value → Value

-- The value of a key in a list of pairs; no key of a document stands twice.
unfoldable pub find_entry : {A : Type 0} → Bytes → Option A → List (Bytes × A) → Option A
find_entry k found [] = found
find_entry k found ((j, a) ∷ xs) = find_entry k (if eq_bytes k j then some a else found) xs

pub record IsDocuments (bson : Bson) (docs : Documents bson.Document) : Type 0 where
  pub get_empty : (k : Bytes) → docs.get docs.empty k ≡ none
  pub get_insert :
      (d : bson.Document) (k j : Bytes) (v : docs.Value)
      → docs.get (docs.insert d k v) j ≡ (if eq_bytes j k then some v else docs.get d j)
  pub get_remove :
      (d : bson.Document) (k j : Bytes)
      → docs.get (docs.remove d k) j ≡ (if eq_bytes j k then none else docs.get d j)
  pub get_entries :
      (d : bson.Document) (k : Bytes) → docs.get d k ≡ find_entry k none (docs.entries d)
  pub keys_empty : bson.keys docs.empty ≡ []
  pub keys_insert :
      (d : bson.Document) (k : Bytes) (v : docs.Value)
      → docs.get d k ≡ none
      → bson.keys (docs.insert d k v) ≡ bson.keys d ++ (k ∷ [])
