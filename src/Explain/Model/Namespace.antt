-- ===== src/Explain/Model/Namespace.antt =====
-- `Database` and `Collection` of src/serve/explain/model/newtypes.rs and `Namespace` of
-- src/serve/explain/model/namespace.rs.
use mongod_proxy.Bytes.Text.{ascii}
use mongod_proxy.Explain.Model.Text.{trim}
use mongod_proxy.Prelude.{
  map_err, ◌>>=◌, ◌>>◌, if◌then◌else◌, Option, Result, err, [], none, some, ok,
}
use mongod_proxy.Bytes.Defs.{Bytes, eq_bytes}
use mongod_proxy.Uri.Text.{split_once}

pub data DatabaseError : Type 0 where
  database_error : DatabaseError

pub data CollectionError : Type 0 where
  collection_error : CollectionError

unfoldable pub validate_database : Bytes → Result DatabaseError (Unit {0})
unfolding trim
validate_database s = if eq_bytes (trim s) [] then err database_error else ok tt

unfoldable pub validate_collection : Bytes → Result CollectionError (Unit {0})
unfolding trim
validate_collection s = if eq_bytes (trim s) [] then err collection_error else ok tt

pub record Database : Type 0 where
  pub database_name : Bytes

pub record Collection : Type 0 where
  pub collection_name : Bytes

-- `Database::try_new` and `Collection::try_new`: the text is trimmed first, then validated.
unfoldable pub database_try_new : Bytes → Result DatabaseError Database
unfolding validate_database
database_try_new s = do validate_database (trim s); ok (record { database_name = trim s })

unfoldable pub collection_try_new : Bytes → Result CollectionError Collection
unfolding validate_collection
collection_try_new s = do validate_collection (trim s); ok (record { collection_name = trim s })

pub record Namespace : Type 0 where
  pub database : Database
  pub collection : Collection

pub data NamespaceParseErrorKind : Type 0 where
  no_dot : NamespaceParseErrorKind
  bad_database : DatabaseError → NamespaceParseErrorKind
  bad_collection : CollectionError → NamespaceParseErrorKind

pub record NamespaceParseError : Type 0 where
  pub raw : Bytes
  pub kind : NamespaceParseErrorKind

abbrev failed : {A : Type 0} → Bytes → NamespaceParseErrorKind → Result NamespaceParseError A
failed raw kind = err (record { raw = raw; kind = kind })

-- The halves in front of the first dot and behind it.
unfoldable pub from_halves : Bytes → Option (Bytes × Bytes) → Result NamespaceParseError Namespace
unfolding database_try_new collection_try_new
from_halves raw none = failed raw no_dot
from_halves raw (some (db_str, coll_str)) = do
  db ← map_err (λ e. record { raw = raw; kind = bad_database e }) (database_try_new db_str)
  coll ← map_err (λ e. record { raw = raw; kind = bad_collection e }) (collection_try_new coll_str)
  ok (record { database = db; collection = coll })

unfoldable pub parse : Bytes → Result NamespaceParseError Namespace
unfolding from_halves split_once
parse raw = from_halves raw (split_once (ascii ".") raw)
