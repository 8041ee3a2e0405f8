-- ===== src/Operation/OpQuery/Commit.antt =====
-- The writer of an OP_QUERY frame beside `commit`.
use mongod_proxy.Operation.OpQuery.RoundTrip.{length-body_bytes, body_bytes}
use mongod_proxy.Operation.OpQuery.Flags.{bits}
use mongod_proxy.Bytes.Text.{cstring_new-eq-ok, cstring_new, as_bytes_with_nul}
use mongod_proxy.Header.Frame.{write_bytes-frame_bytes, checked_length-commit, commit}
use mongod_proxy.Ids.{ResponseTo, RequestId}
use mongod_proxy.Bytes.Defs.{i32_to_le_bytes, u32_to_le_bytes, Bytes}
use mongod_proxy.Operation.OpQuery.Defs.{
  collection_name_contains_null_byte, message_too_large, write_selector, serialize_query_error,
  OperationQueryWriteError, OperationQuery,
}
use mongod_proxy.Bson.{Bson}
use mongod_proxy.OpCode
use mongod_proxy.Operation.OpQuery.Frame.{write_bytes}
use mongod_proxy.Header.Defs
use mongod_proxy.Prelude.{
  ◌∙◌, ap, length-append, arith, append_assoc, Result-cases, length, map_err, ◌++◌, ◌+◌, ◌≡◌,
  Option, Result, ◌∷◌, ok, inr, inl, [], refl, ◌>>=◌,
}

module _ (bson : Bson) where
  open bson use {Document, Error, serialize_to_vec}

  -- The body that the writer would put behind the header.
  abbrev pub encoded : OperationQuery Document → Result (OperationQueryWriteError Error) Bytes
  encoded q = do
    query ← map_err serialize_query_error (serialize_to_vec q.query)
    selector ← write_selector bson q.return_fields_selector
    name ← map_err collection_name_contains_null_byte (cstring_new q.full_collection_name)
    ok (body_bytes q query selector)

  length_sum :
      (q : OperationQuery Document) (query selector name : Bytes)
      → name ≡ q.full_collection_name
      → Defs.size + 4 + length (as_bytes_with_nul name) + 4 + 4 + length query + length selector
        ≡ 16 + length (body_bytes q query selector)
  length_sum q query selector name e = rw e (
      omega
        (arith, length-body_bytes q query selector, length-append q.full_collection_name (0 ∷ [])))

  pieces :
      (q : OperationQuery Document) (query selector name dst : Bytes)
      → name ≡ q.full_collection_name
      → (((((dst ++ u32_to_le_bytes (bits q.flags)) ++ as_bytes_with_nul name)
                ++ i32_to_le_bytes q.number_to_skip)
              ++ i32_to_le_bytes q.number_to_return)
            ++ query)
          ++ selector
        ≡ dst ++ body_bytes q query selector
  pieces q query selector name dst e = rw e (simp append_assoc)

  -- Writing an OP_QUERY appends one whole frame behind what the buffer held; a document or a
  -- collection name that cannot be encoded or a frame above the length limit gives the error and
  -- leaves the buffer as it was.
  pub write_bytes-commit_query :
      (q : OperationQuery Document) (id : RequestId) (r : Option ResponseTo) (dst : Bytes)
      → write_bytes bson q id r dst ≡ commit message_too_large OpCode.query id r (encoded q) dst
  unfolding write_bytes
  write_bytes-commit_query q id r dst = elim (Result-cases (serialize_to_vec q.query)) [
    | inr (inl (x, e)) ↦ rw e (unfold commit in refl)
    | inr (inr e) ↦ rw e (unfold commit in refl)
    | inl (query, e) ↦ rw e (elim (Result-cases (write_selector bson q.return_fields_selector)) [
      | inr (inl (x, e')) ↦ rw e' (unfold commit in refl)
      | inr (inr e') ↦ rw e' (unfold commit in refl)
      | inl (selector, e') ↦ rw e' (elim (Result-cases (cstring_new q.full_collection_name)) [
        | inr (inl (x, n)) ↦ rw n (unfold commit in refl)
        | inr (inr n) ↦ rw n (unfold commit in refl)
        | inl (name, n) ↦
            let same = cstring_new-eq-ok q.full_collection_name n in
            rw n (
              checked_length-commit message_too_large OpCode.query id r
                (body_bytes q query selector) dst _ _ (length_sum q query selector name same)
                (ap (λ (t : Bytes). (ok tt, t))
                  (pieces q query selector name _ same
                    ∙ write_bytes-frame_bytes OpCode.query id r (body_bytes q query selector) dst)))
      ])
    ])
  ]
