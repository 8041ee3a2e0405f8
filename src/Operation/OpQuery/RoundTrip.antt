-- ===== src/Operation/OpQuery/RoundTrip.antt =====
-- The writer and the parser of an OP_QUERY body, composed.
use mongod_proxy.Bytes.Words.{
  u32_at-u32_to_le_bytes, i32_at-i32_to_le_bytes, length-i32_to_le_bytes, length-u32_to_le_bytes,
}
use mongod_proxy.Bson.Laws.{reads_back_vec, length-serialize_to_vec}
use mongod_proxy.Bytes.Text.{until_nul-cstring_new, cstring_new}
use mongod_proxy.Operation.OpQuery.Flags.{from_bits-bits, bits-IsU32, bits}
use mongod_proxy.Bytes.Defs.{le_bytes, i32_at, IsI32, u32_to_le_bytes, i32_to_le_bytes, Bytes}
use mongod_proxy.Operation.OpQuery.Defs.{
  tail_min, min_len, IsOperationQuery, parse_selector, write_selector, parse_tail, from_bytes,
  OperationQuery,
}
use mongod_proxy.Bson.{IsBson, Bson}
use mongod_proxy.Prelude.{
  append_assoc, sym, drop_all, drop, append-nil, ltb, length-append, not, map_err-eq-ok, arith, ◌+◌,
  ◌<◌, ◌≡◌, ◌++◌, Option, ℕ, length, ◌∷◌, ok, [], none, some, true, refl,
}

-- What the writer puts behind the header, around the encoded documents.
abbrev pub tail_bytes : {Document : Type 0} → OperationQuery Document → Bytes → Bytes → Bytes
tail_bytes q query selector =
    i32_to_le_bytes q.number_to_skip ++ (i32_to_le_bytes q.number_to_return ++ (query ++ selector))

abbrev pub body_bytes : {Document : Type 0} → OperationQuery Document → Bytes → Bytes → Bytes
body_bytes q query selector =
    u32_to_le_bytes (bits q.flags) ++ (q.full_collection_name ++ (0 ∷ tail_bytes q query selector))

pub length-tail_bytes :
    {Document : Type 0} (q : OperationQuery Document) (query selector : Bytes)
    → length (tail_bytes q query selector) ≡ 8 + length query + length selector
length-tail_bytes q query selector = omega (
  arith,
  length-i32_to_le_bytes q.number_to_skip,
  length-i32_to_le_bytes q.number_to_return,
  length-append (i32_to_le_bytes q.number_to_skip)
      (i32_to_le_bytes q.number_to_return ++ (query ++ selector)),
  length-append (i32_to_le_bytes q.number_to_return) (query ++ selector),
  length-append query selector,
)

pub length-body_bytes :
    {Document : Type 0} (q : OperationQuery Document) (query selector : Bytes)
    → length (body_bytes q query selector)
      ≡ 13 + length q.full_collection_name + length query + length selector
length-body_bytes q query selector = omega (
  arith,
  length-tail_bytes q query selector,
  length-u32_to_le_bytes (bits q.flags),
  length-append (u32_to_le_bytes (bits q.flags))
      (q.full_collection_name ++ (0 ∷ tail_bytes q query selector)),
  length-append q.full_collection_name (0 ∷ tail_bytes q query selector),
)

module _ (bson : Bson) (laws : IsBson bson) where
  open bson use {Document, Error, from_reader, serialize_to_vec}

  selector_some :
      (doc : Document) (sb : Bytes)
      → 0 < length sb
      → from_reader sb ≡ ok (doc, [])
      → parse_selector bson sb ≡ ok (some doc)
  unfolding parse_selector
  selector_some doc [] long e = absurd (omega arith)
  selector_some doc (b ∷ sb) long e = rw e

  parse_selector-write_selector :
      (sel : Option Document) {sb : Bytes}
      → write_selector bson sel ≡ ok sb
      → parse_selector bson sb ≡ ok sel
  unfolding write_selector
  parse_selector-write_selector none {sb} h =
      let empty : sb ≡ [] = cc in rw empty (unfold parse_selector in refl)
  parse_selector-write_selector (some doc) {sb} h =
      let e = map_err-eq-ok _ _ h in
      selector_some doc sb (omega (arith, length-serialize_to_vec bson laws doc e))
        (rw (append-nil sb) at (reads_back_vec bson laws doc sb [] e))

  parse_tail-tail_bytes :
      (q : OperationQuery Document) (actual_len : ℕ) {query selector : Bytes}
      → IsOperationQuery q
      → serialize_to_vec q.query ≡ ok query
      → write_selector bson q.return_fields_selector ≡ ok selector
      → parse_tail bson q.flags q.full_collection_name actual_len (tail_bytes q query selector)
        ≡ ok q
  unfolding parse_tail
  parse_tail-tail_bytes q actual_len {query} {selector} v e e' =
      let long : not (ltb (length (tail_bytes q query selector)) tail_min) ≡ true =
        ground (
          arith,
          length-tail_bytes q query selector,
          length-serialize_to_vec bson laws q.query e,
        ) in
      rw (
        long,
        i32_at-i32_to_le_bytes q.number_to_skip
            (i32_to_le_bytes q.number_to_return ++ (query ++ selector)) v.skip_valid,
        second q query selector v.return_valid,
        behind q query selector,
        reads_back_vec bson laws q.query query selector e,
        parse_selector-write_selector q.return_fields_selector e',
      )
    where
      second :
          (q : OperationQuery Document) (query selector : Bytes)
          → IsI32 q.number_to_return
          → i32_at 4 (tail_bytes q query selector) ≡ q.number_to_return
      second q query selector h =
          unfold i32_at i32_to_le_bytes le_bytes in
          i32_at-i32_to_le_bytes q.number_to_return (query ++ selector) h

      behind :
          (q : OperationQuery Document) (query selector : Bytes)
          → drop 8 (tail_bytes q query selector) ≡ query ++ selector
      behind q query selector = unfold i32_to_le_bytes le_bytes in refl

  -- Under the laws of the `bson` crate, the body of an OP_QUERY whose fields are in range, whose
  -- documents encode and whose collection name has no zero byte parses back to the query, with or
  -- without a field selector.
  pub from_bytes-body_bytes_query :
      (q : OperationQuery Document) {query selector name : Bytes}
      → IsOperationQuery q
      → serialize_to_vec q.query ≡ ok query
      → write_selector bson q.return_fields_selector ≡ ok selector
      → cstring_new q.full_collection_name ≡ ok name
      → from_bytes bson (body_bytes q query selector) ≡ ok q
  unfolding from_bytes
  from_bytes-body_bytes_query q {query} {selector} v e e' n =
      let name = q.full_collection_name in
      let tail = tail_bytes q query selector in
      let word = u32_to_le_bytes (bits q.flags) in
      let long : not (ltb (length (body_bytes q query selector)) min_len) ≡ true =
        ground (
          arith,
          length-body_bytes q query selector,
          length-serialize_to_vec bson laws q.query e,
        ) in
      rw
        (
          long,
          u32_at-u32_to_le_bytes (bits q.flags) (name ++ (0 ∷ tail)) (bits-IsU32 q.flags),
          from_bits-bits q.flags,
          drop_all (body_bytes q query selector) word (name ++ (0 ∷ tail)) 4 refl
              (length-u32_to_le_bytes (bits q.flags)),
          until_nul-cstring_new name tail n,
          v.name_valid,
          drop_all (name ++ (0 ∷ tail)) (name ++ (0 ∷ [])) tail (length name + 1)
              (sym (append_assoc name (0 ∷ []) tail)) (length-append name (0 ∷ [])),
        )
        (parse_tail-tail_bytes q _ v e e')
