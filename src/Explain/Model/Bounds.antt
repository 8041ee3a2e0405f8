-- ===== src/Explain/Model/Bounds.antt =====
-- The bounds that `IndexBounds::deserialize` of src/serve/explain/model/plan_details.rs reads, as a
-- map from the names of the fields.
use mongod_proxy.Explain.Model.FieldBounds.{
  IsField, IsBadField, IsFieldOutcome, field_bounds-IsFieldOutcome,
}
use mongod_proxy.Explain.Model.TreeMap.{
  get, last_value, or_else, IsAscending, get-btree_insert, IsAscending-btree_insert,
}
use mongod_proxy.Explain.Model.Details.{raw_bounds, bounds_document, IndexBounds, IndexBoundRange}
use mongod_proxy.Explain.Model.Decode.{
  DetailError, other, array, double, int64, int32, bounds_shape, string, Kind, document,
  field_bounds, index_bounds, bounds_fields, Values, btree_insert,
}
use mongod_proxy.Bytes.Defs.{eq_bytes, Bytes}
use mongod_proxy.Prelude.{
  >>=-eq-err, >>=-ne-out_of_fuel, ◌≢◌, ◌>>=◌, >>=-eq-ok, Result, out_of_fuel, err, ok, subst, ◌∙◌,
  Bool-cases, sym, ◌⊎◌, inr, inl, refl, if◌then◌else◌, Option, List, ◌≡◌, ◌∷◌, [], none, some,
}

module _ (values : Values) where
  open values use {Value, Double, ElementType}

  -- What the map has under a name behind a document: the ranges of the value that the document has
  -- last under it, or what was there before.
  abbrev IsUnder :
      Option Value → Option (List IndexBoundRange) → Option (List IndexBoundRange) → Type 0
  IsUnder none before after = after ≡ before
  IsUnder (some v) before after =
      (ranges : List IndexBoundRange) × (after ≡ some ranges) × IsField values v ranges

  abbrev IsFilled :
      List (Bytes × List IndexBoundRange)
      → List (Bytes × Value)
      → List (Bytes × List IndexBoundRange)
      → Type 0
  IsFilled out doc entries =
      (field : Bytes) → IsUnder (last_value field doc) (get field out) (get field entries)

  field_bounds-IsField :
      (v : Value) (ranges : List IndexBoundRange)
      → field_bounds values v ≡ ok ranges
      → IsField values v ranges
  field_bounds-IsField v ranges e =
      subst (IsFieldOutcome values v) e (field_bounds-IsFieldOutcome values v)

  field_bounds-IsBadField :
      (v : Value) (x : DetailError ElementType)
      → field_bounds values v ≡ err x
      → IsBadField values v x
  field_bounds-IsBadField v x e =
      subst (IsFieldOutcome values v) e (field_bounds-IsFieldOutcome values v)

  -- One round of the loop.
  insert_fills :
      (f k : Bytes) (v : Value) (ranges : List IndexBoundRange)
      (out : List (Bytes × List IndexBoundRange)) (after : Option (List IndexBoundRange))
      → IsField values v ranges
      → (later : Option Value) → IsUnder later (get f (btree_insert k ranges out)) after
      → IsUnder (or_else later (if eq_bytes f k then some v else none)) (get f out) after
  insert_fills f k v ranges out after h (some w) e = e
  insert_fills f k v ranges out after h none e = elim (Bool-cases (eq_bytes f k)) [
    | inl t ↦ rw t (ranges, e ∙ rw (get-btree_insert k f ranges out, t) refl, h)
    | inr t ↦ rw t (e ∙ rw (get-btree_insert k f ranges out, t) refl)
  ]

  bounds_fields-IsFilled :
      (out : List (Bytes × List IndexBoundRange)) (doc : List (Bytes × Value))
      (entries : List (Bytes × List IndexBoundRange))
      → IsAscending out
      → bounds_fields values out doc ≡ ok entries
      → IsAscending entries × IsFilled out doc entries
  unfolding bounds_fields last_value
  bounds_fields-IsFilled out [] entries h e =
      let same : out ≡ entries = cc in
      subst (λ x. IsAscending x × IsFilled out [] x) same (h, λ f. refl)
  bounds_fields-IsFilled out ((k, v) ∷ doc) entries h e =
      let (ranges, e1, e2) = >>=-eq-ok (field_bounds values v) _ e in
      let (ascending, filled) =
        bounds_fields-IsFilled (btree_insert k ranges out) doc entries
          (IsAscending-btree_insert k ranges out h) e2 in
      (
        ascending,
        λ f.
            insert_fills f k v ranges out (get f entries) (field_bounds-IsField v ranges e1)
              (last_value f doc) (filled f),
      )

  -- What was read: the text as it stands, or a map in the order of its keys.
  abbrev pub IsIndexBounds : Value → IndexBounds → Type 0
  IsIndexBounds v (bounds_document entries) =
      (doc : List (Bytes × Value)) × (values.kind v ≡ document doc)
      × IsAscending entries
      × ((field : Bytes) → IsUnder (last_value field doc) none (get field entries))
  IsIndexBounds v (raw_bounds s) = values.kind v ≡ string s

  -- The first field whose value is no array of texts that parse as ranges gives the error.
  abbrev pub IsFailure : DetailError ElementType → List (Bytes × Value) → Type 0
  IsFailure e [] = ⊥
  IsFailure e ((k, v) ∷ doc) =
      IsBadField values v e
      ⊎ (((ranges : List IndexBoundRange) × IsField values v ranges) × IsFailure e doc)

  abbrev IsShapeless : Kind Value Double → Type 0
  IsShapeless (document doc) = ⊥
  IsShapeless (string s) = ⊥
  IsShapeless _ = Unit

  -- Bounds that were read, or the reason why there are none.
  abbrev pub IsDecoded : Value → Result (DetailError ElementType) IndexBounds → Type 0
  IsDecoded v (ok bounds) = IsIndexBounds v bounds
  IsDecoded v (err e) =
      ((doc : List (Bytes × Value)) × (values.kind v ≡ document doc) × IsFailure e doc)
      ⊎ (IsShapeless (values.kind v) × (e ≡ bounds_shape (values.element_type v)))
  IsDecoded v out_of_fuel = ⊥

  field_bounds-ne-out_of_fuel : (v : Value) → field_bounds values v ≢ out_of_fuel
  field_bounds-ne-out_of_fuel v e =
      subst (IsFieldOutcome values v) e (field_bounds-IsFieldOutcome values v)

  bounds_fields-ne-out_of_fuel :
      (out : List (Bytes × List IndexBoundRange)) (doc : List (Bytes × Value))
      → bounds_fields values out doc ≢ out_of_fuel
  unfolding bounds_fields
  bounds_fields-ne-out_of_fuel out [] = λ e. cc
  bounds_fields-ne-out_of_fuel out ((k, v) ∷ doc) =
      >>=-ne-out_of_fuel (field_bounds values v) _ (field_bounds-ne-out_of_fuel v)
        (λ ranges e. bounds_fields-ne-out_of_fuel (btree_insert k ranges out) doc)

  bounds_fields-IsFailure :
      (out : List (Bytes × List IndexBoundRange)) (doc : List (Bytes × Value))
      (e : DetailError ElementType)
      → bounds_fields values out doc ≡ err e
      → IsFailure e doc
  unfolding bounds_fields
  bounds_fields-IsFailure out [] e h = cc
  bounds_fields-IsFailure out ((k, v) ∷ doc) e h = elim (>>=-eq-err (field_bounds values v) _ h) [
    | inl failed ↦ inl (field_bounds-IsBadField v e failed)
    | inr (ranges, e1, e2) ↦ inr (
      (ranges, field_bounds-IsField v ranges e1),
      bounds_fields-IsFailure (btree_insert k ranges out) doc e e2,
    )
  ]

  read_document :
      (v : Value) (doc : List (Bytes × Value))
      → values.kind v ≡ document doc
      → (r : Result (DetailError ElementType) (List (Bytes × List IndexBoundRange)))
      → bounds_fields values [] doc ≡ r
      → IsDecoded v (r >>= λ entries. ok (bounds_document entries))
  unfolding get
  read_document v doc h (ok entries) e =
      let (ascending, filled) = bounds_fields-IsFilled [] doc entries tt e in
      (doc, h, ascending, filled)
  read_document v doc h (err e') e = inl (doc, h, bounds_fields-IsFailure [] doc e' e)
  read_document v doc h out_of_fuel e = bounds_fields-ne-out_of_fuel [] doc e

  read_kind :
      (v : Value) (kind : Kind Value Double)
      → values.kind v ≡ kind
      → IsDecoded v (elim kind [
        | document doc ↦ bounds_fields values [] doc >>= λ entries. ok (bounds_document entries)
        | string s ↦ ok (raw_bounds s)
        | _ ↦ err (bounds_shape (values.element_type v))
      ])
  read_kind v (document doc) h = read_document v doc h (bounds_fields values [] doc) refl
  read_kind v (string s) h = h
  read_kind v (int32 n) h = inr (subst IsShapeless (sym h) tt, refl)
  read_kind v (int64 n) h = inr (subst IsShapeless (sym h) tt, refl)
  read_kind v (double f) h = inr (subst IsShapeless (sym h) tt, refl)
  read_kind v (array vs) h = inr (subst IsShapeless (sym h) tt, refl)
  read_kind v other h = inr (subst IsShapeless (sym h) tt, refl)

  -- Reading index bounds ends. It gives a text as it stands, or from a document the entries in
  -- strictly ascending order of their names, in which a name leads to the ranges that the texts
  -- of the array parse as, one for one and in order, which the document has last under it, and to
  -- nothing where the document has none. It fails with the error of the first field whose value
  -- is no such array, which is that of its first entry that is no such text if it is an array, or
  -- because the value is neither a document nor a text.
  pub index_bounds-IsDecoded : (v : Value) → IsDecoded v (index_bounds values v)
  unfolding index_bounds
  index_bounds-IsDecoded v = read_kind v (values.kind v) refl
