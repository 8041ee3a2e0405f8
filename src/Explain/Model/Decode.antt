-- ===== src/Explain/Model/Decode.antt =====
-- The implementations of `Deserialize` in src/serve/explain/model/plan_details.rs, from the `Bson`
-- value that they read first. Values, their element types and floats belong to the `bson` crate and
-- the standard library.
use mongod_proxy.Bytes.Defs.{Bytes}
use mongod_proxy.Explain.Model.Details.{
  raw_bounds, bounds_document, IndexBounds, two_d, two_d_sphere, text, descending, sbe_expression,
  express, hashed, ascending, key_document, match_expression, IndexBoundRange, other_kind,
  IndexFieldKind, KeyPattern, KeyPatternField, Filter, IndexBoundsParseError, parse_range,
}
use mongod_proxy.Explain.Model.OpenVocab.{from_arms}
use mongod_proxy.Prelude.{
  eq_ℤ, out_of_fuel, map_err, if◌then◌else◌, ok_or, Option, Result, List, ℤ, Bool, ◌∷◌, err, ok,
  negsuc, pos, [], none, some, ◌>>=◌,
}
use Prim.Native.Nat.{compare, Ordering}
use mongod_proxy.Bytes.Text.{ascii}

-- The cases of `Bson` that the code tells apart.
pub data Kind (Value Double : Type 0) : Type 0 where
  int32 : ℤ → Kind Value Double
  int64 : ℤ → Kind Value Double
  double : Double → Kind Value Double
  string : Bytes → Kind Value Double
  document : List (Bytes × Value) → Kind Value Double
  array : List Value → Kind Value Double
  other : Kind Value Double

-- `near x n` is `(x - n).abs() < f64::EPSILON`.
pub record Values : Type 1 where
  pub Value : Type 0
  pub Double : Type 0
  pub ElementType : Type 0
  pub kind : Value → Kind Value Double
  pub element_type : Value → ElementType
  pub near : Double → ℤ → Bool
  pub parse_f64 : Bytes → Option Double
  pub to_lowercase : Bytes → Bytes

-- The custom messages of the deserializers.
pub data DetailError (ElementType : Type 0) : Type 0 where
  unexpected_kind : ElementType → DetailError ElementType
  key_pattern_shape : ElementType → DetailError ElementType
  bound_entry : ElementType → DetailError ElementType
  bounds_value : ElementType → DetailError ElementType
  bounds_shape : ElementType → DetailError ElementType
  bound_parse : IndexBoundsParseError → DetailError ElementType
  filter_shape : ElementType → DetailError ElementType

-- `Ordering::then`.
abbrev pub ordered_then : Ordering → Ordering → Ordering
ordered_then Ordering.lt o = Ordering.lt
ordered_then Ordering.eq o = o
ordered_then Ordering.gt o = Ordering.gt

-- The order of two `String`s, by their bytes.
unfoldable pub compare_bytes : Bytes → Bytes → Ordering
compare_bytes [] [] = Ordering.eq
compare_bytes [] (b ∷ bs) = Ordering.lt
compare_bytes (a ∷ as') [] = Ordering.gt
compare_bytes (a ∷ as') (b ∷ bs) = ordered_then (compare a b) (compare_bytes as' bs)

-- `BTreeMap::insert`, on the entries in the order of their keys.
unfoldable pub btree_insert : {A : Type 0} → Bytes → A → List (Bytes × A) → List (Bytes × A)
unfolding compare_bytes
btree_insert k a [] = (k, a) ∷ []
btree_insert k a ((j, b) ∷ entries) =
    let later = (j, b) ∷ btree_insert k a entries in
    elim (compare_bytes k j) [
      | Ordering.lt ↦ (k, a) ∷ (j, b) ∷ entries
      | Ordering.eq ↦ (j, a) ∷ entries
      | Ordering.gt ↦ later
    ]

module _ (values : Values) where
  open values use {Value, Double, ElementType}

  abbrev kind_of_string : Bytes → IndexFieldKind
  kind_of_string s = from_arms s (other_kind (values.to_lowercase s)) (
      (ascii "hashed", hashed)
      ∷ (ascii "text", text)
      ∷ (ascii "2dsphere", two_d_sphere)
      ∷ (ascii "2d", two_d)
      ∷ [])

  abbrev direction_of : Bool → Bool → Option IndexFieldKind
  direction_of up down = if up then some ascending else if down then some descending else none

  -- The arms of `IndexFieldKind::from_bson` that give a kind.
  unfoldable pub kind_of : Kind Value Double → Option IndexFieldKind
  unfolding from_arms
  kind_of (int32 n) = direction_of (eq_ℤ n (pos 1)) (eq_ℤ n (negsuc 0))
  kind_of (int64 n) = direction_of (eq_ℤ n (pos 1)) (eq_ℤ n (negsuc 0))
  kind_of (double f) = direction_of (values.near f (pos 1)) (values.near f (negsuc 0))
  kind_of (string s) = some (kind_of_string s)
  kind_of (document d) = none
  kind_of (array vs) = none
  kind_of other = none

  unfoldable pub from_bson : Value → Result (DetailError ElementType) IndexFieldKind
  unfolding kind_of
  from_bson v = ok_or (kind_of (values.kind v)) (unexpected_kind (values.element_type v))

  unfoldable pub key_fields :
      List (Bytes × Value) → Result (DetailError ElementType) (List KeyPatternField)
  unfolding from_bson
  key_fields [] = ok []
  key_fields ((k, v) ∷ doc) = do
    kind ← from_bson v
    fields ← key_fields doc
    ok (record { field = k; kind = kind } ∷ fields)

  unfoldable pub key_pattern : Value → Result (DetailError ElementType) KeyPattern
  unfolding key_fields
  key_pattern v = elim (values.kind v) [
    | document doc ↦ key_fields doc >>= λ fields. ok (key_document fields)
    | string s ↦ ok (express s)
    | _ ↦ err (key_pattern_shape (values.element_type v))
  ]

  -- A panic of the range parser would be no value; there is none.
  unfoldable pub bound_entry_of : Value → Result (DetailError ElementType) IndexBoundRange
  unfolding parse_range
  bound_entry_of v = elim (values.kind v) [
    | string s ↦ elim (parse_range s) [ none ↦ out_of_fuel | some r ↦ map_err bound_parse r ]
    | _ ↦ err (bound_entry (values.element_type v))
  ]

  unfoldable pub bound_entries :
      List Value → Result (DetailError ElementType) (List IndexBoundRange)
  unfolding bound_entry_of
  bound_entries [] = ok []
  bound_entries (v ∷ vs) = do
    range ← bound_entry_of v
    ranges ← bound_entries vs
    ok (range ∷ ranges)

  unfoldable pub field_bounds : Value → Result (DetailError ElementType) (List IndexBoundRange)
  unfolding bound_entries
  field_bounds v = elim (values.kind v) [
    | array vs ↦ bound_entries vs
    | _ ↦ err (bounds_value (values.element_type v))
  ]

  -- The loop over the fields; `out` is the map so far.
  unfoldable pub bounds_fields :
      List (Bytes × List IndexBoundRange)
      → List (Bytes × Value)
      → Result (DetailError ElementType) (List (Bytes × List IndexBoundRange))
  unfolding field_bounds btree_insert
  bounds_fields out [] = ok out
  bounds_fields out ((field, v) ∷ doc) = do
    ranges ← field_bounds v
    bounds_fields (btree_insert field ranges out) doc

  unfoldable pub index_bounds : Value → Result (DetailError ElementType) IndexBounds
  unfolding bounds_fields
  index_bounds v = elim (values.kind v) [
    | document doc ↦ bounds_fields [] doc >>= λ entries. ok (bounds_document entries)
    | string s ↦ ok (raw_bounds s)
    | _ ↦ err (bounds_shape (values.element_type v))
  ]

  unfoldable pub filter_of :
      {Document : Type 0}
      → (List (Bytes × Value) → Document)
      → Value
      → Result (DetailError ElementType) (Filter Document)
  filter_of to_document v = elim (values.kind v) [
    | document doc ↦ ok (match_expression (to_document doc))
    | string s ↦ ok (sbe_expression s)
    | _ ↦ err (filter_shape (values.element_type v))
  ]
