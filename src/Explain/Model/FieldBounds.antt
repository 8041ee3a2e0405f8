-- ===== src/Explain/Model/FieldBounds.antt =====
-- The ranges of one field, as `IndexBounds::deserialize` of
-- src/serve/explain/model/plan_details.rs reads them from an array.
use mongod_proxy.Explain.Model.Ranges.{parse_range-ne-none, parse_range-ne-out_of_fuel}
use mongod_proxy.Explain.Model.Details.{IndexBoundsParseError, parse_range, IndexBoundRange}
use mongod_proxy.Explain.Model.Decode.{
  bound_entry, bound_parse, bounds_value, bound_entry_of, DetailError, bound_entries, other, array,
  double, int64, int32, string, Kind, document, field_bounds, Values,
}
use mongod_proxy.Bytes.Defs.{Bytes}
use mongod_proxy.Prelude.{
  map_err, ◌>>=◌, Result, out_of_fuel, err, ok, subst, sym, ◌⊎◌, inr, inl, refl, Option, List, ◌≡◌,
  ◌∷◌, [], none, some,
}

module _ (values : Values) where
  open values use {Value, Double, ElementType}

  abbrev IsNoString : Kind Value Double → Type 0
  IsNoString (string s) = ⊥
  IsNoString _ = Unit

  abbrev IsNoArray : Kind Value Double → Type 0
  IsNoArray (array vs) = ⊥
  IsNoArray _ = Unit

  -- An entry is a text that parses as the range.
  abbrev pub IsRange : Value → IndexBoundRange → Type 0
  IsRange v range = (s : Bytes) × (values.kind v ≡ string s) × (parse_range s ≡ some (ok range))

  abbrev pub IsBadEntry : Value → DetailError ElementType → Type 0
  IsBadEntry v e =
      ((s : Bytes) × (x : IndexBoundsParseError) × (values.kind v ≡ string s)
        × (parse_range s ≡ some (err x))
        × (e ≡ bound_parse x))
      ⊎ (IsNoString (values.kind v) × (e ≡ bound_entry (values.element_type v)))

  -- The entries, one for one and in order.
  abbrev pub AreRanges : List Value → List IndexBoundRange → Type 0
  AreRanges [] [] = Unit
  AreRanges [] (range ∷ ranges) = ⊥
  AreRanges (v ∷ vs) [] = ⊥
  AreRanges (v ∷ vs) (range ∷ ranges) = IsRange v range × AreRanges vs ranges

  -- The first entry that is no range gives the error.
  abbrev pub HasBadEntry : List Value → DetailError ElementType → Type 0
  HasBadEntry [] e = ⊥
  HasBadEntry (v ∷ vs) e =
      IsBadEntry v e ⊎ (((range : IndexBoundRange) × IsRange v range) × HasBadEntry vs e)

  abbrev pub IsField : Value → List IndexBoundRange → Type 0
  IsField v ranges = (vs : List Value) × (values.kind v ≡ array vs) × AreRanges vs ranges

  abbrev pub IsBadField : Value → DetailError ElementType → Type 0
  IsBadField v e =
      ((vs : List Value) × (values.kind v ≡ array vs) × HasBadEntry vs e)
      ⊎ (IsNoArray (values.kind v) × (e ≡ bounds_value (values.element_type v)))

  abbrev IsEntryOutcome : Value → Result (DetailError ElementType) IndexBoundRange → Type 0
  IsEntryOutcome v (ok range) = IsRange v range
  IsEntryOutcome v (err e) = IsBadEntry v e
  IsEntryOutcome v out_of_fuel = ⊥

  abbrev AreEntriesOutcome :
      List Value → Result (DetailError ElementType) (List IndexBoundRange) → Type 0
  AreEntriesOutcome vs (ok ranges) = AreRanges vs ranges
  AreEntriesOutcome vs (err e) = HasBadEntry vs e
  AreEntriesOutcome vs out_of_fuel = ⊥

  abbrev pub IsFieldOutcome :
      Value → Result (DetailError ElementType) (List IndexBoundRange) → Type 0
  IsFieldOutcome v (ok ranges) = IsField v ranges
  IsFieldOutcome v (err e) = IsBadField v e
  IsFieldOutcome v out_of_fuel = ⊥

  read_text :
      (v : Value) (s : Bytes)
      → values.kind v ≡ string s
      → (r : Option (Result IndexBoundsParseError IndexBoundRange)) → parse_range s ≡ r
      → IsEntryOutcome v (elim r [ none ↦ out_of_fuel | some x ↦ map_err bound_parse x ])
  read_text v s h none e = parse_range-ne-none s e
  read_text v s h (some (ok range)) e = (s, h, e)
  read_text v s h (some (err x)) e = inl (s, x, h, e, refl)
  read_text v s h (some out_of_fuel) e = parse_range-ne-out_of_fuel s e

  read_entry :
      (v : Value) (kind : Kind Value Double)
      → values.kind v ≡ kind
      → IsEntryOutcome v (elim kind [
        | string s ↦ elim (parse_range s) [ none ↦ out_of_fuel | some r ↦ map_err bound_parse r ]
        | _ ↦ err (bound_entry (values.element_type v))
      ])
  read_entry v (string s) h = read_text v s h (parse_range s) refl
  read_entry v (int32 n) h = inr (subst IsNoString (sym h) tt, refl)
  read_entry v (int64 n) h = inr (subst IsNoString (sym h) tt, refl)
  read_entry v (double f) h = inr (subst IsNoString (sym h) tt, refl)
  read_entry v (document doc) h = inr (subst IsNoString (sym h) tt, refl)
  read_entry v (array vs) h = inr (subst IsNoString (sym h) tt, refl)
  read_entry v other h = inr (subst IsNoString (sym h) tt, refl)

  bound_entry_of-IsEntryOutcome : (v : Value) → IsEntryOutcome v (bound_entry_of values v)
  unfolding bound_entry_of
  bound_entry_of-IsEntryOutcome v = read_entry v (values.kind v) refl

  push_range :
      (v : Value) (vs : List Value) (range : IndexBoundRange)
      → IsRange v range
      → (rs : Result (DetailError ElementType) (List IndexBoundRange)) → AreEntriesOutcome vs rs
      → AreEntriesOutcome (v ∷ vs) (rs >>= λ ranges. ok (range ∷ ranges))
  push_range v vs range h (ok ranges) hs = (h, hs)
  push_range v vs range h (err e) hs = inr ((range, h), hs)
  push_range v vs range h out_of_fuel hs = absurd hs

  next_entry :
      (v : Value) (vs : List Value) (r : Result (DetailError ElementType) IndexBoundRange)
      (rs : Result (DetailError ElementType) (List IndexBoundRange))
      → IsEntryOutcome v r
      → AreEntriesOutcome vs rs
      → AreEntriesOutcome (v ∷ vs) (r >>= λ range. rs >>= λ ranges. ok (range ∷ ranges))
  next_entry v vs (ok range) rs h hs = push_range v vs range h rs hs
  next_entry v vs (err e) rs h hs = inl h
  next_entry v vs out_of_fuel rs h hs = absurd h

  bound_entries-AreEntriesOutcome :
      (vs : List Value) → AreEntriesOutcome vs (bound_entries values vs)
  unfolding bound_entries
  bound_entries-AreEntriesOutcome [] = tt
  bound_entries-AreEntriesOutcome (v ∷ vs) =
      next_entry v vs (bound_entry_of values v) (bound_entries values vs)
        (bound_entry_of-IsEntryOutcome v) (bound_entries-AreEntriesOutcome vs)

  read_array :
      (v : Value) (vs : List Value)
      → values.kind v ≡ array vs
      → (rs : Result (DetailError ElementType) (List IndexBoundRange)) → AreEntriesOutcome vs rs
      → IsFieldOutcome v rs
  read_array v vs h (ok ranges) hs = (vs, h, hs)
  read_array v vs h (err e) hs = inl (vs, h, hs)
  read_array v vs h out_of_fuel hs = absurd hs

  read_field :
      (v : Value) (kind : Kind Value Double)
      → values.kind v ≡ kind
      → IsFieldOutcome v (elim kind [
        | array vs ↦ bound_entries values vs
        | _ ↦ err (bounds_value (values.element_type v))
      ])
  read_field v (array vs) h =
      read_array v vs h (bound_entries values vs) (bound_entries-AreEntriesOutcome vs)
  read_field v (int32 n) h = inr (subst IsNoArray (sym h) tt, refl)
  read_field v (int64 n) h = inr (subst IsNoArray (sym h) tt, refl)
  read_field v (double f) h = inr (subst IsNoArray (sym h) tt, refl)
  read_field v (string s) h = inr (subst IsNoArray (sym h) tt, refl)
  read_field v (document doc) h = inr (subst IsNoArray (sym h) tt, refl)
  read_field v other h = inr (subst IsNoArray (sym h) tt, refl)

  -- The value of a field gives the ranges of its entries in order, or the error of the first entry
  -- that is no range, or that of a value that is no array.
  pub field_bounds-IsFieldOutcome : (v : Value) → IsFieldOutcome v (field_bounds values v)
  unfolding field_bounds
  field_bounds-IsFieldOutcome v = read_field v (values.kind v) refl
