-- ===== src/Explain/Model/Halves.antt =====
-- What `Namespace::parse` of src/serve/explain/model/namespace.rs gives for each text.
use mongod_proxy.Bytes.Laws.{eq_bytes_iff}
use mongod_proxy.Bytes.Text.{ascii}
use mongod_proxy.Bytes.Defs.{Bytes, eq_bytes}
use mongod_proxy.Explain.Model.Namespace
use mongod_proxy.Explain.Model.Namespace.{
  NamespaceParseErrorKind, no_dot, bad_database, bad_collection, validate_collection,
  validate_database, collection_try_new, database_try_new, NamespaceParseError, from_halves,
  Namespace,
}
use mongod_proxy.Explain.Model.Text.{trim_start, trim}
use mongod_proxy.Uri.Text.{split_once, strip_prefix}
use mongod_proxy.Prelude.{
  subst, true, ◌==◌, All, sym, ap, ℕ, Bool-cases, arith, ◌≢◌, ◌++◌, Option, ◌≡◌, Result, ◌∷◌,
  out_of_fuel, err, ok, inr, inl, [], none, some, false, refl,
}

cons_front : ℕ → Option (Bytes × Bytes) → Option (Bytes × Bytes)
cons_front b none = none
cons_front b (some (front, back)) = some (b ∷ front, back)

-- The name is the trimmed text, and not empty.
abbrev pub IsName : Bytes → Bytes → Type 0
IsName s name = (name ≡ trim s) × (name ≢ [])

named : (s : Bytes) → eq_bytes (trim (trim s)) [] ≡ false → IsName s (trim s)
unfolding trim eq_bytes trim_start
named s h = (refl, λ e. cc)

-- No dot.
abbrev pub NoDot : Bytes → Type 0
NoDot s = All (λ (b : ℕ). (46 == b) ≡ false) s

abbrev IsSplit : Bytes → Option (Bytes × Bytes) → Type 0
IsSplit s none = NoDot s
IsSplit s (some (front, back)) = NoDot front × (s ≡ front ++ (ascii "." ++ back))

split_here :
    (b : ℕ) (bs : Bytes) → (46 == b) ≡ true → split_once (ascii ".") (b ∷ bs) ≡ some ([], bs)
unfolding split_once strip_prefix
split_here b bs t = rw (split_once, t) refl

split_there :
    (b : ℕ) (bs : Bytes)
    → (46 == b) ≡ false
    → split_once (ascii ".") (b ∷ bs) ≡ cons_front b (split_once (ascii ".") bs)
unfolding split_once strip_prefix cons_front
split_there b bs f = rw (split_once, f) refl

cons_front-IsSplit :
    (b : ℕ) (bs : Bytes) (later : Option (Bytes × Bytes))
    → (46 == b) ≡ false
    → IsSplit bs later
    → IsSplit (b ∷ bs) (cons_front b later)
unfolding cons_front
cons_front-IsSplit b bs none f h = (f, h)
cons_front-IsSplit b bs (some (front, back)) f (h, e) = ((f, h), ap (λ (l : Bytes). b ∷ l) e)

split_once-IsSplit : (s : Bytes) → IsSplit s (split_once (ascii ".") s)
unfolding split_once strip_prefix
split_once-IsSplit [] = tt
split_once-IsSplit (b ∷ bs) = elim (Bool-cases (46 == b)) [
  | inl t ↦
      let same : b ≡ 46 = ground arith in
      subst (IsSplit (b ∷ bs)) (sym (split_here b bs t)) (tt, ap (λ (c : ℕ). c ∷ bs) same)
  | inr f ↦
      subst (IsSplit (b ∷ bs)) (sym (split_there b bs f))
        (cons_front-IsSplit b bs (split_once (ascii ".") bs) f (split_once-IsSplit bs))
]

-- The text stands around its first dot.
abbrev pub IsHalved : Bytes → Bytes → Bytes → Type 0
IsHalved raw db coll = NoDot db × (raw ≡ db ++ (ascii "." ++ coll))

-- A half that is white space only; the constructors trim a text, and then validate it trimmed.
abbrev pub IsBlank : Bytes → Type 0
IsBlank s = trim (trim s) ≡ []

-- Why there is no namespace.
abbrev pub IsCause : Bytes → NamespaceParseErrorKind → Type 0
IsCause raw no_dot = NoDot raw
IsCause raw (bad_database e) = (db : Bytes) × (coll : Bytes) × IsHalved raw db coll × IsBlank db
IsCause raw (bad_collection e) =
    (db : Bytes) × (coll : Bytes) × IsHalved raw db coll × IsName db (trim db) × IsBlank coll

-- Success takes a text of two names around its first dot; a failure keeps the whole text and has a
-- cause.
abbrev pub IsOutcome : Bytes → Result NamespaceParseError Namespace → Type 0
IsOutcome raw (ok ns) =
    (db : Bytes) × (coll : Bytes) × IsHalved raw db coll
    × IsName db (ns.database).database_name
    × IsName coll (ns.collection).collection_name
IsOutcome raw (err e) = (e.raw ≡ raw) × IsCause raw e.kind
IsOutcome raw out_of_fuel = ⊥

from_halves-IsOutcome :
    (raw db coll : Bytes) → IsHalved raw db coll → IsOutcome raw (from_halves raw (some (db, coll)))
unfolding from_halves database_try_new collection_try_new validate_database validate_collection
from_halves-IsOutcome raw db coll h = elim (Bool-cases (eq_bytes (trim (trim db)) [])) [
  | inl empty ↦
      rw (from_halves, empty) (refl, (db, coll, h, (eq_bytes_iff (trim (trim db)) []).0 empty))
  | inr d ↦ elim (Bool-cases (eq_bytes (trim (trim coll)) [])) [
    | inl empty ↦
        rw (from_halves, d, empty)
          (refl, (db, coll, h, named db d, (eq_bytes_iff (trim (trim coll)) []).0 empty))
    | inr c ↦ rw (from_halves, d, c) (db, coll, h, named db d, named coll c)
  ]
]

by_halves-IsOutcome :
    (raw : Bytes) (halves : Option (Bytes × Bytes))
    → IsSplit raw halves
    → IsOutcome raw (from_halves raw halves)
unfolding from_halves
by_halves-IsOutcome raw none h = (refl, h)
by_halves-IsOutcome raw (some (db, coll)) h = from_halves-IsOutcome raw db coll h

-- `Namespace::parse` gives the trimmed, non-empty names around the first dot of the text, or an
-- error that keeps the whole text: the text has no dot, or what stands in front of the first dot
-- is blank, or that is a name and what stands behind the dot is blank.
pub parse-IsOutcome : (raw : Bytes) → IsOutcome raw (Namespace.parse raw)
unfolding Namespace.parse
parse-IsOutcome raw = by_halves-IsOutcome raw (split_once (ascii ".") raw) (split_once-IsSplit raw)
