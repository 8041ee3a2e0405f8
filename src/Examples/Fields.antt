-- ===== src/Examples/Fields.antt =====
-- Documents as lists of named texts, which keep the laws that the development asks of documents.
use mongod_proxy.Prelude.{
  true, sym, inl, ap, arith, Bool-cases, Option, ◌≢◌, ◌++◌, ◌≡◌, if◌then◌else◌, List, ◌∙◌, ◌∷◌, err,
  inr, [], none, some, false, refl,
}
use mathlib.Core.List
use mongod_proxy.Bson.{Bson}
use mongod_proxy.Bson.Documents.{Documents, IsDocuments, find_entry}
use mongod_proxy.Bytes.Defs.{Bytes, eq_bytes}
use mongod_proxy.Bytes.Laws.{eq_bytes_iff}

abbrev pub Fields : Type 0
Fields = List (Bytes × Bytes)

abbrev pub text_bson : Bson
text_bson = record {
  Document = Fields;
  Error = Unit {0};
  from_reader = λ bs. err tt;
  to_writer = λ d. err tt;
  serialize_to_vec = λ d. err tt;
  keys = List.map (λ (p : Bytes × Bytes). p.0);
}

unfoldable pub without : Fields → Bytes → Fields
unfolding eq_bytes
without [] k = []
without ((j, v) ∷ d) k = let rest = without d k in if eq_bytes j k then rest else (j, v) ∷ rest

abbrev flatten : Fields → Bytes
flatten [] = []
flatten ((k, v) ∷ d) = k ++ (v ++ flatten d)

abbrev concat : List Bytes → Bytes
concat [] = []
concat (v ∷ vs) = v ++ concat vs

abbrev pub text_docs : Documents Fields
text_docs = record {
  Value = Bytes;
  entries = λ d. d;
  empty = [];
  get = λ d k. find_entry k none d;
  insert = λ d k v. without d k ++ ((k, v) ∷ []);
  remove = without;
  as_str = λ v. some v;
  string = λ v. v;
  embed = flatten;
  array = concat;
}

differ : (j k i : Bytes) → eq_bytes j k ≢ eq_bytes i k → eq_bytes j i ≡ false
differ j k i h = elim (Bool-cases (eq_bytes j i)) [
  | inl t ↦ absurd (h (ap (λ (x : Bytes). eq_bytes x k) ((eq_bytes_iff j i).0 t)))
  | inr f ↦ f
]

true-ne-false : true ≢ false
true-ne-false e = cc

flipped : (k j : Bytes) → eq_bytes k j ≡ false → eq_bytes j k ≡ false
flipped k j h = elim (Bool-cases (eq_bytes j k)) [
  | inl t ↦ absurd (true-ne-false (sym ((eq_bytes_iff k j).1 (sym ((eq_bytes_iff j k).0 t))) ∙ h))
  | inr f ↦ f
]

find_entry-append :
    (k j v : Bytes) (o : Option Bytes) (d : Fields)
    → find_entry j o (d ++ ((k, v) ∷ [])) ≡ (if eq_bytes j k then some v else find_entry j o d)
unfolding find_entry
find_entry-append k j v o [] = refl
find_entry-append k j v o ((i, w) ∷ d) =
    find_entry-append k j v (if eq_bytes j i then some w else o) d

find_entry-without :
    (k j : Bytes) (o : Option Bytes) (d : Fields)
    → find_entry j o (without d k) ≡ (if eq_bytes j k then o else find_entry j o d)
unfolding find_entry without
find_entry-without k j o [] = ground arith
find_entry-without k j o ((i, w) ∷ d) = elim (Bool-cases (eq_bytes i k)) [
  | inl ik ↦ elim (Bool-cases (eq_bytes j k)) [
    | inl jk ↦ rw (without, ik) (find_entry-without k j o d ∙ rw jk refl)
    | inr jk ↦ rw (without, ik) (find_entry-without k j o d ∙ rw (jk, differ j k i (λ e. cc)) refl)
  ]
  | inr ik ↦ elim (Bool-cases (eq_bytes j k)) [
    | inl jk ↦
        rw (without, ik)
          (find_entry-without k j (if eq_bytes j i then some w else o) d
            ∙ rw (jk, differ j k i (λ e. cc)) refl)
    | inr jk ↦
        rw (without, ik)
          (find_entry-without k j (if eq_bytes j i then some w else o) d ∙ rw jk refl)
  ]
]

same_found :
    (k j : Bytes) (v : Bytes) (d : Fields)
    → (if eq_bytes j k then some v else find_entry j none (without d k))
      ≡ (if eq_bytes j k then some v else find_entry j none d)
same_found k j v d = elim (Bool-cases (eq_bytes j k)) [
  | inl t ↦ rw t refl
  | inr f ↦ rw f (find_entry-without k j none d ∙ rw f refl)
]

found_stays : (k w : Bytes) (d : Fields) → find_entry k (some w) d ≢ none
unfolding find_entry
found_stays k w [] e = cc
found_stays k w ((j, v) ∷ d) e = elim (Bool-cases (eq_bytes k j)) [
  | inl t ↦ found_stays k v d (sym (rw (find_entry, t) refl) ∙ e)
  | inr f ↦ found_stays k w d (sym (rw (find_entry, f) refl) ∙ e)
]

kept_whole : (k : Bytes) (d : Fields) → find_entry k none d ≡ none → without d k ≡ d
unfolding find_entry without
kept_whole k [] h = refl
kept_whole k ((j, v) ∷ d) h = elim (Bool-cases (eq_bytes k j)) [
  | inl t ↦ absurd (found_stays k v d (sym (rw (find_entry, t) refl) ∙ h))
  | inr f ↦
      rw (without, flipped k j f)
        (ap (λ (l : Fields). (j, v) ∷ l) (kept_whole k d (sym (rw (find_entry, f) refl) ∙ h)))
]

keys-append :
    (d : Fields) (k v : Bytes)
    → List.map (λ (p : Bytes × Bytes). p.0) (d ++ ((k, v) ∷ []))
      ≡ List.map (λ (p : Bytes × Bytes). p.0) d ++ (k ∷ [])
keys-append [] k v = refl
keys-append ((j, w) ∷ d) k v = ap (λ (l : List Bytes). j ∷ l) (keys-append d k v)

pub text_docs-IsDocuments : IsDocuments text_bson text_docs
unfolding find_entry
text_docs-IsDocuments = record {
  get_empty = λ k. refl;
  get_insert = λ d k j v. find_entry-append k j v none (without d k) ∙ same_found k j v d;
  get_remove = λ d k j. find_entry-without k j none d;
  get_entries = λ d k. refl;
  keys_empty = refl;
  keys_insert = λ d k v h.
      keys-append (without d k) k v
      ∙ ap (λ (l : Fields). List.map (λ (p : Bytes × Bytes). p.0) l ++ (k ∷ [])) (kept_whole k d h);
}
