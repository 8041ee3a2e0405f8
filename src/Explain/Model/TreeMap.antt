-- ===== src/Explain/Model/TreeMap.antt =====
-- The laws of the `BTreeMap` that src/serve/explain/model/plan_details.rs collects index bounds in.
use mongod_proxy.Bytes.Laws.{eq_bytes_iff}
use mongod_proxy.Explain.Model.Decode.{ordered_then, compare_bytes, btree_insert}
use mongod_proxy.Bytes.Defs.{eq_bytes, Bytes}
use mongod_proxy.Prelude.{
  subst, ◌==◌, ◌∙◌, Bool-cases, sym, ap, Bool, ◌⊎◌, inr, inl, false, true, refl, if◌then◌else◌,
  Option, arith, List, ◌≡◌, ℕ, ◌∷◌, [], none, some,
}
use Prim.Native.Nat.{compare, Ordering}

-- `BTreeMap::get`.
unfoldable pub get : {A : Type 0} → Bytes → List (Bytes × A) → Option A
get k [] = none
get k ((j, b) ∷ entries) = let rest = get k entries in if eq_bytes k j then some b else rest

abbrev pub or_else : {A : Type 0} → Option A → Option A → Option A
or_else (some a) fallback = some a
or_else none fallback = fallback

-- What a document has under a key: the last one, if there are several.
unfoldable pub last_value : {A : Type 0} → Bytes → List (Bytes × A) → Option A
last_value k [] = none
last_value k ((j, v) ∷ doc) = or_else (last_value k doc) (if eq_bytes k j then some v else none)

compare_swap : (m n : ℕ) → compare m n ≡ Ordering.gt → compare n m ≡ Ordering.lt
compare_swap m n h = ground arith

compare_eq : (m n : ℕ) → compare m n ≡ Ordering.eq → m ≡ n
compare_eq m n h = ground arith

compare_self : (m : ℕ) → compare m m ≡ Ordering.eq
compare_self m = ground arith

Ordering-cases : (o : Ordering) → (o ≡ Ordering.lt) ⊎ ((o ≡ Ordering.eq) ⊎ (o ≡ Ordering.gt))
Ordering-cases Ordering.lt = inl refl
Ordering-cases Ordering.eq = inr (inl refl)
Ordering-cases Ordering.gt = inr (inr refl)

then_gt :
    (o p : Ordering)
    → ordered_then o p ≡ Ordering.gt
    → (o ≡ Ordering.gt) ⊎ ((o ≡ Ordering.eq) × (p ≡ Ordering.gt))
then_gt Ordering.lt p h = absurd cc
then_gt Ordering.eq p h = inr (refl, h)
then_gt Ordering.gt p h = inl refl

-- Two texts compare as equal exactly when they are, and swapping them swaps the order.
compare_bytes-gt : (s t : Bytes) → compare_bytes s t ≡ Ordering.gt → compare_bytes t s ≡ Ordering.lt
unfolding compare_bytes
compare_bytes-gt [] [] h = cc
compare_bytes-gt [] (c ∷ t) h = cc
compare_bytes-gt (b ∷ s) [] h = refl
compare_bytes-gt (b ∷ s) (c ∷ t) h = elim (then_gt (compare b c) (compare_bytes s t) h) [
  | inl e ↦ rw (compare_swap b c e) refl
  | inr (e, later) ↦ rw (compare_eq b c e, compare_self c, compare_bytes-gt s t later) refl
]

abbrev is_eq : Ordering → Bool
is_eq Ordering.lt = false
is_eq Ordering.eq = true
is_eq Ordering.gt = false

eq_bytes-compare_bytes : (s t : Bytes) → eq_bytes s t ≡ is_eq (compare_bytes s t)
unfolding compare_bytes eq_bytes
eq_bytes-compare_bytes [] [] = refl
eq_bytes-compare_bytes [] (c ∷ t) = refl
eq_bytes-compare_bytes (b ∷ s) [] = refl
eq_bytes-compare_bytes (b ∷ s) (c ∷ t) = elim (Ordering-cases (compare b c)) [
  | inl e ↦ let test : (b == c) ≡ false = ground arith in rw (test, e) refl
  | inr (inl e) ↦
      let test : (b == c) ≡ true = ground arith in rw (test, e, eq_bytes-compare_bytes s t) refl
  | inr (inr e) ↦ let test : (b == c) ≡ false = ground arith in rw (test, e) refl
]

compared_eq : (s t : Bytes) → compare_bytes s t ≡ Ordering.eq → s ≡ t
compared_eq s t e = (eq_bytes_iff s t).0 (rw (eq_bytes-compare_bytes s t, e) refl)

apart :
    (f k j : Bytes) → compare_bytes k j ≡ Ordering.gt → eq_bytes f j ≡ true → eq_bytes f k ≡ false
apart f k j e t = elim (Bool-cases (eq_bytes f k)) [
  | inl u ↦
      let same : k ≡ j = sym ((eq_bytes_iff f k).0 u) ∙ (eq_bytes_iff f j).0 t in
      let found : eq_bytes k j ≡ false = rw (eq_bytes-compare_bytes k j, e) refl in
      let wanted : eq_bytes k j ≡ true = (eq_bytes_iff k j).1 same in absurd cc
  | inr u ↦ u
]

-- The three places of an entry.
module _ {A : Type 0} (k j : Bytes) (a b : A) (entries : List (Bytes × A)) where
  insert_before :
      compare_bytes k j ≡ Ordering.lt
      → btree_insert k a ((j, b) ∷ entries) ≡ (k, a) ∷ (j, b) ∷ entries
  unfolding btree_insert
  insert_before e = rw (e, btree_insert) refl

  insert_at :
      compare_bytes k j ≡ Ordering.eq → btree_insert k a ((j, b) ∷ entries) ≡ (j, a) ∷ entries
  unfolding btree_insert
  insert_at e = rw (e, btree_insert) refl

  insert_behind :
      compare_bytes k j ≡ Ordering.gt
      → btree_insert k a ((j, b) ∷ entries) ≡ (j, b) ∷ btree_insert k a entries
  unfolding btree_insert
  insert_behind e = rw (e, btree_insert) refl

pub get-btree_insert :
    {A : Type 0} (k f : Bytes) (a : A) (entries : List (Bytes × A))
    → get f (btree_insert k a entries) ≡ (if eq_bytes f k then some a else get f entries)
unfolding get btree_insert
get-btree_insert k f a [] = refl
get-btree_insert k f a ((j, b) ∷ entries) = elim (Ordering-cases (compare_bytes k j)) [
  | inl e ↦ rw (insert_before k j a b entries e) refl
  | inr (inl e) ↦
      let same : eq_bytes f j ≡ eq_bytes f k = ap (λ i. eq_bytes f i) (sym (compared_eq k j e)) in
      elim (Bool-cases (eq_bytes f k)) [
        | inl t ↦ rw (insert_at k j a b entries e, same, t) refl
        | inr t ↦ rw (insert_at k j a b entries e, same, t) refl
      ]
  | inr (inr e) ↦ elim (Bool-cases (eq_bytes f j)) [
    | inl t ↦ rw (insert_behind k j a b entries e, t, apart f k j e t) refl
    | inr t ↦ rw (insert_behind k j a b entries e, t) (get-btree_insert k f a entries)
  ]
]

abbrev IsBelow : {A : Type 0} → Bytes → List (Bytes × A) → Type 0
IsBelow k [] = Unit
IsBelow k ((j, b) ∷ entries) = compare_bytes k j ≡ Ordering.lt

abbrev pub IsAscending : {A : Type 0} → List (Bytes × A) → Type 0
IsAscending [] = Unit
IsAscending ((k, a) ∷ entries) = IsBelow k entries × IsAscending entries

IsBelow-btree_insert :
    {A : Type 0} (j k : Bytes) (a : A) (entries : List (Bytes × A))
    → compare_bytes j k ≡ Ordering.lt
    → IsBelow j entries
    → IsBelow j (btree_insert k a entries)
unfolding btree_insert
IsBelow-btree_insert j k a [] h below = h
IsBelow-btree_insert j k a ((i, b) ∷ entries) h below = elim (Ordering-cases (compare_bytes k i)) [
  | inl e ↦ rw (insert_before k i a b entries e) h
  | inr (inl e) ↦ rw (insert_at k i a b entries e) below
  | inr (inr e) ↦ rw (insert_behind k i a b entries e) below
]

pub IsAscending-btree_insert :
    {A : Type 0} (k : Bytes) (a : A) (entries : List (Bytes × A))
    → IsAscending entries
    → IsAscending (btree_insert k a entries)
unfolding btree_insert
IsAscending-btree_insert k a [] h = (tt, tt)
IsAscending-btree_insert k a ((j, b) ∷ entries) (below, h) =
    elim (Ordering-cases (compare_bytes k j)) [
      | inl e ↦ subst IsAscending (sym (insert_before k j a b entries e)) (e, (below, h))
      | inr (inl e) ↦ subst IsAscending (sym (insert_at k j a b entries e)) (below, h)
      | inr (inr e) ↦ subst IsAscending (sym (insert_behind k j a b entries e)) (
        IsBelow-btree_insert j k a entries (compare_bytes-gt k j e) below,
        IsAscending-btree_insert k a entries h,
      )
    ]
