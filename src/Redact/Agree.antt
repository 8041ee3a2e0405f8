-- ===== src/Redact/Agree.antt =====
-- What a rendering of src/redact.rs tells of a document.
use mongod_proxy.Bytes.Defs.{Bytes}
use mongod_proxy.Redact.Defs.{
  shown_code, code_with_scope, Entries, Fields, Value, Items, no_fields, field, document, array,
  scalar, no_items, item, Rendered, redacted, shown, map, list, render_fields, render_value,
  render_items, is_sensitive_key, entry,
}
use mongod_proxy.Prelude.{
  Bool-cases, ap, inl, inr, ◌≡◌, ◌↔◌, ◌⊎◌, true, false, refl, Bool, if◌then◌else◌,
}

module _ {S : Type 0} where
  -- Two documents that differ only in what stands under sensitive keys, at any depth of documents
  -- and arrays; the scopes of JavaScript codes are equal.
  unfoldable mutual
    pub Agree : Fields S → Fields S → Type 0
    Agree no_fields no_fields = Unit
    Agree no_fields (field j w e) = ⊥
    Agree (field k v d) no_fields = ⊥
    Agree (field k v d) (field j w e) =
        (k ≡ j) × ((is_sensitive_key k ≡ true) ⊎ AgreeValue v w) × Agree d e

    pub AgreeValue : Value S → Value S → Type 0
    AgreeValue (document d) (document e) = Agree d e
    AgreeValue (array xs) (array ys) = AgreeItems xs ys
    AgreeValue (code_with_scope c d) (code_with_scope b e) = (c ≡ b) × (d ≡ e)
    AgreeValue (scalar s) (scalar t) = s ≡ t
    AgreeValue _ _ = ⊥

    pub AgreeItems : Items S → Items S → Type 0
    AgreeItems no_items no_items = Unit
    AgreeItems no_items (item w ys) = ⊥
    AgreeItems (item v xs) no_items = ⊥
    AgreeItems (item v xs) (item w ys) = AgreeValue v w × AgreeItems xs ys

  mutual
    unfolding render_fields Agree

    same_fields : (d e : Fields S) → Agree d e → render_fields d ≡ render_fields e
    same_fields no_fields no_fields h = refl
    same_fields no_fields (field j w e) h = absurd h
    same_fields (field k v d) no_fields h = absurd h
    same_fields (field k v d) (field j w e) (kj, inl hidden, h) =
        rw (← kj, hidden, same_fields d e h) refl
    same_fields (field k v d) (field j w e) (kj, inr deep, h) =
        rw (← kj, same_value v w deep, same_fields d e h) refl

    same_value : (v w : Value S) → AgreeValue v w → render_value v ≡ render_value w
    same_value (document d) (document e) h = ap (λ x. map x) (same_fields d e h)
    same_value (document d) (array ys) h = absurd h
    same_value (document d) (code_with_scope b e) h = absurd h
    same_value (document d) (scalar t) h = absurd h
    same_value (array xs) (document e) h = absurd h
    same_value (array xs) (array ys) h = ap (λ x. list x) (same_items xs ys h)
    same_value (array xs) (code_with_scope b e) h = absurd h
    same_value (array xs) (scalar t) h = absurd h
    same_value (code_with_scope c d) (document e) h = absurd h
    same_value (code_with_scope c d) (array ys) h = absurd h
    same_value (code_with_scope c d) (code_with_scope b e) h = λ i. shown_code (h.0 i) (h.1 i)
    same_value (code_with_scope c d) (scalar t) h = absurd h
    same_value (scalar s) (document e) h = absurd h
    same_value (scalar s) (array ys) h = absurd h
    same_value (scalar s) (code_with_scope b e) h = absurd h
    same_value (scalar s) (scalar t) h = ap (λ x. shown x) h

    same_items : (xs ys : Items S) → AgreeItems xs ys → render_items xs ≡ render_items ys
    same_items no_items no_items h = refl
    same_items no_items (item w ys) h = absurd h
    same_items (item v xs) no_items h = absurd h
    same_items (item v xs) (item w ys) (h, hs) = rw (same_value v w h, same_items xs ys hs) refl

  same_entry :
      {k j : Bytes} {r t : Rendered S} {d e : Entries S}
      → entry k r d ≡ entry j t e
      → (k ≡ j) × (r ≡ t) × (d ≡ e)
  same_entry h = (cc, cc, cc)

  peel :
      (b c : Bool) {x y : Rendered S}
      → b ≡ false
      → b ≡ c
      → (if b then redacted else x) ≡ (if c then redacted else y)
      → x ≡ y
  peel true c f e h = cc
  peel false true f e h = cc
  peel false false f e h = h

  mutual
    unfolding render_fields Agree

    told_fields : (d e : Fields S) → render_fields d ≡ render_fields e → Agree d e
    told_fields no_fields no_fields h = tt
    told_fields no_fields (field j w e) h = cc
    told_fields (field k v d) no_fields h = cc
    told_fields (field k v d) (field j w e) h =
        let (kj, rs, rest) = same_entry h in
        (
          kj,
          elim (Bool-cases (is_sensitive_key k)) [
            | inl hidden ↦ inl hidden
            | inr open_key ↦ inr (
                told_value v w (
                  peel (is_sensitive_key k) (is_sensitive_key j) open_key (ap is_sensitive_key kj)
                    rs))
          ],
          told_fields d e rest,
        )

    told_value : (v w : Value S) → render_value v ≡ render_value w → AgreeValue v w
    told_value (document d) (document e) h = told_fields d e cc
    told_value (document d) (array ys) h = cc
    told_value (document d) (code_with_scope b e) h = cc
    told_value (document d) (scalar t) h = cc
    told_value (array xs) (document e) h = cc
    told_value (array xs) (array ys) h = told_items xs ys cc
    told_value (array xs) (code_with_scope b e) h = cc
    told_value (array xs) (scalar t) h = cc
    told_value (code_with_scope c d) (document e) h = cc
    told_value (code_with_scope c d) (array ys) h = cc
    told_value (code_with_scope c d) (code_with_scope b e) h = (cc, cc)
    told_value (code_with_scope c d) (scalar t) h = cc
    told_value (scalar s) (document e) h = cc
    told_value (scalar s) (array ys) h = cc
    told_value (scalar s) (code_with_scope b e) h = cc
    told_value (scalar s) (scalar t) h = cc

    told_items : (xs ys : Items S) → render_items xs ≡ render_items ys → AgreeItems xs ys
    told_items no_items no_items h = tt
    told_items no_items (item w ys) h = cc
    told_items (item v xs) no_items h = cc
    told_items (item v xs) (item w ys) h = (told_value v w cc, told_items xs ys cc)

  -- Two documents have the same rendering exactly when they agree in everything except the values
  -- that stand under sensitive keys, at any depth of documents and arrays.
  pub render_fields-Agree : (d e : Fields S) → (render_fields d ≡ render_fields e) ↔ Agree d e
  render_fields-Agree d e = (told_fields d e, same_fields d e)
