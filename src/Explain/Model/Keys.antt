-- ===== src/Explain/Model/Keys.antt =====
-- The order of a compound index, which the key pattern of src/serve/explain/model/plan_details.rs
-- keeps.
use mongod_proxy.Bytes.Defs.{Bytes}
use mongod_proxy.Explain.Model.Details.{KeyPatternField}
use mongod_proxy.Explain.Model.Decode.{from_bson, key_fields, Values}
use mongod_proxy.Prelude.{◌∙◌, >>=-eq-ok, sym, ap, ◌≡◌, List, ◌∷◌, ok}
use mongod_proxy.Prelude.{[], ◌∷◌}

abbrev names : {A : Type 0} → List (Bytes × A) → List Bytes
names [] = []
names ((k, v) ∷ doc) = k ∷ names doc

abbrev indexed : List KeyPatternField → List Bytes
indexed [] = []
indexed (f ∷ fields) = f.field ∷ indexed fields

module _ (values : Values) where
  -- The fields of a key pattern are those of its document, one for one and in order.
  pub key_fields-names :
      (doc : List (Bytes × values.Value)) (fields : List KeyPatternField)
      → key_fields values doc ≡ ok fields
      → indexed fields ≡ names doc
  unfolding key_fields
  key_fields-names [] fields e = let same : [] ≡ fields = cc in ap indexed (sym same)
  key_fields-names ((k, v) ∷ doc) fields e =
      let (kind, e1, e2) = >>=-eq-ok (from_bson values v) _ e in
      let (others, e3, e4) = >>=-eq-ok (key_fields values doc) _ e2 in
      let same : fields ≡ record { field = k; kind = kind } ∷ others = cc in
      ap indexed same ∙ ap (λ ks. k ∷ ks) (key_fields-names doc others e3)
