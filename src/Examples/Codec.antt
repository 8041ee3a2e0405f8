-- ===== src/Examples/Codec.antt =====
-- A concrete reader and writer of documents that keeps the laws asked of the `bson` crate: a
-- document is one number, written as six bytes.
use mongod_proxy.Bytes.Defs.{Bytes}
use mongod_proxy.Bytes.Text.{ascii}
use mongod_proxy.Bson.{Bson, IsBson}
use mongod_proxy.Prelude.{
  ap, Bool-cases, err-ne-ok, length, ok-same, ◌≤◌, subst, ◌++◌, ◌==◌, if◌then◌else◌, ◌≡◌, ℕ, ◌≢◌,
  arith, ◌∷◌, out_of_fuel, err, ok, inr, inl, [], refl, Result,
}

abbrev pub SixError : Type 0
SixError = Unit {0}

abbrev pub written : ℕ → Bytes
written n = 6 ∷ 0 ∷ 0 ∷ 0 ∷ n ∷ 0 ∷ []

unfoldable pub read_six : Bytes → Result SixError (ℕ × Bytes)
read_six [] = err tt
read_six (a ∷ []) = err tt
read_six (a ∷ b ∷ []) = err tt
read_six (a ∷ b ∷ c ∷ []) = err tt
read_six (a ∷ b ∷ c ∷ d ∷ []) = err tt
read_six (a ∷ b ∷ c ∷ d ∷ n ∷ []) = err tt
read_six (a ∷ b ∷ c ∷ d ∷ n ∷ z ∷ rest) = if a == 6 then ok (n, rest) else err tt

abbrev pub six_bson : Bson
six_bson = record {
  Document = ℕ;
  Error = SixError;
  from_reader = read_six;
  to_writer = λ n. ok (written n);
  serialize_to_vec = λ n. ok (written n);
  keys = λ n. ascii "ping" ∷ [];
}

reads_back :
    (n : ℕ) (out rest : Bytes)
    → ◌≡◌ {A = Result SixError Bytes} (ok (written n)) (ok out)
    → read_six (out ++ rest) ≡ ok (n, rest)
unfolding read_six
reads_back n out rest h = subst (λ o. read_six (o ++ rest) ≡ ok (n, rest)) (ok-same h) refl

takes_five :
    (bs rest : Bytes) (n : ℕ)
    → read_six bs ≡ ok (n, rest)
    → (used : Bytes) × (bs ≡ used ++ rest) × (5 ≤ length used)
unfolding read_six
takes_five [] rest n h = absurd (err-ne-ok h)
takes_five (a ∷ []) rest n h = absurd (err-ne-ok h)
takes_five (a ∷ b ∷ []) rest n h = absurd (err-ne-ok h)
takes_five (a ∷ b ∷ c ∷ []) rest n h = absurd (err-ne-ok h)
takes_five (a ∷ b ∷ c ∷ d ∷ []) rest n h = absurd (err-ne-ok h)
takes_five (a ∷ b ∷ c ∷ d ∷ m ∷ []) rest n h = absurd (err-ne-ok h)
takes_five (a ∷ b ∷ c ∷ d ∷ m ∷ z ∷ more) rest n h = elim (Bool-cases (a == 6)) [
  | inl t ↦
      let same : more ≡ rest = ap (λ (p : ℕ × Bytes). p.1) (ok-same (rw t at h)) in
      (a ∷ b ∷ c ∷ d ∷ m ∷ z ∷ [], ap (λ (l : Bytes). a ∷ b ∷ c ∷ d ∷ m ∷ z ∷ l) same, omega arith)
  | inr f ↦ absurd (err-ne-ok (rw f at h))
]

reader_ends : (bs : Bytes) → read_six bs ≢ out_of_fuel
unfolding read_six
reader_ends bs h = ground arith

pub six_bson-IsBson : IsBson six_bson
six_bson-IsBson = record {
  reads_back = reads_back;
  takes_five = takes_five;
  vec_agrees = λ d. refl;
  reader_ends = reader_ends;
  writer_ends = λ d h. ground arith;
}
