-- ===== src/Explain/Model/Trim.antt =====
-- A text between two characters that are no white space is as `str::trim` leaves it.
-- The printable characters of ASCII but the space.
use mongod_proxy.Bytes.Defs.{Bytes, eq_bytes}
use mongod_proxy.Explain.Model.Text.{trim_start, trim_end, trim, white_space, skip_white}
use mongod_proxy.Prelude.{
  drop-append, drop, ◌==◌, ◌∙◌, ap, Bool-cases, arith, length, ◌++◌, ◌≡◌, ◌<◌, ◌≤◌, ℕ, ◌∷◌, inr,
  inl, [], suc, zero, false, refl,
}

abbrev pub IsPlain : ℕ → Type 0
IsPlain c = (33 ≤ c) × (c < 128)

white_space-plain : (o : ℕ) (s : Bytes) → IsPlain o → white_space (o ∷ s) ≡ 0
unfolding white_space
white_space-plain o [] h = ground arith
white_space-plain o (b ∷ []) h = ground arith
white_space-plain o (b ∷ c ∷ s) h = ground arith

trim_start-plain : (o : ℕ) (s : Bytes) → IsPlain o → trim_start (o ∷ s) ≡ o ∷ s
unfolding trim_start skip_white
trim_start-plain o s h = rw (white_space-plain o s h) refl

-- White space in front of a last character that is none does not reach it.
white_space-le : (x : Bytes) (c : ℕ) → IsPlain c → white_space (x ++ (c ∷ [])) ≤ length x
unfolding white_space
white_space-le [] c h = ground arith
white_space-le (a ∷ []) c h = ground arith
white_space-le (a ∷ b ∷ []) c h = ground arith
white_space-le (a ∷ b ∷ d ∷ x) c h = ground arith

skip_white-last :
    (n : ℕ) (x : Bytes) (c : ℕ)
    → IsPlain c
    → (y : Bytes) × (skip_white n (x ++ (c ∷ [])) ≡ y ++ (c ∷ []))
unfolding skip_white
skip_white-last zero x c h = (x, refl)
skip_white-last (suc n) x c h = elim (Bool-cases (white_space (x ++ (c ∷ [])) == 0)) [
  | inl t ↦ (x, rw t refl)
  | inr f ↦
      let (y, e) = skip_white-last n (drop (white_space (x ++ (c ∷ []))) x) c h in
      (
        y,
        rw f (
            ap (skip_white n)
              (drop-append (white_space (x ++ (c ∷ []))) x (c ∷ []) (white_space-le x c h))
            ∙ e),
      )
]

not_empty : (y : Bytes) (c : ℕ) → eq_bytes (y ++ (c ∷ [])) [] ≡ false
unfolding eq_bytes
not_empty [] c = refl
not_empty (b ∷ y) c = refl

trim_start-last : (x : Bytes) (c : ℕ) → IsPlain c → eq_bytes (trim_start (x ++ (c ∷ []))) [] ≡ false
unfolding trim_start
trim_start-last x c h =
    let (y, e) = skip_white-last (length (x ++ (c ∷ []))) x c h in
    ap (λ (s : Bytes). eq_bytes s []) e ∙ not_empty y c

trim_end-last : (x : Bytes) (c : ℕ) → IsPlain c → trim_end (x ++ (c ∷ [])) ≡ x ++ (c ∷ [])
unfolding trim_end
trim_end-last [] c h = rw (trim_start-last [] c h) refl
trim_end-last (b ∷ x) c h =
    rw (trim_start-last (b ∷ x) c h) (ap (λ (s : Bytes). b ∷ s) (trim_end-last x c h))

pub trim-plain :
    (o c : ℕ) (s : Bytes) → IsPlain o → IsPlain c → trim (o ∷ (s ++ (c ∷ []))) ≡ o ∷ (s ++ (c ∷ []))
unfolding trim
trim-plain o c s ho hc =
    ap trim_end (trim_start-plain o (s ++ (c ∷ [])) ho) ∙ trim_end-last (o ∷ s) c hc
