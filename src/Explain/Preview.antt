-- ===== src/Explain/Preview.antt =====
-- `truncate_doc_preview` of src/serve/explain/util.rs. The `Debug` rendering of a document is the
-- pieces that the `bson` crate writes one after the other.
use mongod_proxy.Bytes.Text.{ascii}
use mongod_proxy.Prelude.{
  length-take, take-append-drop, ap, ◌∙◌, sym, append_assoc, length-append, append-nil, subst, ◌⊎◌,
  ◌+◌, refl, take, ◌-◌, leb, ◌||◌, Bool-cases, drop, arith, ◌≡◌, length, ◌≤◌, if◌then◌else◌, ltb,
  List, Bool, ℕ, ◌++◌, ◌∷◌, inr, inl, [], suc, zero, false, true,
}
use mongod_proxy.Bytes.Defs.{Bytes}

-- A byte that does not continue a character.
unfoldable pub starts_char : Bytes → Bool
starts_char [] = true
starts_char (b ∷ bs) = ltb b 128 || leb 192 b

-- The highest character boundary that is not above the index.
unfoldable pub boundary : Bytes → ℕ → ℕ
unfolding starts_char
boundary s zero = 0
boundary s (suc n) =
    let lower = boundary s n in if starts_char (drop (suc n) s) then suc n else lower

-- `BoundedWrite::write_str`: the buffer behind it, and whether it failed.
unfoldable pub write_str : ℕ → Bytes → Bytes → Bytes × Bool
unfolding boundary
write_str cap buf s =
    if leb cap (length buf)
    then (buf, true)
    else if leb (length s) (cap - length buf)
    then (buf ++ s, false)
    else (buf ++ take (boundary s (cap - length buf)) s, true)

-- `write!` stops at the first piece that fails.
unfoldable pub write_pieces : ℕ → List Bytes → Bytes → Bytes × Bool
unfolding write_str
write_pieces cap [] buf = (buf, false)
write_pieces cap (piece ∷ pieces) buf =
    let (out, failed) = write_str cap buf piece in
    let rest = write_pieces cap pieces out in if failed then (out, true) else rest

abbrev pub marker : Bytes
marker = (0xE2 ∷ 0x80 ∷ 0xA6 ∷ []) ++ ascii "[truncated]"

unfoldable pub truncate_doc_preview : List Bytes → ℕ → Bytes
unfolding write_pieces
truncate_doc_preview pieces cap =
    let (buf, failed) = write_pieces cap pieces [] in if failed then buf ++ marker else buf

abbrev pub rendered : List Bytes → Bytes
rendered [] = []
rendered (piece ∷ pieces) = piece ++ rendered pieces

-- The start of a text, no longer than the cap.
pub record IsCut (cap : ℕ) (full buf : Bytes) : Type 0 where
  pub rest : Bytes
  pub whole : buf ++ rest ≡ full
  pub bounded : length buf ≤ cap

-- What a writer has done with a text: all of it, or a cut.
pub record HasWritten (cap : ℕ) (full : Bytes) (w : Bytes × Bool) : Type 0 where
  pub cut : IsCut cap full w.0
  pub ended : w.1 ≡ false → w.0 ≡ full

boundary_le : (s : Bytes) (n : ℕ) → boundary s n ≤ n
unfolding boundary
boundary_le s zero = omega arith
boundary_le s (suc n) = ground (arith, boundary_le s n)

stopped :
    (cap : ℕ) (buf s : Bytes) (n : ℕ)
    → length buf + n ≤ cap
    → HasWritten cap (buf ++ s) (buf ++ take n s, true)
stopped cap buf s n h = record {
  cut = record {
    rest = drop n s;
    whole =
        append_assoc buf (take n s) (drop n s)
        ∙ ap (λ (l : Bytes). buf ++ l) (take-append-drop n s);
    bounded = omega (arith, length-append buf (take n s), length-take n s);
  };
  ended = λ e. cc;
}

written :
    (cap : ℕ) (buf s : Bytes)
    → length buf + length s ≤ cap
    → HasWritten cap (buf ++ s) (buf ++ s, false)
written cap buf s h = record {
  cut = record {
    rest = [];
    whole = append-nil (buf ++ s);
    bounded = omega (arith, length-append buf s);
  };
  ended = λ e. refl;
}

write_str-HasWritten :
    (cap : ℕ) (buf s : Bytes) → length buf ≤ cap → HasWritten cap (buf ++ s) (write_str cap buf s)
unfolding write_str
write_str-HasWritten cap buf s h = elim (Bool-cases (leb cap (length buf))) [
  | inl full ↦
      rw (write_str, full)
        (subst (λ b. HasWritten cap (buf ++ s) (b, true)) (append-nil buf)
          (stopped cap buf s 0 (omega (arith))))
  | inr room ↦ elim (Bool-cases (leb (length s) (cap - length buf))) [
    | inl fits ↦ rw (write_str, room, fits) (written cap buf s (ground arith))
    | inr cut ↦
        rw (write_str, room, cut)
          (stopped cap buf s (boundary s (cap - length buf))
            (ground (arith, boundary_le s (cap - length buf))))
  ]
]

write_pieces-HasWritten :
    (cap : ℕ) (pieces : List Bytes) (buf : Bytes)
    → length buf ≤ cap
    → HasWritten cap (buf ++ rendered pieces) (write_pieces cap pieces buf)
unfolding write_pieces
write_pieces-HasWritten cap [] buf h = record {
  cut = record { rest = []; whole = refl; bounded = h };
  ended = λ e. sym (append-nil buf);
}
write_pieces-HasWritten cap (piece ∷ pieces) buf h =
    let one = write_str-HasWritten cap buf piece h in
    let out = (write_str cap buf piece).0 in
    let whole = append_assoc buf piece (rendered pieces) in
    elim (Bool-cases (write_str cap buf piece).1) [
      | inl t ↦ rw t (record {
        cut = record {
          rest = one.cut.rest ++ rendered pieces;
          whole =
              sym (append_assoc out one.cut.rest (rendered pieces))
              ∙ ap (λ (l : Bytes). l ++ rendered pieces) one.cut.whole
              ∙ whole;
          bounded = one.cut.bounded;
        };
        ended = λ e. cc;
      })
      | inr f ↦ rw f (
          subst (λ full. HasWritten cap full (write_pieces cap pieces out))
            (ap (λ (l : Bytes). l ++ rendered pieces) (one.ended f) ∙ whole)
            (write_pieces-HasWritten cap pieces out one.cut.bounded))
    ]

-- The preview of a document is its whole rendering, no longer than the cap, or a start of the
-- rendering that is no longer than the cap, with the marker behind it.
pub truncate_doc_preview-IsCut :
    (pieces : List Bytes) (cap : ℕ)
    → ((truncate_doc_preview pieces cap ≡ rendered pieces) × (length (rendered pieces) ≤ cap))
      ⊎ ((buf : Bytes) × (truncate_doc_preview pieces cap ≡ buf ++ marker)
          × IsCut cap (rendered pieces) buf)
unfolding truncate_doc_preview
truncate_doc_preview-IsCut pieces cap =
    let w = write_pieces-HasWritten cap pieces [] (omega arith) in
    elim (Bool-cases (write_pieces cap pieces []).1) [
      | inl t ↦ inr ((write_pieces cap pieces []).0, rw t refl, w.cut)
      | inr f ↦
          inl (rw f (w.ended f), subst (λ (l : Bytes). length l ≤ cap) (w.ended f) w.cut.bounded)
    ]
