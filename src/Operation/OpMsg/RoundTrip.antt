-- ===== src/Operation/OpMsg/RoundTrip.antt =====
-- The writer and the parser of an OP_MSG body, composed.
use mongod_proxy.Bytes.Words.{u32_at-u32_to_le_bytes, length-u32_to_le_bytes}
use mongod_proxy.Operation.OpMsg.Flags.{
  from_bits_truncate-bits, unknown_required-bits, bits-IsU32, OperationMessageFlags, bits,
}
use mongod_proxy.Operation.OpMsg.Sections.{write_section-Reads}
use mongod_proxy.Operation.OpMsg.Parse.{
  from_bytes, parse_sections, split_checksum, parse_section, parse_sections_loop,
}
use mongod_proxy.Bytes.Defs.{u32_at, u32_to_le_bytes, Bytes}
use mongod_proxy.Operation.OpMsg.Defs.{
  min_len, IsOperationMessage, IsChecksum, OperationMessage, IsSection, OpMsgSection,
}
use mongod_proxy.Operation.OpMsg.Write.{
  checksum_bytes, derived_flags, write_section, write_sections,
}
use mongod_proxy.Bson.{IsBson, Bson}
use mongod_proxy.Prelude.{
  drop_all, drop-append_length, take-append_length, ◌-◌, not, ltb, is_some, ◌<◌, Option, none, some,
  false, true, ap, ◌∙◌, suc, zero, append_assoc, length-append, ◌+◌, >>=-eq-ok, arith, append-nil,
  ◌≤◌, length, ℕ, ◌++◌, ◌≡◌, All, List, ◌∷◌, ok, [], refl,
}

-- What the writer puts behind the header, around the encoded sections.
abbrev pub body_bytes : {Document : Type 0} → OperationMessage Document → Bytes → Bytes
body_bytes m enc = u32_to_le_bytes (bits (derived_flags m)) ++ (enc ++ checksum_bytes m.checksum)

-- The message as it comes back: the flag for the checksum says whether there is one.
abbrev pub normalised : {Document : Type 0} → OperationMessage Document → OperationMessage Document
normalised m = record m { flags = derived_flags m }

module _ (bson : Bson) (laws : IsBson bson) where
  open bson use {Document, Error}

  -- One round of the loop, where the section parses.
  parse_sections_round :
      (kind : ℕ) (enc more : Bytes) (s : OpMsgSection Document) (ss : List (OpMsgSection Document))
      → parse_section bson kind (enc ++ more) ≡ ok (s, more)
      → ((fuel : ℕ) → length more ≤ fuel → parse_sections_loop bson fuel more ≡ ok ss)
      → (fuel : ℕ) → length (kind ∷ (enc ++ more)) ≤ fuel
      → parse_sections_loop bson fuel (kind ∷ (enc ++ more)) ≡ ok (s ∷ ss)
  unfolding parse_sections_loop
  parse_sections_round kind enc more s ss r loop zero hf = absurd (omega arith)
  parse_sections_round kind enc more s ss r loop (suc fuel) hf =
      rw (r, loop fuel (omega (arith, length-append enc more)))

  -- Sections that were written parse back, with a unit of fuel for each byte.
  abbrev Parses : List (OpMsgSection Document) → Bytes → Type 0
  Parses ss enc =
      ((fuel : ℕ) → length enc ≤ fuel → parse_sections_loop bson fuel enc ≡ ok ss)
      × (length ss ≤ length enc)

  write_sections-Parses :
      (ss : List (OpMsgSection Document)) (out : Bytes) {out' : Bytes}
      → All IsSection ss
      → write_sections bson ss out ≡ ok out'
      → (enc : Bytes) × (out' ≡ out ++ enc) × Parses ss enc
  unfolding write_sections
  write_sections-Parses [] out v h =
      ([], rw append-nil (cc), (λ fuel hf. unfold parse_sections_loop in refl, omega arith))
  write_sections-Parses (s ∷ ss) out (v, vs) h =
      let (mid, e, h') = >>=-eq-ok (write_section bson s out) _ h in
      let (kind, enc, p, reads) = write_section-Reads bson laws s out v e in
      let (more, q, (loop, long)) = write_sections-Parses ss mid vs h' in
      (
        kind ∷ (enc ++ more),
        q ∙ ap (λ (t : Bytes). t ++ more) p ∙ append_assoc out (kind ∷ enc) more,
        (
          parse_sections_round kind enc more s ss (reads more) loop,
          omega (arith, length-append enc more),
        ),
      )

  -- Under the laws of the `bson` crate, sections with UTF-8 identifiers that are written into an
  -- empty buffer parse back to the same sections, and take at least one byte each.
  pub parse_sections-write_sections :
      (ss : List (OpMsgSection Document)) {enc : Bytes}
      → All IsSection ss
      → write_sections bson ss [] ≡ ok enc
      → (parse_sections bson enc ≡ ok ss) × (length ss ≤ length enc)
  unfolding parse_sections
  parse_sections-write_sections ss {enc} v h =
      let (enc', p, (loop, long)) = write_sections-Parses ss [] v h in
      (rw p (loop (length enc') (omega arith)), rw p long)

  split_checksum-checksum_bytes :
      (flags : OperationMessageFlags) (checksum : Option ℕ) (enc : Bytes)
      → flags.checksum_present ≡ is_some checksum
      → IsChecksum checksum
      → split_checksum bson flags (enc ++ checksum_bytes checksum) ≡ ok (enc, checksum)
  unfolding split_checksum
  split_checksum-checksum_bytes flags none enc e h = rw (e, append-nil enc)
  split_checksum-checksum_bytes flags (some crc) enc e h =
      let total : length (enc ++ u32_to_le_bytes crc) ≡ length enc + 4 =
        length-append enc (u32_to_le_bytes crc) ∙ rw (length-u32_to_le_bytes crc) in
      let long : ltb (length (enc ++ u32_to_le_bytes crc)) 4 ≡ false = ground arith in
      let cut : length (enc ++ u32_to_le_bytes crc) - 4 ≡ length enc = omega arith in
      let read : u32_at 0 (u32_to_le_bytes crc) ≡ crc =
        rw (append-nil (u32_to_le_bytes crc)) at (u32_at-u32_to_le_bytes crc [] h) in
      rw (
        e,
        long,
        cut,
        take-append_length enc (u32_to_le_bytes crc),
        drop-append_length enc (u32_to_le_bytes crc),
        read,
      )

  -- Under the laws of the `bson` crate, the flags, the encoded sections and the checksum of an
  -- OP_MSG whose fields are in range parse back to the message with its checksum flag derived,
  -- provided that there is at least one byte of sections or checksum.
  pub from_bytes-body_bytes_msg :
      (m : OperationMessage Document) {enc : Bytes}
      → IsOperationMessage m
      → write_sections bson m.sections [] ≡ ok enc
      → 0 < length (enc ++ checksum_bytes m.checksum)
      → from_bytes bson (body_bytes m enc) ≡ ok (normalised m)
  unfolding from_bytes
  from_bytes-body_bytes_msg m {enc} v h some_byte =
      let flags = derived_flags m in
      let word = u32_to_le_bytes (bits flags) in
      let tail = enc ++ checksum_bytes m.checksum in
      let total : length (word ++ tail) ≡ 4 + length tail =
        length-append word tail ∙ rw (length-u32_to_le_bytes (bits flags)) in
      let long : not (ltb (length (word ++ tail)) min_len) ≡ true = ground arith in
      let raw : u32_at 0 (word ++ tail) ≡ bits flags =
        u32_at-u32_to_le_bytes (bits flags) tail (bits-IsU32 flags) in
      rw (
        long,
        raw,
        unknown_required-bits flags,
        from_bits_truncate-bits flags,
        drop_all (word ++ tail) word tail 4 refl (length-u32_to_le_bytes (bits flags)),
        split_checksum-checksum_bytes flags m.checksum enc (unfold derived_flags in refl)
            v.checksum_valid,
        (parse_sections-write_sections m.sections v.sections_valid h).0,
      )
