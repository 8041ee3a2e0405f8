-- ===== src/Decoder/Steps.antt =====
-- What one call of `decode` does to the decoder and to the buffer.
use mongod_proxy.Ids.MessageLength.{as_usize}
use mongod_proxy.Header.Parse.{from_bytes-Parsed, from_bytes-append}
use mongod_proxy.Bson.{Bson}
use mongod_proxy.Bytes.Defs.{Bytes}
use mongod_proxy.Prelude.{
  none-ne-some, some-same, length-append, drop-append, ◌⊎◌, take-append, subst, sym, ap, ◌≤◌,
  Bool-cases, inr, inl, take, drop, ◌∙◌, arith, Result, length, ◌≢◌, Option, ltb, ◌++◌, out_of_fuel,
  err, false, true, refl, ◌≡◌, ok, none, some,
}
use mongod_proxy.Message.Defs.{Message}
use mongod_proxy.Header.Defs
use mongod_proxy.Header.Defs.{MessageHeaderParseError, MessageHeader}
use mongod_proxy.Decoder.Defs.{
  Outcome, accept_header, after_header, parse_frame, take_frame, WireDecoder, fresh,
  WireDecoderError, decode,
}

-- A kept header is the one in front of the buffer.
abbrev pub IsSynced : WireDecoder → Bytes → Type 0
IsSynced d buf = (h : MessageHeader) → d.next_header ≡ some h → Defs.from_bytes buf ≡ ok h

pub fresh-IsSynced : (buf : Bytes) → IsSynced fresh buf
fresh-IsSynced buf h e = cc

-- It stays there when bytes arrive.
pub IsSynced-append :
    (d : WireDecoder) (buf more : Bytes) → IsSynced d buf → IsSynced d (buf ++ more)
IsSynced-append d buf more s h e =
    let p = s h e in from_bytes-append buf more (from_bytes-Parsed buf p).long ∙ p

module _ (bson : Bson) where
  open bson use {Document, Error}

  synced_at :
      (o : Option MessageHeader) (buf : Bytes)
      → IsSynced (record { next_header = o }) buf
      → decode bson (record { next_header = o }) buf ≡ decode bson fresh buf
  unfolding decode
  synced_at none buf s = refl
  synced_at (some h) buf s = rw (s h refl)

  -- Keeping the header between two calls changes no result.
  pub decode_synced :
      (d : WireDecoder) (buf : Bytes) → IsSynced d buf → decode bson d buf ≡ decode bson fresh buf
  decode_synced d buf s = synced_at d.next_header buf s

  -- With a header in front of the buffer, the second half decides.
  pub decode_header :
      (buf : Bytes) (h : MessageHeader)
      → Defs.from_bytes buf ≡ ok h
      → decode bson fresh buf ≡ take_frame bson (some h) buf
  unfolding decode
  decode_header buf h e = rw e

  take_frame_short :
      (buf : Bytes) (h : MessageHeader)
      → ltb (length buf) (as_usize h.message_length) ≡ true
      → take_frame bson (some h) buf ≡ ((record { next_header = some h }, buf), ok none)
  unfolding take_frame
  take_frame_short buf h e = rw e

  pub take_frame_whole :
      (buf : Bytes) (h : MessageHeader)
      → ltb (length buf) (as_usize h.message_length) ≡ false
      → take_frame bson (some h) buf ≡ (
        (fresh, drop (as_usize h.message_length) buf),
        parse_frame bson h (take (as_usize h.message_length) buf),
      )
  unfolding take_frame
  take_frame_whole buf h e = rw e

  parse_frame-ne-none : (h : MessageHeader) (bytes : Bytes) → parse_frame bson h bytes ≢ ok none
  unfolding parse_frame
  parse_frame-ne-none h bytes e = ground arith

  decode_no_header :
      (buf : Bytes) {d' : WireDecoder} {buf' : Bytes}
      {r : Result (WireDecoderError Error) (Option (Message Document))}
      (p : Result MessageHeaderParseError MessageHeader)
      → ((h : MessageHeader) → p ≢ ok h)
      → after_header bson fresh buf (accept_header p) ≡ ((d', buf'), r)
      → (d' ≡ fresh) × (buf' ≡ buf) × ((m : Message Document) → r ≢ ok (some m))
  unfolding after_header accept_header
  decode_no_header buf (ok h) n e = absurd (n h refl)
  decode_no_header buf (err (MessageHeaderParseError.too_few_bytes k)) n e =
      (ground arith, ground arith, λ m q. ground arith)
  decode_no_header buf (err (MessageHeaderParseError.invalid_op_code x)) n e =
      (ground arith, ground arith, λ m q. ground arith)
  decode_no_header buf (err (MessageHeaderParseError.invalid_message_length x)) n e =
      (ground arith, ground arith, λ m q. ground arith)
  decode_no_header buf out_of_fuel n e = (ground arith, ground arith, λ m q. ground arith)

  -- What a call that returns no message means.
  pub record Waits (buf : Bytes) (d' : WireDecoder) (buf' : Bytes) : Type 0 where
    pub untouched : buf' ≡ buf
    pub synced : IsSynced d' buf'

  -- What a call that returns a message means: its frame was in the buffer and is gone.
  pub record Takes (buf : Bytes) (m : Message Document) (d' : WireDecoder) (buf' : Bytes)
      : Type 0 where
    pub header : MessageHeader
    pub parsed : Defs.from_bytes buf ≡ ok header
    pub whole : as_usize header.message_length ≤ length buf
    pub read : parse_frame bson header (take (as_usize header.message_length) buf) ≡ ok (some m)
    pub rest : buf' ≡ drop (as_usize header.message_length) buf
    pub reset : d' ≡ fresh

  cut-Waits :
      (buf : Bytes) (h : MessageHeader) {d' : WireDecoder} {buf' : Bytes}
      → Defs.from_bytes buf ≡ ok h
      → take_frame bson (some h) buf ≡ ((d', buf'), ok none)
      → Waits buf d' buf'
  cut-Waits buf h {d'} {buf'} p e =
      elim (Bool-cases (ltb (length buf) (as_usize h.message_length))) [
        | inl t ↦
            let q = sym (take_frame_short buf h t) ∙ e in
            let same : buf ≡ buf' = ap (λ (x : Outcome bson). x.0.1) q in
            let kept : some h ≡ d'.next_header = ap (λ (x : Outcome bson). x.0.0.next_header) q in
            record {
              untouched = sym same;
              synced = λ g k.
                  subst (λ b. Defs.from_bytes b ≡ ok g) same (p ∙ ap ok (some-same (kept ∙ k)));
            }
        | inr f ↦
            let q = sym (take_frame_whole buf h f) ∙ e in
            absurd (parse_frame-ne-none h _ (ap (λ (x : Outcome bson). x.1) q))
      ]

  cut-Takes :
      (buf : Bytes) (h : MessageHeader) {m : Message Document} {d' : WireDecoder} {buf' : Bytes}
      → Defs.from_bytes buf ≡ ok h
      → take_frame bson (some h) buf ≡ ((d', buf'), ok (some m))
      → Takes buf m d' buf'
  cut-Takes buf h {m} {d'} {buf'} p e =
      elim (Bool-cases (ltb (length buf) (as_usize h.message_length))) [
        | inl t ↦
            let q = ap (λ (x : Outcome bson). x.1) (sym (take_frame_short buf h t) ∙ e) in
            absurd (ground arith)
        | inr f ↦
            let q = sym (take_frame_whole buf h f) ∙ e in
            record {
              header = h;
              parsed = p;
              whole = ground arith;
              read = ap (λ (x : Outcome bson). x.1) q;
              rest = sym (ap (λ (x : Outcome bson). x.0.1) q);
              reset = sym (ap (λ (x : Outcome bson). x.0.0) q);
            }
      ]

  by_header :
      (buf : Bytes) {d' : WireDecoder} {buf' : Bytes}
      {r : Result (WireDecoderError Error) (Option (Message Document))}
      (p : Result MessageHeaderParseError MessageHeader)
      → Defs.from_bytes buf ≡ p
      → decode bson fresh buf ≡ ((d', buf'), r)
      → ((h : MessageHeader) × ((Defs.from_bytes buf ≡ ok h)
            × (take_frame bson (some h) buf ≡ ((d', buf'), r))))
        ⊎ ((d' ≡ fresh) × (buf' ≡ buf) × ((m : Message Document) → r ≢ ok (some m)))
  unfolding decode
  by_header buf (ok h) q e = inl (h, (q, sym (decode_header buf h q) ∙ e))
  by_header buf (err x) q e = inr (decode_no_header buf (err x) (λ h k. ground arith) (rw q at e))
  by_header buf out_of_fuel q e =
      inr (decode_no_header buf out_of_fuel (λ h k. ground arith) (rw q at e))

  -- If a header kept by the decoder is the one in front of the buffer, then a call that returns
  -- no message leaves the buffer as it was, and any header that it keeps is again the one in
  -- front of the buffer.
  pub decode-Waits :
      (d : WireDecoder) (buf : Bytes) {d' : WireDecoder} {buf' : Bytes}
      → IsSynced d buf
      → decode bson d buf ≡ ((d', buf'), ok none)
      → Waits buf d' buf'
  decode-Waits d buf s e = elim (by_header buf _ refl (sym (decode_synced d buf s) ∙ e)) [
    | inl (h, (p, q)) ↦ cut-Waits buf h p q
    | inr (f, same, _) ↦ record {
      untouched = same;
      synced = λ g k. absurd (none-ne-some (sym (ap (λ (x : WireDecoder). x.next_header) f) ∙ k));
    }
  ]

  -- If a header kept by the decoder is the one in front of the buffer, then a call that returns a
  -- message has parsed that header from the buffer, found the whole frame in it, read the message
  -- from exactly that frame, taken exactly that frame off the buffer and kept no header.
  pub decode-Takes :
      (d : WireDecoder) (buf : Bytes) {m : Message Document} {d' : WireDecoder} {buf' : Bytes}
      → IsSynced d buf
      → decode bson d buf ≡ ((d', buf'), ok (some m))
      → Takes buf m d' buf'
  decode-Takes d buf {m} s e = elim (by_header buf _ refl (sym (decode_synced d buf s) ∙ e)) [
    | inl (h, (p, q)) ↦ cut-Takes buf h p q
    | inr (_, _, n) ↦ absurd (n m refl)
  ]

  -- If a header kept by the decoder is the one in front of the buffer and a call returns a
  -- message, then the call returns the same message when more bytes follow in the buffer, and
  -- leaves those bytes behind what it left without them.
  pub decode-append :
      (d : WireDecoder) (buf more : Bytes) {m : Message Document} {d' : WireDecoder} {buf' : Bytes}
      → IsSynced d buf
      → decode bson d buf ≡ ((d', buf'), ok (some m))
      → decode bson d (buf ++ more) ≡ ((fresh, buf' ++ more), ok (some m))
  decode-append d buf more {m} {d'} {buf'} s e =
      let t = decode-Takes d buf s e in
      let n = as_usize (t.header).message_length in
      let p = from_bytes-append buf more (from_bytes-Parsed buf t.parsed).long ∙ t.parsed in
      let long : ltb (length (buf ++ more)) n ≡ false =
        ground (arith, length-append buf more, t.whole) in
      let same : take n (buf ++ more) ≡ take n buf = take-append n buf more t.whole in
      let rest : drop n (buf ++ more) ≡ buf' ++ more =
        drop-append n buf more t.whole ∙ ap (λ b. b ++ more) (sym t.rest) in
      decode_synced d (buf ++ more) (IsSynced-append d buf more s)
      ∙ decode_header (buf ++ more) t.header p
      ∙ take_frame_whole (buf ++ more) t.header long
      ∙ rw (same, rest, t.read)
