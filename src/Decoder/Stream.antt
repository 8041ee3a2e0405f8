-- ===== src/Decoder/Stream.antt =====
-- All calls of `decode` on the bytes of a connection, in one chunk or in several.
use mongod_proxy.Header
use mongod_proxy.Header.Frame.{length-frame_bytes}
use mongod_proxy.Ids.MessageLength.{as_usize}
use mongod_proxy.Message.Defs.{Message}
use mongod_proxy.Bytes.Defs.{Bytes}
use mongod_proxy.Prelude.{
  refl, drop-append_length, drop, take-append_length, take, length-append, arith, ltb, ◌+◌, ◌∙◌,
  subst, sym, length, ◌≡◌, ◌++◌, List, ◌∷◌, ok, [], none, some, false,
}
use mongod_proxy.Bson.{IsBson, Bson}
use mongod_proxy.Message.RoundTrip.{
  from_headers_and_bytes-frame_of, header-frame_of, IsMessage, HasContent, normalised, frame_of,
  Wrote,
}
use mongod_proxy.Decoder.Defs.{parse_frame, WireDecoder, fresh, decode}
use mongod_proxy.Decoder.Steps.{
  take_frame_whole, decode_header, fresh-IsSynced, decode-append, decode-Takes, decode_synced,
  IsSynced-append, decode-Waits, IsSynced,
}

module _ (bson : Bson) where
  open bson use {Document, Error}

  -- `decode` is called until it asks for more bytes: the messages it gives, and what is left then.
  unfoldable pub Drains :
      WireDecoder → Bytes → List (Message Document) → WireDecoder → Bytes → Type 0
  Drains d buf [] d' buf' = decode bson d buf ≡ ((d', buf'), ok none)
  Drains d buf (m ∷ ms) d' buf' =
      (d1 : WireDecoder) × ((buf1 : Bytes) × ((decode bson d buf ≡ ((d1, buf1), ok (some m)))
          × Drains d1 buf1 ms d' buf'))

  -- Only what the first call does matters.
  Drains-from :
      (ms : List (Message Document)) (d e : WireDecoder) (buf : Bytes) (d' : WireDecoder)
      (buf' : Bytes)
      → decode bson d buf ≡ decode bson e buf
      → Drains d buf ms d' buf'
      → Drains e buf ms d' buf'
  unfolding Drains
  Drains-from [] d e buf d' buf' h s = sym h ∙ s
  Drains-from (m ∷ ms) d e buf d' buf' h (d1, (buf1, (s, rest))) = (d1, (buf1, (sym h ∙ s, rest)))

  -- If draining a buffer gives some messages and draining what is left together with more bytes
  -- gives further messages, then draining the buffer with the bytes appended from the start gives
  -- both lists in order and the same end state; a header kept at the start must be the one in
  -- front of the buffer.
  pub Drains-append :
      (ms ns : List (Message Document)) (d d1 d2 : WireDecoder) (buf more buf1 buf2 : Bytes)
      → IsSynced d buf
      → Drains d buf ms d1 buf1
      → Drains d1 (buf1 ++ more) ns d2 buf2
      → Drains d (buf ++ more) (ms ++ ns) d2 buf2
  unfolding Drains
  Drains-append [] ns d d1 d2 buf more buf1 buf2 s waits next =
      let w = decode-Waits bson d buf s waits in
      let at_front : IsSynced d1 (buf ++ more) =
        IsSynced-append d1 buf more (subst (λ b. IsSynced d1 b) w.untouched w.synced) in
      Drains-from ns d1 d (buf ++ more) d2 buf2
        (decode_synced bson d1 _ at_front
          ∙ sym (decode_synced bson d _ (IsSynced-append d buf more s)))
        (subst (λ b. Drains d1 (b ++ more) ns d2 buf2) w.untouched next)
  Drains-append (m ∷ ms) ns d d1 d2 buf more buf1 buf2 s (d0, (buf0, (first, rest))) next =
      let t = decode-Takes bson d buf s first in
      (
        fresh,
        (
          buf0 ++ more,
          (
            decode-append bson d buf more s first,
            Drains-append ms ns fresh d1 d2 buf0 more buf1 buf2 (fresh-IsSynced buf0)
                (subst (λ x. Drains x buf0 ms d1 buf1) t.reset rest) next,
          ),
        ),
      )

module _ (bson : Bson) (laws : IsBson bson) where
  open bson use {Document, Error}

  -- A message together with the body it was written with.
  pub record Sent : Type 0 where
    pub message : Message Document
    pub body : Bytes
    pub typed : IsMessage message
    pub content : HasContent message
    pub wrote : Wrote bson message body

  abbrev pub stream : List Sent → Bytes
  stream [] = []
  stream (s ∷ ss) = frame_of s.message s.body ++ stream ss

  abbrev pub received : List Sent → List (Message Document)
  received [] = []
  received (s ∷ ss) = normalised s.message ∷ received ss

  -- Under the laws of the `bson` crate, `decode` on a buffer that starts with the frame of a
  -- written message gives that message, with the checksum flag of an OP_MSG derived, leaves
  -- exactly the bytes behind the frame and keeps no header, provided that the message's fields
  -- are in range and that an OP_MSG has a section or a checksum.
  pub decode-frame_of :
      (m : Message Document) {body : Bytes} (rest : Bytes)
      → IsMessage m
      → HasContent m
      → Wrote bson m body
      → decode bson fresh (frame_of m body ++ rest) ≡ ((fresh, rest), ok (some (normalised m)))
  unfolding parse_frame as_usize
  decode-frame_of m {body} rest v c w =
      let frame = frame_of m body in
      let n : length frame ≡ 16 + length body =
        length-frame_bytes _ m.request_id m.response_to body in
      let long : ltb (length (frame ++ rest)) (16 + length body) ≡ false =
        ground (arith, length-append frame rest) in
      let front : take (16 + length body) (frame ++ rest) ≡ frame =
        subst (λ k. take k (frame ++ rest) ≡ frame) n (take-append_length frame rest) in
      let tail : drop (16 + length body) (frame ++ rest) ≡ rest =
        subst (λ k. drop k (frame ++ rest) ≡ rest) n (drop-append_length frame rest) in
      decode_header bson (frame ++ rest) _ (header-frame_of bson laws m rest v w)
      ∙ take_frame_whole bson (frame ++ rest) _ long
      ∙ rw (front, tail, from_headers_and_bytes-frame_of bson laws m v c w)

  -- Under the laws of the `bson` crate, calling `decode` again and again on the concatenation of
  -- any number of written frames, each of a message whose fields are in range and that has a
  -- section or a checksum if it is an OP_MSG, gives those messages in order (with the checksum
  -- flag of an OP_MSG derived) and ends waiting, with an empty buffer and no header kept.
  pub Drains-stream : (ss : List Sent) → Drains bson fresh (stream ss) (received ss) fresh []
  unfolding Drains
  Drains-stream [] = unfold decode Header.Defs.from_bytes in refl
  Drains-stream (s ∷ ss) = (
    fresh,
    (
      stream ss,
      (decode-frame_of s.message (stream ss) s.typed s.content s.wrote, Drains-stream ss),
    ),
  )
