-- ===== src/Message/RoundTrip.antt =====
-- The frame of a message that is written, and the parser on it.
use mongod_proxy.Operation.RoundTrip.{convert_err-commit}
use mongod_proxy.Ids.MessageLength.{as_usize, max_len}
use mongod_proxy.Header.Frame.{
  drop-frame_bytes, length-frame_bytes, from_bytes-frame_bytes, commit-eq-ok, commit_failed, commit,
  frame_header, frame_bytes,
}
use mongod_proxy.Ids.{IsResponseTo}
use mongod_proxy.Bson.{IsBson, Bson}
use mongod_proxy.Bytes.Defs.{IsI32, Bytes}
use mongod_proxy.Prelude.{
  drop, arith, ltb, not, map_err-eq-ok, append-nil, sym, le→leb, ◌∙◌, [], true, map_err, Result, ap,
  ◌≤◌, length, ◌++◌, ◌+◌, ◌≡◌, err, ok,
}
use mongod_proxy.Operation
use mongod_proxy.Operation.Defs.{OperationWriteError}
use mongod_proxy.Header.Defs
use mongod_proxy.Header.Defs.{MessageHeader, size}
use mongod_proxy.Message.Defs.{
  failed_to_write_operation, MessageWriteError, Message, from_headers_and_bytes, from_bytes,
  write_bytes,
}

-- What the types of the fields promise.
pub record IsMessage {Document : Type 0} (m : Message Document) : Type 0 where
  pub id_valid : IsI32 m.request_id
  pub response_valid : IsResponseTo m.response_to
  pub operation_valid : Operation.RoundTrip.IsOperation m.operation

abbrev pub HasContent : {Document : Type 0} → Message Document → Type 0
HasContent m = Operation.RoundTrip.HasContent m.operation

-- The message as it comes back from the wire: an OP_MSG has its checksum flag derived.
abbrev pub normalised : {Document : Type 0} → Message Document → Message Document
normalised m = record m { operation = Operation.RoundTrip.normalised m.operation }

-- The header and the frame that belong to an encoded body.
abbrev pub header_of : {Document : Type 0} → Message Document → Bytes → MessageHeader
header_of m body =
    frame_header (Operation.RoundTrip.op_code_of m.operation) m.request_id m.response_to body

abbrev pub frame_of : {Document : Type 0} → Message Document → Bytes → Bytes
frame_of m body =
    frame_bytes (Operation.RoundTrip.op_code_of m.operation) m.request_id m.response_to body

module _ (bson : Bson) where
  open bson use {Document, Error}

  -- What a successful write says: the operation encodes to a body that fits.
  pub record Wrote (m : Message Document) (body : Bytes) : Type 0 where
    pub encodes : Operation.RoundTrip.encoded bson m.operation ≡ ok body
    pub fits : 16 + length body ≤ max_len

  -- Writing a message appends its encoded operation as one frame behind what the buffer held if
  -- the frame fits the length limit, and otherwise gives the error and leaves the buffer as it
  -- was.
  pub write_bytes-commit :
      (m : Message Document) (dst : Bytes)
      → write_bytes bson m dst
        ≡ commit
            (λ n. failed_to_write_operation (Operation.RoundTrip.too_large bson m.operation n))
            (Operation.RoundTrip.op_code_of m.operation)
            m.request_id
            m.response_to
            (map_err failed_to_write_operation (Operation.RoundTrip.encoded bson m.operation))
            dst
  unfolding write_bytes
  write_bytes-commit m dst =
      ap
        (λ (t : Result (OperationWriteError Error) (Unit {0}) × Bytes).
          (map_err failed_to_write_operation t.0, t.1))
        (Operation.RoundTrip.write_bytes-commit_operation bson m.operation m.request_id
          m.response_to dst)
      ∙ convert_err-commit failed_to_write_operation _ _ m.request_id m.response_to
          (Operation.RoundTrip.encoded bson m.operation) dst

  -- A write that succeeds appends exactly one frame.
  pub write_bytes-Wrote :
      (m : Message Document) (dst : Bytes) {dst' : Bytes}
      → write_bytes bson m dst ≡ (ok tt, dst')
      → (body : Bytes) × Wrote m body × (dst' ≡ dst ++ frame_of m body)
  write_bytes-Wrote m dst h =
      let (body, e, fits, p) = commit-eq-ok _ _ _ _ _ dst (sym (write_bytes-commit m dst) ∙ h) in
      (body, record { encodes = map_err-eq-ok _ _ e; fits = fits }, p)

  -- A write that fails leaves the buffer as it was.
  pub write_bytes_failed :
      (m : Message Document) (dst : Bytes) {dst' : Bytes} {e : MessageWriteError Error}
      → write_bytes bson m dst ≡ (err e, dst')
      → dst' ≡ dst
  write_bytes_failed m dst h = commit_failed _ _ _ _ _ dst (sym (write_bytes-commit m dst) ∙ h)

  -- A body that fits is written.
  pub write_bytes_fits :
      (m : Message Document) (body dst : Bytes)
      → Wrote m body
      → write_bytes bson m dst ≡ (ok tt, dst ++ frame_of m body)
  unfolding commit
  write_bytes_fits m body dst w =
      write_bytes-commit m dst ∙ rw (w.encodes, le→leb (16 + length body) max_len w.fits)

module _ (bson : Bson) (laws : IsBson bson) where
  open bson use {Document, Error}

  -- The header of a written frame is read off the front of any buffer that begins with it.
  pub header-frame_of :
      (m : Message Document) {body : Bytes} (rest : Bytes)
      → IsMessage m
      → Wrote bson m body
      → Defs.from_bytes (frame_of m body ++ rest) ≡ ok (header_of m body)
  header-frame_of m {body} rest v w =
      from_bytes-frame_bytes _ m.request_id m.response_to body rest v.id_valid v.response_valid
        w.fits

  -- The frame itself parses to the message.
  pub from_headers_and_bytes-frame_of :
      (m : Message Document) {body : Bytes}
      → IsMessage m
      → HasContent m
      → Wrote bson m body
      → from_headers_and_bytes bson (header_of m body) (frame_of m body) ≡ ok (normalised m)
  unfolding from_headers_and_bytes as_usize
  from_headers_and_bytes-frame_of m {body} v c w =
      let code = Operation.RoundTrip.op_code_of m.operation in
      let whole : length (frame_of m body) ≡ 16 + length body =
        length-frame_bytes code m.request_id m.response_to body in
      let long : not (ltb (length (frame_of m body)) (16 + length body)) ≡ true = ground arith in
      let tail : drop size (frame_of m body) ≡ body =
        rw (append-nil (frame_of m body), append-nil body) at
          (drop-frame_bytes code m.request_id m.response_to body []) in
      rw (
        long,
        tail,
        Operation.RoundTrip.from_bytes-encoded bson laws m.operation v.operation_valid c w.encodes,
      )

  -- Under the laws of the `bson` crate, what writing a message into an empty buffer leaves there
  -- parses back to the message, with the checksum flag of an OP_MSG derived, provided that the
  -- fields are in range and that an OP_MSG has a section or a checksum.
  pub from_bytes-write_bytes :
      (m : Message Document) {frame : Bytes}
      → IsMessage m
      → HasContent m
      → write_bytes bson m [] ≡ (ok tt, frame)
      → from_bytes bson frame ≡ ok (normalised m)
  unfolding from_bytes
  from_bytes-write_bytes m v c h =
      let (body, w, p) = write_bytes-Wrote bson m [] h in
      let head : Defs.from_bytes (frame_of m body) ≡ ok (header_of m body) =
        rw (append-nil (frame_of m body)) at (header-frame_of m [] v w) in
      rw (p, head, from_headers_and_bytes-frame_of m v c w)
