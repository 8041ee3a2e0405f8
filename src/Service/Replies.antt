-- ===== src/Service/Replies.antt =====
-- The replies to one request, cut out of the reader.
use mongod_proxy.Decoder.Defs.{WireDecoderError}
use mongod_proxy.Message.RoundTrip.{write_bytes_fits, frame_of, Wrote}
use mongod_proxy.Bytes.Defs.{Bytes}
use mongod_proxy.Bson.{Bson}
use mongod_proxy.Service.Defs.{values, Item, value, failure}
use mongod_proxy.Service.Upstream.{
  wire_encode, ReplyItem, RequestError, after_poll, push_item, ProxyClient, await_replies, call,
  replies, streaming, done, wire_decode, end_of_stream, poll_next, ProxyClientRequestError, drain,
  more_to_come,
}
use mongod_proxy.Message.Defs.{
  message_write_error, MessageWriteError, encode, WireEncoderError, Message,
}
use mongod_proxy.Prelude.{
  sym, ok-same, subst, out_of_fuel, err, map_err, Result, ap, ◌∙◌, ◌++◌, All, ok, false, true,
  Bool-cases, arith, ◌≤◌, ◌≡◌, if◌then◌else◌, length, ℕ, ◌∷◌, inr, inl, [], some, suc, zero, refl,
  List,
}

-- The last reply is the first one that promises no further one, or the end of the reader.
unfoldable pub reply_items :
    {Document R W : Type 0}
    → List (Item R (Message Document))
    → List (Item (ProxyClientRequestError R W) (Message Document))
      × List (Item R (Message Document))
reply_items [] = (failure end_of_stream ∷ [], [])
reply_items (failure e ∷ reader) = (failure (wire_decode e) ∷ [], reader)
reply_items (value m ∷ reader) =
    let (items, rest) = reply_items reader in
    if more_to_come m.operation then (value m ∷ items, rest) else (value m ∷ [], reader)

module _ {Document R W : Type 0} where
  drain_done :
      (n : ℕ) (reader : List (Item R (Message Document)))
      → drain {W = W} (suc n) done reader ≡ some ([], reader)
  unfolding drain poll_next after_poll
  drain_done n reader = refl

  poll_next_more :
      (m : Message Document) (reader : List (Item R (Message Document)))
      → more_to_come m.operation ≡ true
      → poll_next {W = W} streaming (value m ∷ reader) ≡ (some (value m), (streaming, reader))
  unfolding poll_next
  poll_next_more m reader t = rw t

  poll_next_last :
      (m : Message Document) (reader : List (Item R (Message Document)))
      → more_to_come m.operation ≡ false
      → poll_next {W = W} streaming (value m ∷ reader) ≡ (some (value m), (done, reader))
  unfolding poll_next
  poll_next_last m reader f = rw f

  drain_streaming :
      (reader : List (Item R (Message Document))) (n : ℕ)
      → length reader ≤ n
      → drain {W = W} (suc (suc n)) streaming reader ≡ some (reply_items reader)
  unfolding drain poll_next after_poll reply_items
  drain_streaming [] n h = refl
  drain_streaming (failure e ∷ reader) n h = refl
  drain_streaming (value m ∷ reader) zero h = absurd (omega arith)
  drain_streaming (value m ∷ reader) (suc n) h = elim (Bool-cases (more_to_come m.operation)) [
    | inl t ↦
        ap (after_poll (drain (suc (suc n)))) (poll_next_more m reader t)
        ∙ ap (push_item (value m)) (drain_streaming reader n (omega arith))
        ∙ rw t
    | inr f ↦ ap (after_poll (drain (suc (suc n)))) (poll_next_last m reader f) ∙ rw f
  ]

  reply_items-values :
      (ms : List (Message Document)) (m : Message Document)
      (rest : List (Item R (Message Document)))
      → All (λ x. more_to_come x.operation ≡ true) ms
      → more_to_come m.operation ≡ false
      → reply_items {W = W} (values ms ++ (value m ∷ rest)) ≡ (values (ms ++ (m ∷ [])), rest)
  unfolding reply_items
  reply_items-values [] m rest h last = rw last
  reply_items-values (x ∷ ms) m rest h last = rw (h.0, reply_items-values ms m rest h.1 last)

module _ (bson : Bson) where
  open bson use {Document, Error}

  replies-streaming :
      (c : ProxyClient bson)
      → replies bson streaming c ≡ (
        ok (reply_items {W = WireEncoderError Error} c.server_reader).0,
        record c { server_reader = (reply_items {W = WireEncoderError Error} c.server_reader).1 },
      )
  unfolding replies
  replies-streaming c =
      rw (replies, drain_streaming c.server_reader (length c.server_reader) (omega arith))

  pub encode-Wrote :
      (req : Message Document) {body : Bytes} (w : Bytes)
      → Wrote bson req body
      → encode bson req w ≡ (ok tt, w ++ frame_of req body)
  unfolding encode
  encode-Wrote req {body} w h =
      ap
        (λ (t : Result (MessageWriteError Error) (Unit {0}) × Bytes).
          (map_err message_write_error t.0, t.1))
        (write_bytes_fits bson req body w h)

  -- A call of `ProxyClient` with a request that was written and that waits for a reply gives the
  -- replies in front of the reader up to the first that announces no further one, leaves the
  -- reader behind it and has sent the frame of the request.
  pub call-replies :
      (c : ProxyClient bson) (req : Message Document) {body : Bytes} (ms : List (Message Document))
      (m : Message Document) (rest : List (Item (WireDecoderError Error) (Message Document)))
      → Wrote bson req body
      → more_to_come req.operation ≡ false
      → c.server_reader ≡ values ms ++ (value m ∷ rest)
      → All (λ (x : Message Document). more_to_come x.operation ≡ true) ms
      → more_to_come m.operation ≡ false
      → call bson c req ≡ (
        ok (values (ms ++ (m ∷ []))),
        record { server_reader = rest; server_writer = c.server_writer ++ frame_of req body },
      )
  unfolding call await_replies
  call-replies c req ms m rest w waits reader more last =
      rw (call, encode-Wrote req c.server_writer w, waits, await_replies)
        (replies-streaming (record c { server_writer = c.server_writer ++ frame_of req _ })
          ∙ rw (reader, reply_items-values ms m rest more last))

  -- A call with a request that was written and that waits for no reply gives no reply and leaves
  -- the reader as it was.
  pub call_no_reply :
      (c : ProxyClient bson) (req : Message Document) {body : Bytes}
      → Wrote bson req body
      → more_to_come req.operation ≡ true
      → call bson c req ≡ (ok [], record c { server_writer = c.server_writer ++ frame_of req body })
  unfolding call await_replies replies
  call_no_reply c req w forget = rw (
    call,
    encode-Wrote req c.server_writer w,
    forget,
    await_replies,
    replies,
    drain_done {W = WireEncoderError Error} (suc (length c.server_reader)) c.server_reader,
  )

  -- A call that waits for a reply, and that gives a stream, gives the replies of the reader.
  await_replies-eq-ok :
      (sent : Result (WireEncoderError Error) (Unit {0})) (c : ProxyClient bson)
      {items : List (ReplyItem bson)}
      → (await_replies bson false sent c).0 ≡ ok items
      → items ≡ (reply_items {W = WireEncoderError Error} c.server_reader).0
  unfolding await_replies
  await_replies-eq-ok (ok u) c e = ok-same (
      sym e
      ∙ ap (λ (r : Result (RequestError bson) (List (ReplyItem bson)) × ProxyClient bson). r.0)
          (replies-streaming c))
  await_replies-eq-ok (err x) c e = cc
  await_replies-eq-ok out_of_fuel c e = cc

  pub call-eq-ok :
      (c : ProxyClient bson) (req : Message Document) {items : List (ReplyItem bson)}
      → more_to_come req.operation ≡ false
      → (call bson c req).0 ≡ ok items
      → items ≡ (reply_items {W = WireEncoderError Error} c.server_reader).0
  unfolding call
  call-eq-ok c req {items} waits e =
      let (sent, writer) = encode bson req c.server_writer in
      await_replies-eq-ok sent (record c { server_writer = writer })
        (subst (λ b. (await_replies bson b sent (record c { server_writer = writer })).0 ≡ ok items)
          waits e)

  -- A call whose request was encoded and that waits for a reply.
  pub call_encoded :
      (c : ProxyClient bson) (req : Message Document)
      → (encode bson req c.server_writer).0 ≡ ok tt
      → more_to_come req.operation ≡ false
      → (call bson c req).0 ≡ ok (reply_items {W = WireEncoderError Error} c.server_reader).0
  unfolding call await_replies
  call_encoded c req e waits =
      rw (waits, e)
        (ap (λ (r : Result (RequestError bson) (List (ReplyItem bson)) × ProxyClient bson). r.0)
          (replies-streaming (record c { server_writer = (encode bson req c.server_writer).1 })))

  -- A call whose request was not encoded fails with the encoder's error.
  pub call_failed :
      (c : ProxyClient bson) (req : Message Document) {e : WireEncoderError Error}
      → (encode bson req c.server_writer).0 ≡ err e
      → (call bson c req).0 ≡ err (wire_encode e)
  unfolding call await_replies
  call_failed c req h = rw h refl

  pub call_unended :
      (c : ProxyClient bson) (req : Message Document)
      → (encode bson req c.server_writer).0 ≡ out_of_fuel
      → (call bson c req).0 ≡ out_of_fuel
  unfolding call await_replies
  call_unended c req h = rw h refl
