-- ===== src/Service/Forward.antt =====
-- A client that is served by `accept_client_inner` over a `ProxyClient`: what its requests leave at
-- the server's side, and what it gets back.
use mongod_proxy.Message.RoundTrip.{frame_of, Wrote}
use mongod_proxy.Decoder.Defs.{WireDecoderError}
use mongod_proxy.Service.Upstream.{call, proxy_client, ProxyClient, more_to_come, RequestError}
use mongod_proxy.Bytes.Defs.{Bytes}
use mongod_proxy.Prelude.{
  append_assoc, ◌∙◌, append-nil, sym, All, ap, false, true, refl, ◌++◌, ◌≡◌, List, ◌∷◌, ok, [],
}
use mongod_proxy.Bson.{Bson}
use mongod_proxy.Message.Defs.{Message}
use mongod_proxy.Service.Defs.{Item, value, values}
use mongod_proxy.Service.Accept.{accept_client_inner, forward_replies, after_call, after_replies}
use mongod_proxy.Service.Replies.{encode-Wrote, call-replies, call_no_reply}

module _ (bson : Bson) where
  open bson use {Document, Error}

  -- A message that was written: its operation encodes to `body`, and the frame fits the limit.
  pub record Written : Type 0 where
    pub message : Message Document
    pub body : Bytes
    pub wrote : Wrote bson message body

  abbrev pub stream : List Written → Bytes
  stream [] = []
  stream (s ∷ ss) = frame_of s.message s.body ++ stream ss

  abbrev pub messages : List Written → List (Message Document)
  messages [] = []
  messages (s ∷ ss) = s.message ∷ messages ss

  -- One request of the client and what the server says to it.
  pub data Exchange : Type 0 where
    forgotten : (req : Written) → more_to_come (req.message).operation ≡ true → Exchange
    answered :
        (req : Written) (leading : List Written) (last : Written)
        → more_to_come (req.message).operation ≡ false
        → All (λ (m : Message Document). more_to_come m.operation ≡ true) (messages leading)
        → more_to_come (last.message).operation ≡ false
        → Exchange

  abbrev pub requests : List Exchange → List Written
  requests [] = []
  requests (forgotten req more ∷ xs) = req ∷ requests xs
  requests (answered req leading last waits more ends ∷ xs) = req ∷ requests xs

  abbrev pub replies : List Exchange → List Written
  replies [] = []
  replies (forgotten req more ∷ xs) = replies xs
  replies (answered req leading last waits more ends ∷ xs) = leading ++ (last ∷ replies xs)

  messages-append : (ss ts : List Written) → messages (ss ++ ts) ≡ messages ss ++ messages ts
  messages-append [] ts = refl
  messages-append (s ∷ ss) ts = ap (λ l. s.message ∷ l) (messages-append ss ts)

  stream-append : (ss ts : List Written) → stream (ss ++ ts) ≡ stream ss ++ stream ts
  stream-append [] ts = refl
  stream-append (s ∷ ss) ts =
      ap (λ l. frame_of s.message s.body ++ l) (stream-append ss ts)
      ∙ sym (append_assoc (frame_of s.message s.body) (stream ss) (stream ts))

  stream-replies :
      (leading : List Written) (last : Written) (ss : List Written) (written : Bytes)
      → (written ++ stream (leading ++ (last ∷ []))) ++ stream ss
        ≡ written ++ stream (leading ++ (last ∷ ss))
  stream-replies leading last ss written =
      append_assoc written (stream (leading ++ (last ∷ []))) (stream ss)
      ∙ ap (λ l. written ++ l)
          (sym (stream-append (leading ++ (last ∷ [])) ss)
            ∙ ap (stream) (append_assoc leading (last ∷ []) ss))

  values-append :
      {E A : Type 0} (xs ys : List A) → values {E = E} (xs ++ ys) ≡ values xs ++ values ys
  values-append [] ys = refl
  values-append (x ∷ xs) ys = ap (λ (l : List _). value x ∷ l) (values-append xs ys)

  module _ (D : Type 0) where
    forward-stream :
        (ss : List Written) (written : Bytes)
        → forward_replies bson D (RequestError bson) (values (messages ss)) written
          ≡ (ok tt, written ++ stream ss)
    unfolding forward_replies
    forward-stream [] written = ap (λ (l : Bytes). (ok tt, l)) (sym (append-nil written))
    forward-stream (s ∷ ss) written = rw (encode-Wrote bson s.message written s.wrote) (
        forward-stream ss (written ++ frame_of s.message s.body)
        ∙ rw (append_assoc written (frame_of s.message s.body) (stream ss)))

    -- The reader that still holds what the server says in the exchanges.
    abbrev pub reading :
        List Exchange
        → List (Item (WireDecoderError Error) (Message Document))
        → Bytes
        → ProxyClient bson
    reading xs rest sent = record {
      server_reader = values (messages (replies xs)) ++ rest;
      server_writer = sent;
    }

    call-answered :
        (req : Written) (leading : List Written) (last : Written)
        (waits : more_to_come (req.message).operation ≡ false)
        (more : All (λ (m : Message Document). more_to_come m.operation ≡ true) (messages leading))
        (ends : more_to_come (last.message).operation ≡ false) (xs : List Exchange)
        (rest : List (Item (WireDecoderError Error) (Message Document))) (sent : Bytes)
        → call bson (reading (answered req leading last waits more ends ∷ xs) rest sent) req.message
          ≡ (
            ok (values (messages (leading ++ (last ∷ [])))),
            reading xs rest (sent ++ frame_of req.message req.body),
          )
    call-answered req leading last waits more ends xs rest sent =
        call-replies bson (reading (answered req leading last waits more ends ∷ xs) rest sent)
          req.message (messages leading) last.message (values (messages (replies xs)) ++ rest)
          req.wrote waits
          (ap (λ l. values l ++ rest) (messages-append leading (last ∷ replies xs))
            ∙ ap (λ (l : List _). l ++ rest)
                (values-append (messages leading) (messages (last ∷ replies xs)))
            ∙ append_assoc (values (messages leading)) (values (messages (last ∷ replies xs))) rest)
          more ends
        ∙ ap
            (λ (l : List (Message Document)).
              (ok (values l), reading xs rest (sent ++ frame_of req.message req.body)))
            (sym (messages-append leading (last ∷ [])))

    -- Serving a client over a `ProxyClient`, when each request and each reply encodes and fits
    -- the length limit of a frame, each request either waits for no reply or has a sequence of
    -- replies of which exactly the last announces no further one, and the reader holds those
    -- replies in order, ends without an error; the server has then got exactly the frames of the
    -- requests in order, the client exactly the frames of the replies in order, and the reader
    -- holds what was behind the replies.
    pub accept_client_inner-exchanges :
        (xs : List Exchange) (rest : List (Item (WireDecoderError Error) (Message Document)))
        (sent written : Bytes)
        → accept_client_inner bson D
            (RequestError bson)
            (proxy_client bson)
            (values (messages (requests xs)))
            (reading xs rest sent)
            written
          ≡ (
            ok tt,
            (reading [] rest (sent ++ stream (requests xs)), written ++ stream (replies xs)),
          )
    unfolding accept_client_inner after_call after_replies
    accept_client_inner-exchanges [] rest sent written = rw (append-nil sent, append-nil written)
    accept_client_inner-exchanges (forgotten req more ∷ xs) rest sent written =
        rw (call_no_reply bson (reading xs rest sent) req.message req.wrote more) (
          accept_client_inner-exchanges xs rest (sent ++ frame_of req.message req.body) written
          ∙ rw (append_assoc sent (frame_of req.message req.body) (stream (requests xs))))
    accept_client_inner-exchanges (answered req leading last waits more ends ∷ xs) rest sent
          written =
        let said = leading ++ (last ∷ []) in
        rw
          (call-answered req leading last waits more ends xs rest sent, forward-stream said written)
          (accept_client_inner-exchanges xs rest (sent ++ frame_of req.message req.body)
              (written ++ stream said)
            ∙ rw (
              append_assoc sent (frame_of req.message req.body) (stream (requests xs)),
              stream-replies leading last (replies xs) written,
            ))
