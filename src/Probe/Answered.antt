-- ===== src/Probe/Answered.antt =====
-- What the answer of a probe says of the host, and of the host that is selected.
use mongod_proxy.Decoder.Defs.{WireDecoderError}
use mongod_proxy.Service.Upstream.{
  wire_encode, ReplyItem, wire_decode, end_of_stream, more_to_come, ProxyClient,
}
use mongod_proxy.Probe.Says.{Says, SaysNothing, IsSaid, extract-IsSaid}
use mongod_proxy.Probe.Defs.{
  select_primary, Selection, ProbeOutcome, Settled, race, extract_is_writable_primary, SrvHost,
}
use mongod_proxy.Bytes.Defs.{Bytes}
use mongod_proxy.Bson.Documents.{Documents}
use mongod_proxy.Bson.{Bson}
use mongod_proxy.Message.Defs.{WireEncoderError, encode, Message}
use mongod_proxy.Service.Defs.{Item, value, failure}
use mathlib.Core.List.{Mem, mem-cons_self, mem-cons_of_mem}
use mongod_proxy.Service.Upstream
use mongod_proxy.Service.Dial.{ForwardError, Dialer, forward_to}
use mongod_proxy.Service.Replies.{call_failed, call_unended, call-eq-ok, call_encoded, reply_items}
use mongod_proxy.Prelude.{
  ◌∙◌, sym, subst, some-same, map_err-eq-ok, if◌then◌else◌, map_err, >>=-eq-ok, out_of_fuel, none,
  true, Bool-cases, ok_or-eq-ok, ok_or, ℕ, ◌≡◌, List, Result, Bool, Option, ◌∷◌, err, ok, inr, inl,
  [], some, false, refl, ◌>>=◌,
}
use mongod_proxy.Probe.Hello.{
  probe_all, settled, build_hello_request, HelloError, is_primary, next_reply, Build,
  response_failed, malformed_reply, connect_failed, request_failed,
}

module _ (bson : Bson) (docs : Documents bson.Document) (build : Build docs.Value)
    (dialer : Dialer bson) (get_bool : bson.Document → Bytes → Option Bool) where
  open bson use {Document, Error}

  abbrev Reader : Type 0
  Reader = List (Item (WireDecoderError Error) (Message Document))

  -- What a probe answers by what the host sends first.
  abbrev pub first_answer : Reader → Result (HelloError bson docs build dialer get_bool) Bool
  first_answer [] = err (response_failed end_of_stream)
  first_answer (failure e ∷ reader) = err (response_failed (wire_decode e))
  first_answer (value reply ∷ reader) =
      ok_or (extract_is_writable_primary get_bool reply) malformed_reply

  first_item :
      (reader : Reader)
      → (next_reply bson docs build dialer get_bool (reply_items reader).0 >>= λ reply.
          ok_or (extract_is_writable_primary get_bool reply) malformed_reply)
        ≡ first_answer reader
  unfolding next_reply reply_items
  first_item [] = refl
  first_item (failure e ∷ reader) = refl
  first_item (value reply ∷ reader) = elim (Bool-cases (more_to_come reply.operation)) [
    | inl t ↦ rw t refl
    | inr f ↦ rw f refl
  ]

  waits : more_to_come (build_hello_request bson docs build).operation ≡ false
  unfolding more_to_come build_hello_request
  waits = refl

  -- The outcome of a probe by what the host sends first.
  abbrev pub IsAnswer : Reader → Result (HelloError bson docs build dialer get_bool) Bool → Type 0
  IsAnswer [] r = r ≡ err (response_failed end_of_stream)
  IsAnswer (failure e ∷ reader) r = r ≡ err (response_failed (wire_decode e))
  IsAnswer (value reply ∷ reader) (ok b) = Says get_bool reply.operation b
  IsAnswer (value reply ∷ reader) (err e) =
      SaysNothing get_bool reply.operation × (e ≡ malformed_reply)
  IsAnswer (value reply ∷ reader) out_of_fuel = ⊥

  -- By how the `hello` was encoded.
  abbrev pub IsExchange :
      Result (WireEncoderError Error) (Unit {0})
      → ProxyClient bson
      → Result (HelloError bson docs build dialer get_bool) Bool
      → Type 0
  IsExchange (err e) c r = r ≡ err (request_failed (wire_encode e))
  IsExchange out_of_fuel c r = r ≡ out_of_fuel
  IsExchange (ok u) c r = IsAnswer c.server_reader r

  -- By how the host was dialled.
  abbrev pub IsProbed :
      Result (ForwardError bson dialer) (ProxyClient bson)
      → Result (HelloError bson docs build dialer get_bool) Bool
      → Type 0
  IsProbed (err e) r = r ≡ err (connect_failed e)
  IsProbed out_of_fuel r = r ≡ out_of_fuel
  IsProbed (ok c) r =
      IsExchange (encode bson (build_hello_request bson docs build) c.server_writer).0 c r

  said :
      (reply : Message Document) (rest : Reader) (o : Option Bool)
      → IsSaid get_bool reply.operation o
      → IsAnswer (value reply ∷ rest) (ok_or o malformed_reply)
  said reply rest none h = (h, refl)
  said reply rest (some b) h = h

  first_answer-IsAnswer : (reader : Reader) → IsAnswer reader (first_answer reader)
  first_answer-IsAnswer [] = refl
  first_answer-IsAnswer (failure e ∷ reader) = refl
  first_answer-IsAnswer (value reply ∷ reader) =
      said reply reader (extract_is_writable_primary get_bool reply) (extract-IsSaid get_bool reply)

  abbrev asked : ProxyClient bson → Result (HelloError bson docs build dialer get_bool) Bool
  asked c =
      map_err request_failed (Upstream.call bson c (build_hello_request bson docs build)).0
      >>= λ items. next_reply bson docs build dialer get_bool items >>= λ reply.
          ok_or (extract_is_writable_primary get_bool reply) malformed_reply

  asked-IsExchange :
      (c : ProxyClient bson) (sent : Result (WireEncoderError Error) (Unit {0}))
      → (encode bson (build_hello_request bson docs build) c.server_writer).0 ≡ sent
      → IsExchange sent c (asked c)
  asked-IsExchange c (ok u) e =
      subst (IsAnswer c.server_reader) (sym same) (first_answer-IsAnswer c.server_reader)
    where
      same : asked c ≡ first_answer c.server_reader
      same =
          rw (call_encoded bson c (build_hello_request bson docs build) e waits)
            (first_item c.server_reader)
  asked-IsExchange c (err x) e =
      rw (call_failed bson c (build_hello_request bson docs build) e) refl
  asked-IsExchange c out_of_fuel e =
      rw (call_unended bson c (build_hello_request bson docs build) e) refl

  dialled-IsProbed :
      (r : Result (ForwardError bson dialer) (ProxyClient bson))
      → IsProbed r (map_err connect_failed r >>= asked)
  dialled-IsProbed (ok c) = asked-IsExchange c _ refl
  dialled-IsProbed (err e) = refl
  dialled-IsProbed out_of_fuel = refl

  -- A probe fails if the host was not dialled or the `hello` was not encoded, with that error;
  -- otherwise it answers by what the host sends first: the end of the stream or a frame that
  -- cannot be decoded is a failed response; a reply in which no body has either field as a
  -- Boolean, or that is no OP_MSG, is malformed; any other reply gives the value of the first
  -- body with a field, where `isWritablePrimary` goes before `ismaster`.
  pub is_primary-IsProbed :
      (tls : Bool) (host : Bytes) (port : ℕ)
      → IsProbed
          (forward_to bson dialer host port tls)
          (is_primary bson docs build dialer get_bool tls host port)
  unfolding is_primary
  is_primary-IsProbed tls host port = dialled-IsProbed (forward_to bson dialer host port tls)

  -- A host that was dialled and that sent a reply with this answer first.
  pub record Answered (tls : Bool) (host : SrvHost) (answer : Bool) : Type 0 where
    pub client : ProxyClient bson
    pub reply : Message Document
    pub rest : Reader
    pub dialled : forward_to bson dialer host.host host.port tls ≡ ok client
    pub sent : client.server_reader ≡ value reply ∷ rest
    pub says : extract_is_writable_primary get_bool reply ≡ some answer

  first_answer-eq-ok :
      (reader : Reader) {answer : Bool}
      → first_answer reader ≡ ok answer
      → (reply : Message Document) × (rest : Reader) × (reader ≡ value reply ∷ rest)
        × (extract_is_writable_primary get_bool reply ≡ some answer)
  first_answer-eq-ok [] e = cc
  first_answer-eq-ok (failure x ∷ reader) e = cc
  first_answer-eq-ok (value reply ∷ reader) e = (
    reply,
    reader,
    refl,
    ok_or-eq-ok (extract_is_writable_primary get_bool reply) malformed_reply e,
  )

  is_primary-Answered :
      (tls : Bool) (host : SrvHost) {answer : Bool}
      → is_primary bson docs build dialer get_bool tls host.host host.port ≡ ok answer
      → Answered tls host answer
  unfolding is_primary
  is_primary-Answered tls host {answer} e =
      let (client, forwarded, called) =
        >>=-eq-ok (map_err connect_failed (forward_to bson dialer host.host host.port tls)) _ e in
      let (items, streamed, answered) =
        >>=-eq-ok
          (map_err request_failed
            (Upstream.call bson client (build_hello_request bson docs build)).0)
          _ called in
      let same =
        call-eq-ok bson client (build_hello_request bson docs build) waits
          (map_err-eq-ok request_failed _ streamed) in
      let (reply, rest, sent, says) = first_answer-eq-ok client.server_reader (
        sym (first_item client.server_reader)
        ∙ subst
            (λ (l : List (ReplyItem bson)).
              (next_reply bson docs build dialer get_bool l >>= λ reply.
              ok_or (extract_is_writable_primary get_bool reply) malformed_reply)
              ≡ ok answer)
            same answered) in
      record {
        client = client;
        reply = reply;
        rest = rest;
        dialled = map_err-eq-ok connect_failed _ forwarded;
        sent = sent;
        says = says;
      }

  settled-answered :
      (outcome : Option (Result (HelloError bson docs build dialer get_bool) Bool))
      → settled bson docs build dialer get_bool outcome ≡ Settled.answered true
      → outcome ≡ some (ok true)
  unfolding settled
  settled-answered none e = cc
  settled-answered (some (ok b)) e = cc
  settled-answered (some (err x)) e = cc
  settled-answered (some out_of_fuel) e = cc

  if_some : {A : Type 0} (b : Bool) {x y : A} → (if b then some x else none) ≡ some y → x ≡ y
  if_some true e = some-same e
  if_some false e = cc

  abbrev probed :
      (SrvHost → Bool)
      → Bool
      → List SrvHost
      → List (SrvHost × Settled (HelloError bson docs build dialer get_bool))
  probed in_time tls hosts = probe_all bson docs build dialer get_bool in_time tls hosts

  abbrev Chosen : (SrvHost → Bool) → Bool → List SrvHost → SrvHost → Type 0
  Chosen in_time tls hosts host =
      (rejected : List (SrvHost × ProbeOutcome (HelloError bson docs build dialer get_bool)))
      → race rejected (probed in_time tls hosts) ≡ Selection.primary host
      → Mem host hosts × Answered tls host true

  primary-same :
      {E : Type 0} {a b : SrvHost}
      → ◌≡◌ {A = Selection E} (Selection.primary a) (Selection.primary b)
      → a ≡ b
  primary-same e = cc

  -- One probe of the race, by how it settled.
  step-Answered :
      (in_time : SrvHost → Bool) (tls : Bool) (h : SrvHost) (hosts : List SrvHost) (host : SrvHost)
      → Chosen in_time tls hosts host
      → (s : Settled (HelloError bson docs build dialer get_bool))
      → settled bson docs build dialer get_bool (
          if in_time h
          then some (is_primary bson docs build dialer get_bool tls h.host h.port)
          else none)
        ≡ s
      → (rejected : List (SrvHost × ProbeOutcome (HelloError bson docs build dialer get_bool)))
      → race rejected ((h, s) ∷ probed in_time tls hosts) ≡ Selection.primary host
      → Mem host (h ∷ hosts) × Answered tls host true
  unfolding race
  step-Answered in_time tls h hosts host ih (Settled.answered true) how rejected e =
      subst (λ (x : SrvHost). Mem x (h ∷ hosts) × Answered tls x true) (primary-same e)
        (mem-cons_self, is_primary-Answered tls h (if_some (in_time h) (settled-answered _ how)))
  step-Answered in_time tls h hosts host ih (Settled.answered false) how rejected e =
      let (member, says) = ih _ e in (mem-cons_of_mem h member, says)
  step-Answered in_time tls h hosts host ih (Settled.broke x) how rejected e =
      let (member, says) = ih _ e in (mem-cons_of_mem h member, says)
  step-Answered in_time tls h hosts host ih Settled.elapsed how rejected e =
      let (member, says) = ih _ e in (mem-cons_of_mem h member, says)

  race-Answered :
      (in_time : SrvHost → Bool) (tls : Bool) (hosts : List SrvHost) (host : SrvHost)
      → Chosen in_time tls hosts host
  unfolding race probe_all
  race-Answered in_time tls [] host rejected e = cc
  race-Answered in_time tls (h ∷ hosts) host rejected e =
      step-Answered in_time tls h hosts host (race-Answered in_time tls hosts host) _ refl rejected
        e

  -- A host that is selected among the probes of some hosts, in whatever order they settle and
  -- whichever of them run out of time, is one of those hosts; it was dialled, and the first thing
  -- that it sent was a reply in which it says that it is the primary.
  pub select_primary-Answered :
      (in_time : SrvHost → Bool) (tls : Bool) (hosts : List SrvHost) (host : SrvHost)
      → select_primary (probe_all bson docs build dialer get_bool in_time tls hosts)
        ≡ Selection.primary host
      → Mem host hosts × Answered tls host true
  unfolding select_primary
  select_primary-Answered in_time tls hosts host e = race-Answered in_time tls hosts host [] e
