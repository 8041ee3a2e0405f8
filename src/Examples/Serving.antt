-- ===== src/Examples/Serving.antt =====
-- A client served over an upstream, and the start of a proxy, at concrete inputs.
use mongod_proxy.Ids.MessageLength.{max_len}
use mongod_proxy.Examples.Wire.{ping_sections, ping, ping_encodes}
use mongod_proxy.Srv.Resolved.{IsResolved}
use mongod_proxy.Message.RoundTrip.{frame_of}
use mongod_proxy.Service.Upstream.{proxy_client, RequestError}
use mongod_proxy.Proxy.Failover.{tick, accept, Event, run}
use mongod_proxy.Probe.Defs.{SrvHost}
use mongod_proxy.Proxy.Defs.{target_of, Target}
use mongod_proxy.Service.Defs.{value}
use mongod_proxy.Srv.Order.{RawSrvRecord}
use mongod_proxy.Srv.Resolve.{query_name, resolve_with}
use mongod_proxy.Service.Accept.{accept_client_inner}
use mongod_proxy.Prelude.{
  ◌≤◌, length, ℕ, arith, ◌+◌, pos, Result, ◌≡◌, List, ◌∷◌, ok, [], none, some, false, true, refl,
}
use mongod_proxy.Bytes.Defs.{Bytes}
use mongod_proxy.Operation
use mongod_proxy.Operation.OpMsg
use mongod_proxy.Service.Upstream.{more_to_come, ProxyClient}
use mongod_proxy.Bytes.Text.{ascii}
use mongod_proxy.Examples.Codec.{six_bson}
use mongod_proxy.Examples.Streams.{sent}
use mongod_proxy.Message.Defs.{Message}
use mongod_proxy.Service.Forward
use mongod_proxy.Service.Forward.{forgotten, Exchange, answered}
use mongod_proxy.Service.Replies
use mongod_proxy.Service.Upstream
use mongod_proxy.Proxy.Failover
use mongod_proxy.Srv.Random.{split_mix_64}
use mongod_proxy.Srv.Resolved

-- The message that announces further replies is `sent`; this one does not.
abbrev quiet : Message ℕ
quiet = record {
  request_id = pos 9;
  response_to = some (pos 3);
  operation = Operation.Defs.message (record ping {
    flags = record { checksum_present = false; more_to_come = false; exhaust_allowed = false };
  });
}

abbrev quiet_body : Bytes
quiet_body =
    OpMsg.RoundTrip.body_bytes
      (record ping {
        flags = record { checksum_present = false; more_to_come = false; exhaust_allowed = false };
      })
      ping_sections

quiet-encoded : Operation.RoundTrip.encoded six_bson quiet.operation ≡ ok quiet_body
quiet-encoded = rw ping_encodes

quiet_fits : 16 + length quiet_body ≤ max_len
unfolding mongod_proxy.Bytes.Defs.u32_to_le_bytes mongod_proxy.Bytes.Defs.le_bytes
quiet_fits = omega arith

abbrev last : Forward.Written six_bson
last = record {
  message = quiet;
  body = quiet_body;
  wrote = record { encodes = quiet-encoded; fits = quiet_fits };
}

abbrev noise : Forward.Written six_bson
noise = record { message = sent.message; body = sent.body; wrote = sent.wrote }

quiet_waits : more_to_come quiet.operation ≡ false
unfolding more_to_come
quiet_waits = refl

sent_more : more_to_come (sent.message).operation ≡ true
unfolding more_to_come
sent_more = refl

abbrev client : Upstream.ProxyClient six_bson
client = record {
  server_reader = value sent.message ∷ value quiet ∷ value sent.message ∷ [];
  server_writer = [];
}

call-replies_example : Upstream.call six_bson client quiet ≡ (
  ok (value sent.message ∷ value quiet ∷ []),
  record { server_reader = value sent.message ∷ []; server_writer = frame_of quiet quiet_body },
)
call-replies_example =
    Replies.call-replies six_bson client quiet (sent.message ∷ []) quiet (value sent.message ∷ [])
      last.wrote quiet_waits refl (sent_more, tt) quiet_waits

abbrev exchanges : List (Exchange six_bson)
exchanges =
    forgotten noise sent_more
    ∷ answered last (noise ∷ []) last quiet_waits (sent_more, tt) quiet_waits
    ∷ []

accept_client_inner-exchanges_example :
    accept_client_inner six_bson Bytes
      (RequestError six_bson)
      (proxy_client six_bson)
      (value sent.message ∷ value quiet ∷ [])
      (record { server_reader = value sent.message ∷ value quiet ∷ []; server_writer = [] })
      []
    ≡ (
      ok tt,
      (
        record { server_reader = []; server_writer = Forward.stream six_bson (noise ∷ last ∷ []) },
        Forward.stream six_bson (noise ∷ last ∷ []),
      ),
    )
accept_client_inner-exchanges_example =
    Forward.accept_client_inner-exchanges six_bson Bytes exchanges [] [] []

abbrev record_a : RawSrvRecord
record_a = record { target = ascii "a.b.c."; port = 27017; priority = 0; weight = 0 }

abbrev looked_up : Bytes → Result Bytes (List RawSrvRecord)
looked_up query = ok (record_a ∷ [])

abbrev host_a : SrvHost
host_a = record { host = ascii "a.b.c"; port = 27017 }

resolved_a :
    resolve_with {L = Bytes} {P = Bytes} split_mix_64
      (record { state = 7 })
      (ascii "x.b.c")
      (ascii "mongodb")
      looked_up
    ≡ ok (host_a ∷ [])
unfolding resolve_with mongod_proxy.Srv.Random.gen_range_inclusive
resolved_a = refl

resolve_with-IsResolved_example :
    (raw : List RawSrvRecord) × (looked_up (query_name (ascii "mongodb") (ascii "x.b.c")) ≡ ok raw)
    × IsResolved (ascii "x.b.c") raw (host_a ∷ [])
resolve_with-IsResolved_example =
    Resolved.resolve_with-IsResolved {L = Bytes} {P = Bytes} split_mix_64 (record { state = 7 })
      (ascii "x.b.c") (ascii "mongodb") looked_up (host_a ∷ []) resolved_a

abbrev events : List Event
events = accept ∷ tick none ∷ tick (some host_a) ∷ accept ∷ []

abbrev old_target : Target
old_target = record { host = ascii "old"; port = 1 }

run-refines_example :
    ((run events (record { target = old_target; connections = [] })).target ≡ target_of host_a)
    × ((run events (record { target = old_target; connections = [] })).connections
        ≡ old_target ∷ target_of host_a ∷ [])
run-refines_example = Failover.run-refines events (record { target = old_target; connections = [] })
