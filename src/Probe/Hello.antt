-- ===== src/Probe/Hello.antt =====
-- `HelloProbe` of src/serve/probe.rs: one host is dialled, sent a `hello`, and its first reply is read.
use mongod_proxy.Prelude.{ok_or, map_err, ◌>>=◌}
use mongod_proxy.Service.Upstream.{RequestError, ReplyItem}
use mongod_proxy.Probe.Defs.{Settled, SrvHost, extract_is_writable_primary}
use mongod_proxy.Bson.Documents.{Documents}
use mongod_proxy.Bytes.Defs.{Bytes}
use mongod_proxy.Bson.{Bson}
use mongod_proxy.Prelude.{
  if◌then◌else◌, ℕ, Result, Bool, Option, List, ℤ, ◌∷◌, out_of_fuel, err, ok, pos, [], none, some,
  false,
}
use mongod_proxy.Bytes.Text.{ascii}
use mongod_proxy.Message.Defs.{Message}
use mongod_proxy.Operation
use mongod_proxy.Operation.OpMsg.Defs.{OpMsgSection}
use mongod_proxy.Service.Defs.{value, failure}
use mongod_proxy.Service.Dial.{ForwardError, Dialer, forward_to}
use mongod_proxy.Service.Upstream

pub data ProbeError (F R : Type 0) : Type 0 where
  connect_failed : F → ProbeError F R
  request_failed : R → ProbeError F R
  no_reply : ProbeError F R
  response_failed : R → ProbeError F R
  malformed_reply : ProbeError F R

-- What the compiler knows of the build, and the values that `doc!` makes of numbers.
pub record Build (Value : Type 0) : Type 0 where
  pub version : Bytes
  pub os : Bytes
  pub architecture : Bytes
  pub int32 : ℤ → Value

module _ (bson : Bson) (docs : Documents bson.Document) (build : Build docs.Value) where
  open bson use {Document}

  -- `doc!` puts its pairs into an empty document, one by one.
  unfoldable pub doc_of : List (Bytes × docs.Value) → Document → Document
  doc_of [] doc = doc
  doc_of ((key, v) ∷ pairs) doc = doc_of pairs (docs.insert doc key v)

  unfoldable pub client_metadata : Document
  unfolding doc_of
  client_metadata =
      doc_of
        ((
          ascii "driver",
          docs.embed (
              doc_of
                ((ascii "name", docs.string (ascii "mongod-proxy"))
                  ∷ (ascii "version", docs.string build.version)
                  ∷ [])
                docs.empty),
        )
          ∷ (
            ascii "os",
            docs.embed (
                doc_of
                  ((ascii "type", docs.string build.os)
                    ∷ (ascii "architecture", docs.string build.architecture)
                    ∷ [])
                  docs.empty),
          )
          ∷ (ascii "platform", docs.string (ascii "Rust"))
          ∷ [])
        docs.empty

  unfoldable pub build_hello_request : Message Document
  unfolding doc_of client_metadata
  build_hello_request = record {
    request_id = pos 1;
    response_to = none;
    operation = Operation.Defs.message (record {
      flags = record { checksum_present = false; more_to_come = false; exhaust_allowed = false };
      sections =
          OpMsgSection.body (
            doc_of
              ((ascii "hello", build.int32 (pos 1))
                ∷ (ascii "$db", docs.string (ascii "admin"))
                ∷ (ascii "client", docs.embed client_metadata)
                ∷ [])
              docs.empty)
          ∷ [];
      checksum = none;
    });
  }

  module _ (dialer : Dialer bson) (get_bool : Document → Bytes → Option Bool) where
    abbrev pub HelloError : Type 0
    HelloError = ProbeError (ForwardError bson dialer) (RequestError bson)

    -- `stream.next().await`; what else the stream would give is dropped with it.
    unfoldable pub next_reply : List (ReplyItem bson) → Result HelloError (Message Document)
    next_reply [] = err no_reply
    next_reply (value reply ∷ items) = ok reply
    next_reply (failure e ∷ items) = err (response_failed e)

    unfoldable pub is_primary : Bool → Bytes → ℕ → Result HelloError Bool
    unfolding forward_to build_hello_request next_reply extract_is_writable_primary
    is_primary tls host port = do
      client ← map_err connect_failed (forward_to bson dialer host port tls)
      items ← map_err request_failed (Upstream.call bson client build_hello_request).0
      reply ← next_reply items
      ok_or (extract_is_writable_primary get_bool reply) malformed_reply

    -- The outcome of `tokio::time::timeout`: nothing when the time ran out first.
    unfoldable pub settled : Option (Result HelloError Bool) → Settled HelloError
    settled none = Settled.elapsed
    settled (some (ok b)) = Settled.answered b
    settled (some (err e)) = Settled.broke e
    settled (some out_of_fuel) = Settled.elapsed

    -- The probes of hosts in the order in which they settle; `in_time` says which of them settle
    -- before their timeout.
    unfoldable pub probe_all :
        (SrvHost → Bool) → Bool → List SrvHost → List (SrvHost × Settled HelloError)
    unfolding settled is_primary
    probe_all in_time tls [] = []
    probe_all in_time tls (h ∷ hosts) =
        (h, settled (if in_time h then some (is_primary tls h.host h.port) else none))
        ∷ probe_all in_time tls hosts
