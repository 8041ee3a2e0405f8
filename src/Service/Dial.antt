-- ===== src/Service/Dial.antt =====
-- `ProxyClient::forward_to` of src/serve/service.rs: the connection to one upstream host. Sockets and
-- TLS belong to their libraries and are a parameter.
use mongod_proxy.Prelude.{map_err, ◌>>=◌}
use mongod_proxy.Decoder.Defs.{WireDecoderError}
use mongod_proxy.Service.Upstream.{ProxyClient}
use mongod_proxy.Bytes.Defs.{Bytes}
use mongod_proxy.Bson.{Bson}
use mongod_proxy.Prelude.{List, ℕ, Result, Bool, ok, [], false, true}
use mongod_proxy.Message.Defs.{Message}
use mongod_proxy.Service.Defs.{Item}

pub data ProxyClientForwardError (IoError DnsError : Type 0) : Type 0 where
  failed_to_connect : IoError → ProxyClientForwardError IoError DnsError
  invalid_server_name : DnsError → ProxyClientForwardError IoError DnsError
  tls_handshake : IoError → ProxyClientForwardError IoError DnsError

-- What the code takes of the network: `TcpStream::connect` for a name and a port,
-- `ServerName::try_from` and the handshake of the TLS connector, and what `WireDecoder` gives for the
-- bytes that a stream will carry.
pub record Dialer (bson : Bson) : Type 1 where
  pub IoError : Type 0
  pub DnsError : Type 0
  pub Domain : Type 0
  pub Socket : Type 0
  pub connect : Bytes → ℕ → Result IoError Socket
  pub server_name : Bytes → Result DnsError Domain
  pub handshake : Domain → Socket → Result IoError Socket
  pub framed : Socket → List (Item (WireDecoderError bson.Error) (Message bson.Document))

module _ (bson : Bson) (dialer : Dialer bson) where
  open dialer use {IoError, DnsError, Socket, connect, server_name, handshake, framed}

  abbrev pub ForwardError : Type 0
  ForwardError = ProxyClientForwardError IoError DnsError

  -- `if let Some(connector) = tls_connector { .. } else { .. }`.
  unfoldable pub secured : Bool → Bytes → Socket → Result ForwardError Socket
  secured false name socket = ok socket
  secured true name socket = do
    domain ← map_err invalid_server_name (server_name name)
    map_err tls_handshake (handshake domain socket)

  unfoldable pub forward_to : Bytes → ℕ → Bool → Result ForwardError (ProxyClient bson)
  unfolding secured
  forward_to name port tls = do
    socket ← map_err failed_to_connect (connect name port)
    stream ← secured tls name socket
    ok (record { server_reader = framed stream; server_writer = [] })
