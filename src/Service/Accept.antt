-- ===== src/Service/Accept.antt =====
-- `accept_client_inner` of src/serve/mod.rs: the loop that serves one client. The client's requests
-- are the items that its decoder gives, and what is sent to it is the bytes that the encoder wrote.
use mongod_proxy.Bson.{Bson}
use mongod_proxy.Bytes.Defs.{Bytes}
use mongod_proxy.Message
use mongod_proxy.Bytes.Writer.{Writer, lift, ◌>>◌, convert_err}
use mongod_proxy.Message.Defs.{Message, WireEncoderError}
use mongod_proxy.Service.Defs.{Item, value, failure, Service}
use mongod_proxy.Prelude.{List, ◌∷◌, out_of_fuel, err, ok, [], Result}

pub data AcceptClientError (D E W : Type 0) : Type 0 where
  decode_from_client : D → AcceptClientError D E W
  upstream_request : E → AcceptClientError D E W
  upstream_response : E → AcceptClientError D E W
  encode_to_client : W → AcceptClientError D E W

module _ (bson : Bson) (D E : Type 0) where
  open bson use {Document, Error}

  abbrev pub AcceptError : Type 0
  AcceptError = AcceptClientError D E (WireEncoderError Error)

  -- Every reply that the upstream produces goes to the client.
  unfoldable pub forward_replies : List (Item E (Message Document)) → Writer AcceptError (Unit {0})
  forward_replies [] = lift (ok tt)
  forward_replies (failure e ∷ items) = lift (err (upstream_response e))
  forward_replies (value resp ∷ items) = do
    convert_err encode_to_client (Message.Defs.encode bson resp)
    forward_replies items

  module _ (service : Service (Message Document) E) where
    open service use {State, call}

    abbrev pub Served : Type 0
    Served = Result AcceptError (Unit {0}) × (State × Bytes)

    -- What follows the replies to one request: the next request, or the error.
    unfoldable pub after_replies :
        (State → Bytes → Served) → State → Result AcceptError (Unit {0}) × Bytes → Served
    after_replies next state (ok u, written) = next state written
    after_replies next state (err e, written) = (err e, (state, written))
    after_replies next state (out_of_fuel, written) = (out_of_fuel, (state, written))

    unfoldable pub after_call :
        (State → Bytes → Served)
        → Result E (List (Item E (Message Document))) × State
        → Bytes
        → Served
    unfolding forward_replies after_replies
    after_call next (err e, state) written = (err (upstream_request e), (state, written))
    after_call next (out_of_fuel, state) written = (out_of_fuel, (state, written))
    after_call next (ok items, state) written =
        after_replies next state (forward_replies items written)

    unfoldable pub accept_client_inner : List (Item D (Message Document)) → State → Bytes → Served
    unfolding after_call
    accept_client_inner [] state written = (ok tt, (state, written))
    accept_client_inner (failure e ∷ reqs) state written =
        (err (decode_from_client e), (state, written))
    accept_client_inner (value req ∷ reqs) state written =
        after_call (accept_client_inner reqs) (call state req) written
