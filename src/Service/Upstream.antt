-- ===== src/Service/Upstream.antt =====
-- `ProxyClient` of src/serve/service.rs: one upstream socket, and the stream of the replies to one
-- request. The reader is the items that the decoder still gives, and the writer the bytes that went
-- out; failures of the socket itself are not modelled. The guard that a stream holds is the reader.
use mongod_proxy.Bson.{Bson}
use mongod_proxy.Bytes.Defs.{Bytes}
use mongod_proxy.Decoder.Defs.{WireDecoderError}
use mongod_proxy.Message
use mongod_proxy.Message.Defs.{Message, WireEncoderError}
use mongod_proxy.Operation.Defs.{Operation}
use mongod_proxy.Service.Defs.{Item, value, failure, Service}
use mongod_proxy.Prelude.{
  if◌then◌else◌, length, Option, ℕ, Bool, List, out_of_fuel, err, ok, true, ◌∷◌, [], none, some,
  suc, zero, false, Result,
}

unfoldable pub more_to_come : {Document : Type 0} → Operation Document → Bool
more_to_come (Operation.message m) = (m.flags).more_to_come
more_to_come (Operation.query q) = false
more_to_come (Operation.reply r) = false

-- `R` is the decoder's error and `W` the encoder's; nothing here makes the variant for `io::Error`.
pub data ProxyClientRequestError (R W : Type 0) : Type 0 where
  end_of_stream : ProxyClientRequestError R W
  wire_encode : W → ProxyClientRequestError R W
  wire_decode : R → ProxyClientRequestError R W

pub data ProxyResponseStreamState : Type 0 where
  done : ProxyResponseStreamState
  streaming : ProxyResponseStreamState

module _ {Document R W : Type 0} where
  -- The item, the state of the stream and what the reader still gives.
  unfoldable pub poll_next :
      ProxyResponseStreamState
      → List (Item R (Message Document))
      → Option (Item (ProxyClientRequestError R W) (Message Document))
        × (ProxyResponseStreamState × List (Item R (Message Document)))
  unfolding more_to_come
  poll_next done reader = (none, (done, reader))
  poll_next streaming [] = (some (failure end_of_stream), (done, []))
  poll_next streaming (failure e ∷ reader) = (some (failure (wire_decode e)), (done, reader))
  poll_next streaming (value msg ∷ reader) =
      (some (value msg), (if more_to_come msg.operation then streaming else done, reader))

  unfoldable pub push_item :
      Item (ProxyClientRequestError R W) (Message Document)
      → Option (
          List (Item (ProxyClientRequestError R W) (Message Document))
          × List (Item R (Message Document)))
      → Option (
          List (Item (ProxyClientRequestError R W) (Message Document))
          × List (Item R (Message Document)))
  push_item item none = none
  push_item item (some (items, reader)) = some (item ∷ items, reader)

  unfoldable pub after_poll :
      (ProxyResponseStreamState
        → List (Item R (Message Document))
        → Option (
            List (Item (ProxyClientRequestError R W) (Message Document))
            × List (Item R (Message Document))))
      → Option (Item (ProxyClientRequestError R W) (Message Document))
        × (ProxyResponseStreamState × List (Item R (Message Document)))
      → Option (
          List (Item (ProxyClientRequestError R W) (Message Document))
          × List (Item R (Message Document)))
  unfolding push_item
  after_poll polls (none, (state, reader)) = some ([], reader)
  after_poll polls (some item, (state, reader)) = push_item item (polls state reader)

  -- The consumer polls until the stream ends; the fuel bounds its polls.
  unfoldable pub drain :
      ℕ
      → ProxyResponseStreamState
      → List (Item R (Message Document))
      → Option (
          List (Item (ProxyClientRequestError R W) (Message Document))
          × List (Item R (Message Document)))
  drain zero state reader = none
  drain (suc n) state reader = after_poll (drain n) (poll_next state reader)

module _ (bson : Bson) where
  open bson use {Document, Error}

  abbrev pub RequestError : Type 0
  RequestError = ProxyClientRequestError (WireDecoderError Error) (WireEncoderError Error)

  abbrev pub ReplyItem : Type 0
  ReplyItem = Item RequestError (Message Document)

  pub record ProxyClient : Type 0 where
    pub server_reader : List (Item (WireDecoderError Error) (Message Document))
    pub server_writer : Bytes

  -- The stream that `call` returns, drained; every item of the reader is polled once at most.
  unfoldable pub replies :
      ProxyResponseStreamState → ProxyClient → Result RequestError (List ReplyItem) × ProxyClient
  unfolding drain
  replies state c =
      elim (drain {W = WireEncoderError Error} (suc (suc (length c.server_reader))) state
        c.server_reader) [
          | none ↦ (out_of_fuel, c)
          | some (items, reader) ↦ (ok items, record c { server_reader = reader })
        ]

  -- What follows `send`: an error ends the call, and a fire-and-forget request waits for no reply.
  unfoldable pub await_replies :
      Bool
      → Result (WireEncoderError Error) (Unit {0})
      → ProxyClient
      → Result RequestError (List ReplyItem) × ProxyClient
  unfolding replies
  await_replies fire_and_forget (err e) c = (err (wire_encode e), c)
  await_replies fire_and_forget out_of_fuel c = (out_of_fuel, c)
  await_replies true (ok u) c = replies done c
  await_replies false (ok u) c = replies streaming c

  unfoldable pub call :
      ProxyClient → Message Document → Result RequestError (List ReplyItem) × ProxyClient
  unfolding await_replies
  call c req =
      let (sent, writer) = Message.Defs.encode bson req c.server_writer in
      await_replies (more_to_come req.operation) sent (record c { server_writer = writer })

  abbrev pub proxy_client : Service (Message Document) RequestError
  proxy_client = record { State = ProxyClient; call = call }
