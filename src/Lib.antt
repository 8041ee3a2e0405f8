-- ===== src/Lib.antt =====
-- A proxy for the MongoDB wire protocol: its messages, the codec that cuts them out of a byte
-- stream, the loop that serves a client over an upstream, the layers around it, and the decisions
-- that choose the upstream.
--
-- The parts and the files that model them:
-- - Prelude: tests, lists, integers and Rust's `Result`. Bytes: machine words in little-endian
--   order, UTF-8 and C strings, and writers into a buffer.
-- - Bson: the `bson` crate, which is not part of the repository: a type of documents with its
--   reader and writer as a parameter, and the laws that the crate documents; Bson.Documents has the
--   operations on the fields of a document, with laws of their own.
-- - Ids (src/ids.rs), OpCode (src/op_code.rs), Header (src/header.rs): the fields of a header, and
--   `MessageHeader::from_bytes` and `write_bytes`. Header.Frame states what a writer promises: one
--   whole frame is appended, or nothing.
-- - Operation (src/operation/): OpMsg, OpQuery and OpReply with their flags, parsers and writers,
--   and the `Operation` that picks one by the opcode.
-- - Message (src/message.rs, src/encoder.rs): a header and its operation.
-- - Decoder (src/decoder.rs): `WireDecoder::decode` takes its state and the buffer and gives both
--   back with the outcome. Decoder.Steps is about one call, Decoder.Stream about all calls on the
--   bytes of a connection.
-- - Uri (src/uri.rs): the connection string. Srv (src/srv.rs): the random generator, the order of
--   the SRV records, and `resolve_with` in Srv.Resolve. Probe (src/serve/probe.rs): the probe of
--   one host over Service.Dial (`ProxyClient::forward_to`), the reading of its hello reply, and the
--   choice of the primary among the settled probes.
-- - Service: what the layers share of tower's `Service`, a state with a `call`. Service.Upstream is
--   `ProxyClient` of src/serve/service.rs and Service.Accept `accept_client_inner` of
--   src/serve/mod.rs; Service.Forward puts both together. Service.Server is
--   `Serve::run_until` of src/serve/mod.rs, the accept loop with its shutdown.
-- - Hello (src/serve/rewrite_hello.rs): the layer that strips the topology from hello replies.
-- - Explain (src/serve/explain/): Explain.Model is the directory model/ (its Details, Decode and
--   Express have the parsers and the deserializers of plan_details.rs), and Classify, Build, Parse,
--   Plan (`to_plan_node` of parse.rs), Preview (util.rs), RequestId (`alloc_request_id` of layer.rs),
--   Shared (the same under interleaved calls) and Layer follow the files; the other children of
--   Explain are about them.
-- - Proxy (src/serve/service.rs): Proxy.Defs has `route` and the target, Proxy.Startup `from_uri`,
--   Proxy.Failover the re-probe loop beside the connections, Proxy.Stack the services that
--   `Proxy::call` puts around one connection.
-- - Redact (src/redact.rs): the rendering of documents in the logs, and in Redact.Message of whole
--   messages, which the files of src/operation/ define. Log (src/serve/log.rs): the log layer.
-- - Examples: concrete documents that keep the laws of Bson, and runs of the theorems.
--
-- Choices of the model: a string is the list of its UTF-8 bytes; an `i32` or an `i64` is an integer
-- with its range as a predicate, and a length is a natural number, so that an overflow of `usize`
-- is not modelled. A cursor is the bytes that are left. A parser's loop runs on fuel, the number of
-- bytes of its input, of which every round takes one at least; `out_of_fuel` is no Rust value. The
-- order of SRV records runs on the number of records, and a panic of `Vec::remove` or of a sum of
-- weights that overflows, as in a debug build, or a lack of fuel is `none` there. Reserving space
-- in a buffer changes no bytes and has no counterpart.
--
-- A stream of replies is the list of its items, with the state behind the last of them, and a poll
-- that is pending has no counterpart. The client of an upstream polls on fuel, two more than the
-- items of the reader, since every poll takes an item or ends the stream. The counter of explain ids
-- is the sequence of the exchanges that succeeded, and in Explain.Shared every access of it is a
-- step, of any call, in any order. The accept loop takes the events that `select!` picks. A tick of
-- the re-probe loop and an accepted connection are events in the order in which the target cell
-- sees them.
--
-- Not modelled: sockets, TLS, tasks and timers, the text that a log record becomes, the DNS
-- lookup, the sinks behind a trace of their calls; any other layer that a caller adds; reading a
-- document into a whole typed reply or a stage, which serde and the `bson` crate drive, and the
-- text that `Debug` writes; the payload of UTF-8 errors.
pub mod Prelude
pub mod Bytes
pub mod Bson
pub mod Ids
pub mod OpCode
pub mod Header
pub mod Operation
pub mod Message
pub mod Decoder
pub mod Srv
pub mod Uri
pub mod Probe
pub mod Examples
pub mod Service
pub mod Hello
pub mod Explain
pub mod Proxy
pub mod Redact
pub mod Log
