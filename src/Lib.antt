-- ===== src/Lib.antt =====
-- gofast: a peer-to-peer transport that multiplexes posts, requests and streams of messages over one
-- connection. A message goes through these parts:
--   * tx.go frames it: a header map with the message's id and data, a layer for each configured tag,
--     the stream's opaque value, and a prefix with the kind of frame;
--   * go_tx.go collects the frames in batches and writes them to the connection;
--   * go_rx.go of the remote reads a frame, takes the layers off and the header map apart;
--   * go_syncrx.go dispatches the packet to the stream that is live under its opaque value, or to the
--     handler of the message's id.
-- cbor.go has the encoding that they share, stream.go and transport.go the streams and their pools,
-- and msg_*.go and version64.go the messages that the transport itself defines.
--
-- Files:
--   * Base: the library names and the lemmas that all share; `Result` is what a Go call comes to.
--   * Bytes: slices, write-through buffers and the accessors of encoding/binary; Bytes/Written says
--     what a sequence of writes leaves in a buffer.
--   * Cbor: cbor.go, the function tag2cbor as `tag2cbor` and so on; cborItemLength is
--     `cbor_item_length`.
--   * Types: the structs of transport.go, stream.go, api.go and go_syncrx.go.
--   * Tx: tx.go. `post`, `request`, `response`, `start`, `stream_msg` and `finish` are the methods of
--     these names, `framepkt` is framepkt, with its header in `frame_header` and its loop over the tags
--     in `roll_tags`. Tx/Packet describes the frames as lists of bytes, apart from the code.
--   * Rx: go_rx.go. `unframepkt` is in parts, one for each read; `readtp` and `unmessage` are the
--     functions of these names.
--   * DoRx: the loop of doRx as `do_rx`.
--   * Wire: a frame of Tx through Rx.
--   * DoTx: go_tx.go, doTx as `do_tx`, one `tx_step` for a command out of t.txch.
--   * SyncRx: go_syncrx.go and the parts of stream.go and transport.go that it calls, syncRx as
--     `sync_rx`, one `sync_step` for an item out of t.rxch.
--   * Calls: Post of transport.go as `post_msg`, Response, Stream and Close of stream.go as `respond`,
--     `stream_on` and `close_stream`, with getlocalstream and txasync.
--   * Requests: tx of tx.go, and Request and Stream of transport.go, each cut where it waits for another
--     goroutine: Request is `request_open` up to the wait for the response and `request_close` behind
--     it, Stream is `stream_open`.
--   * Setup: the life of a transport. NewTransport of transport.go is `new_transport`, which ends in
--     `prepare`, SubscribeMessage is `subscribe_message`, DefaultHandler `default_handler`, Handshake
--     `handshake`, with its loop over the tags in `learn_encoders` and its wait in `handshake_waits`,
--     Close `close_transport`, IsClosed `is_closed`; newWhoami of msg_whoami.go is `new_whoami`.
--   * Handler: msghandler of msg.go as `msghandler`. In Handler/Dispatch requestCallback of transport.go
--     is `serve`, and the part of syncRx that calls it `serve_new`, with all that a handler does to
--     the transport.
--   * Responses: the callback of Request of transport.go as `on_response`, and Whoami and Ping, each cut
--     as Request is: `whoami_open` and `ping_open` up to the wait, `whoami_result` and `ping_result`
--     behind it.
--   * Exchange: both ends of a connection at work together. Exchange/Pipe takes commands of the one
--     through doTx and doRx to the other, Exchange/Served a request through the remote's syncRx and
--     Response, and Exchange/Answered, Exchange/Known and Exchange/Streamed a call of Request, one of
--     Whoami and a whole stream from end to end; Exchange/Stolen is about a stream that two callers
--     hold.
--   * Codecs: makeLZW and readAll of tag_lzw.go and makeGzip of tag_gzip.go.
--   * Bench: of the performance tool perf/msg.go, cborItemLength of perf/cbor.go, add of
--     perf/avgint.go, addCounts of perf/util.go, the handler of requests of perf/server.go, and in
--     Bench/Traffic randomit and doStreamTx of perf/client.go, as `randomit` and `do_stream_tx`.
--   * Example: the message of example/msg.go, as `key_value_encode` and `key_value_decode`.
--   * Pauses: newPauseNs of http/handlers.go, with its loop in `pause_loop`.
--   * Periodic: a tick of SendHeartbeat of go_heartbeat.go as `heartbeat_tick` and one of FlushPeriod of
--     go_flush.go as `flush_tick`.
--   * Opaque: istagok and setOpaqueRange of transport.go.
--   * Registry: addtransport, deltransport, Stat and Stats of transport.go, as `add_transport`,
--     `del_transport`, `stat_of` and `all_stats`, and filterstats of http.go.
--   * Statistics: Statshandler of http.go as `statshandler`, and listtransports of transport.go.
--   * Tags: getTags of transport.go as `get_tags`, csv2strings and hasString of util.go.
--   * Messages: msg_heartbeat.go, msg_ping.go, msg_whoami.go, version64.go, and fixbuffer of util.go.
--   * Tests: runs and concrete instances.
--
-- Numbers are natural numbers; a uint64 is one below 2^64, with the wrap-around written out, and an
-- int64 is a signed number. A slice is a list, and its capacity is its length. Streams are shared by
-- pointer, so they stand in a heap. The buffer that the message encodes into is a parameter of the
-- message, and so is the version of an endpoint, with the laws of a round trip.
--
-- Fuel: the loop of unmessage and the loop over the tags may run for ever, so they take fuel, and run
-- out of it as `stuck`, and so do doRx, readAll and newPauseNs. A frame that a sender wrote takes
-- three rounds for its header and one more than its tags for the tags, a conversation one round more
-- than its frames, readAll one round for each call of Read up to the end of the input, and newPauseNs
-- one round more than there were collections.
--
-- Parameters, since their code is not in the repository: what compress/lzw and compress/gzip make of
-- their input, what the connection holds and what it answers to a write, how a select goes, the
-- callbacks that a handler returns, and the limits of the runtime on the size of a channel. Go ranges
-- over the map of tags in an order of its own, which is the order of the list here.
--
-- Of a handler that it calls, SyncRx takes the callback that comes back, and no call that the handler
-- makes on the transport: the theorems on SyncRx are about handlers that make none during the call, and
-- a response is a step of its own behind it. A call starts while the transport is open; where it is
-- closed during the call, `TxEnd` says how the selects of tx, and of the putch behind it, go.
--
-- Not modelled: goroutines that run at once (a step takes one item out of a channel), the recovery of
-- a panic but for that of Close, logs, the pool of data buffers, the rest of HTTP, timers, the rest of
-- the tool under perf, and the programs under example but for their message.
pub mod Base
pub mod Bytes
pub mod Cbor
pub mod Types
pub mod Messages
pub mod Tx
pub mod DoTx
pub mod Rx
pub mod Codecs
pub mod DoRx
pub mod Wire
pub mod Opaque
pub mod Registry
pub mod SyncRx
pub mod Calls
pub mod Requests
pub mod Setup
pub mod Handler
pub mod Statistics
pub mod Responses
pub mod Exchange
pub mod Bench
pub mod Example
pub mod Pauses
pub mod Periodic
pub mod Tags
pub mod Tests
