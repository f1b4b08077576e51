-- ===== src/Exchange/Streamed.antt =====
-- A whole stream, from doStreamTx of perf/client.go to the callback of the remote's handler.
use mathlib.Core.List.{reverse}
use gofast.Base.{
  ℕ, zero, suc, ◌+◌, ◌≤◌, ◌<◌, ◌≡◌, refl, sym, subst, ap, ◌∙◌, ==_refl, Bool, true, false, List, [],
  ◌∷◌, ◌++◌, append_assoc, Option, none, some, ok, length, length-append, length-replicate, map,
  replicate, All, arith,
}
use gofast.Bench.Traffic.{do_stream_tx}
use gofast.Bench.Streams.{open_all, stream_commands, do_stream_tx-Streamed}
use gofast.Calls.Streamed.{Streamable, stream_command, close_command}
use gofast.Calls.{returned, Client}
use gofast.DoRx.Conversation.{
  Sending, Frame, sends_msg, ends, wire, wires, delivered, frame_delivered, Fit,
}
use gofast.DoTx.Batches.{bytes_of}
use gofast.DoTx.Accepted.{tx_step-alone}
use gofast.DoTx.{Txproto, Sender, to_sender, tx_step}
use gofast.Exchange.Pipe.{Idle, Carries, do_tx-do_rx}
use gofast.Exchange.Served.{given_at}
use gofast.Exchange.Started.{sync_step-Starts}
use gofast.Requests.Sends.{sync_command, first_bytes}
use gofast.Requests.{answered}
use gofast.Rx.Layers.{layers-wrap}
use gofast.Rx.{Error, Receiver}
use gofast.SyncRx.Aside.{told_to}
use gofast.SyncRx.Order.{stream_msgs, sync_run-closes}
use gofast.SyncRx.Pool.{Inv}
use gofast.SyncRx.{Endpoint, handled, packet, handler_of, sync_step, sync_run}
use gofast.Tx.Packet.{Codec, header, used, framed, end_frame, payload}
use gofast.Tx.Sends.{starts}
use gofast.Types.{BinMessage, no_message, Message, RxPacket, find_key}

-- The message as it stands on the wire, in a frame of a kind.
abbrev pub framed_as : ℕ → List Codec → ℕ → Message → List ℕ → Sending
framed_as kind cs key msg encoded = record {
  kind = kind;
  tags = reverse (used msg.is_whoami cs);
  opaque = key;
  id = msg.id;
  encoded = encoded;
}

-- The frames of a stream of `n` messages behind the first, and its end.
abbrev pub stream_frames : List Codec → ℕ → Message → List ℕ → ℕ → List Frame
stream_frames cs key msg encoded n =
    sends_msg (framed_as 0x9f cs key msg encoded)
    ∷ (replicate n (sends_msg (framed_as 0xc7 cs key msg encoded)) ++ ends key ∷ [])

module _ (cs : List Codec) (key : ℕ) (msg : Message) (encoded : List ℕ) where
  wire-framed_as :
      (kind : ℕ)
      → framed kind key (payload msg.is_whoami cs msg.id encoded)
        ≡ wire (framed_as kind cs key msg encoded)
  wire-framed_as kind =
      ap (framed kind key) (layers-wrap (used msg.is_whoami cs) (header msg.id encoded))

  bytes-wires :
      (n : ℕ)
      → bytes_of (replicate n (stream_command cs key msg encoded false) ++ close_command key ∷ [])
        ≡ wires (replicate n (sends_msg (framed_as 0xc7 cs key msg encoded)) ++ ends key ∷ [])
  bytes-wires zero = refl
  bytes-wires (suc n) = cc (wire-framed_as 0xc7, bytes-wires n)

  stream_commands-All :
      (n size : ℕ)
      → length (framed 0xc7 key (payload msg.is_whoami cs msg.id encoded)) ≤ size
      → length (end_frame key) ≤ size
      → All
          (λ (arg : Txproto). length arg.packet ≤ size)
          (replicate n (stream_command cs key msg encoded false) ++ close_command key ∷ [])
  stream_commands-All zero size h k = (k, tt)
  stream_commands-All (suc n) size h k = (h, stream_commands-All n size h k)

  length-stream_frames : (n : ℕ) → length (stream_frames cs key msg encoded n) < n + 3
  length-stream_frames n = omega (
    arith,
    length-append (replicate n (sends_msg (framed_as 0xc7 cs key msg encoded))) (ends key ∷ []),
    length-replicate n (sends_msg (framed_as 0xc7 cs key msg encoded)),
  )

  -- What the packets of the stream say.
  abbrev message : RxPacket
  message = delivered (framed_as 0xc7 cs key msg encoded)

  map-stream_frames :
      (n : ℕ)
      → map packet (
          map frame_delivered
            (replicate n (sends_msg (framed_as 0xc7 cs key msg encoded)) ++ ends key ∷ []))
        ≡ map packet (replicate n message) ++ packet (frame_delivered (ends key)) ∷ []
  map-stream_frames zero = refl
  map-stream_frames (suc n) = cc (map-stream_frames n)

  msgs-replicate :
      (n : ℕ)
      → stream_msgs key (replicate n message)
        ≡ replicate n (record { id = msg.id; body = some encoded }, true)
  msgs-replicate zero = refl
  msgs-replicate (suc n) =
      rw (==_refl key)
        (ap (◌∷◌ (record { id = msg.id; body = some encoded }, true)) (msgs-replicate n))

  go_on : (n : ℕ) → All (λ (p : RxPacket). p.opaque ≡ key → p.finish ≡ false) (replicate n message)
  go_on zero = tt
  go_on (suc n) = ((λ e. refl), go_on n)

-- What the remote makes of the stream: `e1` is its receiver behind the start.
pub record Received (reply : ℕ → Option ℕ → BinMessage → Option ℕ) (e : Endpoint) (key h : ℕ)
    (first : RxPacket) (said : List (BinMessage × Bool)) (pkts : List RxPacket) : Type 0 where
  pub opened :
      (sync_step reply e (packet first)).events
      ≡ e.events ++ handled h (some (given_at e key)) first.msg ∷ []
  pub gone : find_key key (sync_run reply e (map packet pkts)).live ≡ none
  pub told_all :
      told_to (given_at e key) (sync_run reply e (map packet pkts)).events
      ≡ told_to (given_at e key) e.events ++ said

module _ (conn_write : List (List ℕ) → List ℕ → ℕ × Option Error)
    (full : (sent : List (List ℕ)) (bs : List ℕ) → conn_write sent bs ≡ (length bs, none))
    (reply : ℕ → Option ℕ → BinMessage → Option ℕ) where
  -- A stream comes through: where a caller has a local stream free, `n + 1` commands and nothing
  -- waiting in `t.txch`, the message can be sent on the stream, the connection takes and hands on
  -- all that is written, its `doTx` is idle and its batch is a single command, the remote can
  -- receive each frame, no stream is live there under the opaque value, and the handler of the
  -- message there returns a callback, then `doTx` answers the start, which is not flushed, to its
  -- sender at once, with its length and no error; on that answer `doStreamTx` with `n` messages
  -- behind the first returns while the transport is open; `doTx` writes all its commands; `doRx` of
  -- the remote delivers the start, `n` messages and the end, in order; the handler is called with
  -- the first message and a stream; and the callback that it returns is told the `n` messages, then
  -- that nothing more comes, and nothing else; behind which no stream is live under the opaque
  -- value.
  pub do_stream_tx-Received :
      (cs : List Codec) (c : Client) (a : ℕ) (rest : List ℕ) (n k callb fuel h remote : ℕ)
      (msg : Message) (encoded : List ℕ) (s : Sender) (r : Receiver) (e : Endpoint)
      → c.endpoint.pool ≡ a ∷ rest
      → c.txcmd ≡ n + suc k
      → c.txch ≡ []
      → Streamable cs msg encoded
          ((c.endpoint.heap a).opaque)
          c.endpoint.transport
          (record (c.endpoint.heap a) { rxcallb = some callb })
      → Idle s
      → s.transport.buffersize ≡ c.endpoint.transport.buffersize
      → s.transport.batchsize ≡ 1
      → All (Fit fuel r) (stream_frames cs ((c.endpoint.heap a).opaque) msg encoded n)
      → Inv e
      → find_key ((c.endpoint.heap a).opaque) e.live ≡ none
      → handler_of reply e.transport (record { id = msg.id; body = some encoded }) ≡ some h
      → reply h
          (some (given_at e ((c.endpoint.heap a).opaque)))
          (record { id = msg.id; body = some encoded })
        ≡ some remote
      → let key = (c.endpoint.heap a).opaque in
        let said : BinMessage = record { id = msg.id; body = some encoded } in
        let frames = stream_frames cs key msg encoded n in
        let start = sync_command (first_bytes starts cs c a msg encoded) false in
        (c' : Client) × (do_stream_tx c n msg callb
            (answered (length start.packet) none)
            open_all
            false
          ≡ returned (c', a))
        × (s' : Sender) × (rest : List Txproto) × (c'.txch ≡ start ∷ rest)
        × (tx_step conn_write s start ≡ ok s')
        × (s'.replies ≡ to_sender start (length start.packet) none ∷ [])
        × Carries conn_write s c'.txch (n + 3) fuel r frames
        × Received reply e key h
            (delivered (framed_as 0x9f cs key msg encoded))
            (replicate n (said, true) ++ (no_message, false) ∷ [])
            (map frame_delivered frames)
  unfolding sync_run
  do_stream_tx-Received cs c a rest n k callb fuel h remote msg encoded s r e pooled free quiet can
        idle size one fit inv unknown handler callback =
      let key = (c.endpoint.heap a).opaque in
      let first = delivered (framed_as 0x9f cs key msg encoded) in
      let pkt = message cs key msg encoded in
      let cmds = replicate n (stream_command cs key msg encoded false) in
      let start = sync_command (first_bytes starts cs c a msg encoded) false in
      let (c', runs, w) = do_stream_tx-Streamed cs c a rest n k callb msg encoded pooled free can in
      let txch : c'.txch ≡ (start ∷ cmds) ++ close_command key ∷ [] =
        w.txch ∙ ap (λ (l : List Txproto). l ++ stream_commands cs c a msg encoded n) quiet in
      let carries =
        do_tx-do_rx conn_write full s (start ∷ cmds) (close_command key) (n + 3) fuel r
          (stream_frames cs key msg encoded n) idle
          (
            omega (arith, can.ready.packet_fits, can.room, can.small, size),
            stream_commands-All cs key msg encoded n s.transport.buffersize
                (omega (arith, can.ready.packet_fits, can.room, can.small, size))
                (omega (arith, can.closes, can.small, size)),
          )
          refl (cc (wire-framed_as cs key msg encoded 0x9f, bytes-wires cs key msg encoded n))
          (length-stream_frames cs key msg encoded n) fit in
      let st =
        sync_step-Starts reply e first h remote inv
          (record { starts = refl; post = refl; request = refl; finish = refl }) unknown handler
          callback in
      let e1 = sync_step reply e (packet first) in
      let (gone, told_all) =
        sync_run-closes key (given_at e key) remote reply e1 (replicate n pkt)
          (frame_delivered (ends key)) st.held (go_on cs key msg encoded n) refl refl in
      let same = map-stream_frames cs key msg encoded n in
      let (s', steps, answer) =
        tx_step-alone conn_write full s start idle.waiting idle.batch idle.replies one
          (omega (arith, can.ready.packet_fits, can.room, can.small, size)) in
      (
        c',
        runs,
        s',
        cmds ++ close_command key ∷ [],
        txch,
        steps,
        answer,
        subst
            (λ (l : List Txproto).
              Carries conn_write s l (n + 3) fuel r (stream_frames cs key msg encoded n))
            (sym txch) carries,
        record {
          opened = st.events;
          gone = rw same gone;
          told_all =
              rw same told_all
              ∙ append_assoc (told_to (given_at e key) e1.events)
                  (stream_msgs key (replicate n pkt)) ((no_message, false) ∷ [])
              ∙ ap
                  (λ (l : List (BinMessage × Bool)).
                    l ++ (stream_msgs key (replicate n pkt) ++ (no_message, false) ∷ []))
                  st.quiet
              ∙ ap
                  (λ (l : List (BinMessage × Bool)).
                    told_to (given_at e key) e.events ++ (l ++ (no_message, false) ∷ []))
                  (msgs-replicate cs key msg encoded n);
        },
      )
