-- ===== src/Exchange/Sides.antt =====
-- The two sides of a request: the caller of Request in transport.go and the remote that answers it.
use mathlib.Core.List.{reverse}
use gofast.Base.{
  ℕ, suc, ◌-◌, ◌≤◌, ◌≡◌, refl, sym, subst, ap, ◌∙◌, Bool, true, false, List, [], ◌∷◌, ◌++◌, Option,
  none, some, length, ==_refl, arith,
}
use gofast.Calls.{returned, Client}
use gofast.DoRx.Conversation.{Sending, sends_msg, wire, delivered, Fit}
use gofast.DoTx.{Txproto, Sender}
use gofast.Exchange.Pipe.{Idle, Carries, do_tx-do_rx}
use gofast.Exchange.Served.{given, IsRequest}
use gofast.Requests.Cycle.{request-cycle}
use gofast.Requests.Sends.{sync_command, request_bytes}
use gofast.Requests.{answered, request_open, request_close}
use gofast.Rx.Layers.{layers-wrap}
use gofast.Rx.{Error, Receiver}
use gofast.SyncRx.Aside.{told_to}
use gofast.SyncRx.Order.{stream_msgs}
use gofast.SyncRx.Pool.{Inv}
use gofast.SyncRx.{told, packet, handler_of, sync_step, sync_run}
use gofast.Tx.Frames.{Ready}
use gofast.Tx.Packet.{Codec, header, used, framed, payload}
use gofast.Types.{BinMessage, Message, Stream, Transport, find_key}

-- The message as it stands on the wire, under an opaque value.
abbrev pub on_wire : List Codec → ℕ → Message → List ℕ → Sending
on_wire cs opaque msg encoded = record {
  kind = 0x81;
  tags = reverse (used msg.is_whoami cs);
  opaque = opaque;
  id = msg.id;
  encoded = encoded;
}

abbrev pub key_of : Client → ℕ → ℕ
key_of c a = (c.endpoint.heap a).opaque

abbrev pub bin : Message → List ℕ → BinMessage
bin msg encoded = record { id = msg.id; body = some encoded }

-- A caller that can ask: a local stream and a command are free, nothing waits in `t.txch`, and the
-- request can be sent on that stream.
pub record Asking (cs : List Codec) (c : Client) (a : ℕ) (rest : List ℕ) (k callb : ℕ)
    (msg : Message) (encoded : List ℕ) : Type 0 where
  pub inv : Inv c.endpoint
  pub pooled : c.endpoint.pool ≡ a ∷ rest
  pub free : c.txcmd ≡ suc k
  pub quiet : c.txch ≡ []
  pub room : 4 ≤ length ((c.endpoint.heap a).out)
  pub small : length ((c.endpoint.heap a).out) ≤ c.endpoint.transport.buffersize
  pub ready :
      Ready cs c.endpoint.transport msg
        (record (c.endpoint.heap a) { rxcallb = some callb })
        encoded
        (length ((c.endpoint.heap a).out) - 4)

-- A remote that can serve the message `asked` under an opaque value: no stream is live under it,
-- there is a handler, a command is free, nothing waits in `t.txch`, and the handler's answer can be
-- sent on the stream that it is given.
pub record Serving (reply : ℕ → Option ℕ → BinMessage → Option ℕ) (cs : List Codec) (d : Client)
    (opaque : ℕ) (asked : BinMessage) (h k : ℕ) (msg : Message) (encoded : List ℕ) : Type 0 where
  pub unknown : find_key opaque d.endpoint.live ≡ none
  pub handler : handler_of reply d.endpoint.transport asked ≡ some h
  pub free : d.txcmd ≡ suc k
  pub quiet : d.txch ≡ []
  pub room : 4 ≤ length ((given d.endpoint opaque).out)
  pub small : length ((given d.endpoint opaque).out) ≤ d.endpoint.transport.buffersize
  pub ready :
      Ready cs d.endpoint.transport msg
        (given d.endpoint opaque)
        encoded
        (length ((given d.endpoint opaque).out) - 4)

-- One direction of the connection: an idle `doTx` whose buffers have the size that its callers
-- know, and a receiver that has the decoders and the room for the frame.
pub record Line (s : Sender) (buffersize fuel : ℕ) (r : Receiver) (frame : Sending) : Type 0 where
  pub idle : Idle s
  pub same_size : s.transport.buffersize ≡ buffersize
  pub fit : Fit fuel r (sends_msg frame)

-- The command with the frame of an answer, to be flushed.
abbrev pub answer_command : List Codec → ℕ → Message → List ℕ → Txproto
answer_command cs opaque msg encoded = record {
  packet = framed 0x81 opaque (payload msg.is_whoami cs msg.id encoded);
  flush = true;
  async = true;
}

wire-payload :
    (cs : List Codec) (opaque : ℕ) (msg : Message) (encoded : List ℕ)
    → framed 0x81 opaque (payload msg.is_whoami cs msg.id encoded)
      ≡ wire (on_wire cs opaque msg encoded)
wire-payload cs opaque msg encoded =
    ap (framed 0x81 opaque) (layers-wrap (used msg.is_whoami cs) (header msg.id encoded))

pub delivered-IsRequest :
    (cs : List Codec) (opaque : ℕ) (msg : Message) (encoded : List ℕ)
    → IsRequest (delivered (on_wire cs opaque msg encoded))
delivered-IsRequest cs opaque msg encoded = record { asks = refl; post = refl; finish = refl }

module _ (conn_write : List (List ℕ) → List ℕ → ℕ × Option Error)
    (full : (sent : List (List ℕ)) (bs : List ℕ) → conn_write sent bs ≡ (length bs, none)) where
  -- One frame goes through.
  carried :
      (s : Sender) (size fuel : ℕ) (r : Receiver) (arg : Txproto) (frame : Sending)
      → Line s size fuel r frame
      → length arg.packet ≤ size
      → arg.flush ≡ true
      → arg.packet ≡ wire frame
      → Carries conn_write s (arg ∷ []) 2 fuel r (sends_msg frame ∷ [])
  carried s size fuel r arg frame line small flush same =
      do_tx-do_rx conn_write full s [] arg 2 fuel r (sends_msg frame ∷ []) line.idle
        (omega (arith, line.same_size), tt) flush (ap (λ (l : List ℕ). l ++ []) same) (omega arith)
        (line.fit, tt)

  -- The remote's side: a command with the frame of the answer, on its way back.
  pub answer-Carries :
      (ds : List Codec) (key size fuel : ℕ) (answer : Message) (answered_by : List ℕ) (s : Sender)
      (r : Receiver) (queue : List Txproto)
      → Line s size fuel r (on_wire ds key answer answered_by)
      → length (framed 0x81 key (payload answer.is_whoami ds answer.id answered_by)) ≤ size
      → queue ≡ answer_command ds key answer answered_by ∷ []
      → Carries conn_write s queue 2 fuel r (sends_msg (on_wire ds key answer answered_by) ∷ [])
  answer-Carries ds key size fuel answer answered_by s r queue back small queued =
      subst
        (λ (l : List Txproto).
          Carries conn_write s l 2 fuel r (sends_msg (on_wire ds key answer answered_by) ∷ []))
        (sym queued)
        (carried s size fuel r _ (on_wire ds key answer answered_by) back small refl
          (wire-payload ds key answer answered_by))

pub frame_fits :
    (cs : List Codec) (t : Transport) (msg : Message) (stream : Stream) (encoded : List ℕ)
    (key size : ℕ)
    → Ready cs t msg stream encoded (length (stream.out) - 4)
    → 4 ≤ length stream.out
    → length stream.out ≤ size
    → stream.opaque ≡ key
    → length (framed 0x81 key (payload msg.is_whoami cs msg.id encoded)) ≤ size
frame_fits cs t msg stream encoded key size ready room small same =
    subst (λ (k : ℕ). length (framed 0x81 k (payload msg.is_whoami cs msg.id encoded)) ≤ size) same
      (omega (arith, ready.packet_fits))

-- What became of a call whose request went out and whose answer came in.
pub record Round (reply : ℕ → Option ℕ → BinMessage → Option ℕ) (c c' : Client) (a callb : ℕ)
    (msg : Message) (sent : ℕ) (frame : Sending) : Type 0 where
  pub opens : request_open c msg true callb (answered sent none) ≡ returned (c', a, none)
  pub told_c :
      let e1 = sync_run reply c'.endpoint (told a ∷ packet (delivered frame) ∷ []) in
      let e2 = sync_step reply (request_close (record c' { endpoint = e1 }) a).endpoint (told a) in
      (told_to a e2.events
        ≡ told_to a c.endpoint.events
          ++ (record { id = frame.id; body = some frame.encoded }, false) ∷ [])
      × (find_key (key_of c a) e2.live ≡ none)
      × (e2.pool ≡ e1.pool ++ a ∷ [])

module _ (conn_write : List (List ℕ) → List ℕ → ℕ × Option Error)
    (full : (sent : List (List ℕ)) (bs : List ℕ) → conn_write sent bs ≡ (length bs, none))
    (reply : ℕ → Option ℕ → BinMessage → Option ℕ) where
  -- The caller's side: its request goes out, and whatever answer comes in under the stream's opaque
  -- value is what its callback is told.
  pub request-Round :
      (cs ds : List Codec) (c : Client) (a : ℕ) (rest : List ℕ) (k callb fuel : ℕ)
      (msg answer : Message) (encoded answered_by : List ℕ) (s : Sender) (r : Receiver)
      → Asking cs c a rest k callb msg encoded
      → Line s c.endpoint.transport.buffersize fuel r (on_wire cs (key_of c a) msg encoded)
      → (c' : Client) × Round reply c c' a callb msg
          (length (request_bytes cs c a msg encoded))
          (on_wire ds (key_of c a) answer answered_by)
        × Carries conn_write s c'.txch 2 fuel r
            (sends_msg (on_wire cs (key_of c a) msg encoded) ∷ [])
  request-Round cs ds c a rest k callb fuel msg answer encoded answered_by s r asks out =
      let key = key_of c a in
      let asked = on_wire cs key msg encoded in
      let pkt = delivered (on_wire ds key answer answered_by) in
      let cmd = sync_command (request_bytes cs c a msg encoded) true in
      let (c', opens, _, queued, (told_c, gone, pooled)) =
        request-cycle reply a callb cs c rest k msg true encoded (pkt ∷ []) asks.inv asks.pooled
          asks.free asks.room asks.small asks.ready ((λ e. refl), tt) in
      let txch : c'.txch ≡ cmd ∷ [] =
        queued ∙ ap (λ (l : List Txproto). l ++ cmd ∷ []) asks.quiet in
      let there =
        carried conn_write full s c.endpoint.transport.buffersize fuel r cmd asked out
          (frame_fits cs _ msg _ encoded key _ asks.ready asks.room asks.small refl) refl
          (wire-payload cs key msg encoded) in
      let said : stream_msgs key (pkt ∷ []) ≡ (bin answer answered_by, false) ∷ [] =
        rw (==_refl key) refl in
      (
        c',
        record {
          opens = opens;
          told_c = (
            told_c ∙ ap (λ (l : List (BinMessage × Bool)). told_to a c.endpoint.events ++ l) said,
            gone,
            pooled,
          );
        },
        subst (λ (l : List Txproto). Carries conn_write s l 2 fuel r (sends_msg asked ∷ []))
            (sym txch) there,
      )
