-- ===== src/Calls/Streamed.antt =====
-- `Stream` and `Close` of stream.go, by what they hand to `doTx`.
use gofast.Base.{
  append_assoc, ℕ, suc, ◌-◌, ◌≤◌, ◌≡◌, refl, sym, subst, ap, ◌∙◌, Bool, true, false, List, [], ◌∷◌,
  ◌++◌, length, arith,
}
use gofast.Calls.HandOver.{handed, send_async-handed}
use gofast.Calls.{returned, Client, stream_on, close_stream}
use gofast.DoTx.{Txproto}
use gofast.SyncRx.Loose.{write_same}
use gofast.Tx.Frames.{Ready}
use gofast.Tx.Packet.{Codec, framed, end_frame, payload}
use gofast.Tx.Sends.{streams, send-Sends, finish-Sends}
use gofast.Tx.{stream_msg, finish}
use gofast.Types.{Message, Stream, Transport, add_uint64}

-- A stream on which a message can be sent, and which can be closed.
pub record Streamable (cs : List Codec) (msg : Message) (encoded : List ℕ) (key : ℕ) (t : Transport)
    (s : Stream) : Type 0 where
  pub ready : Ready cs t msg s encoded (length (s.out) - 4)
  pub room : 4 ≤ length s.out
  pub closes : length (end_frame key) ≤ length s.out
  pub small : length s.out ≤ t.buffersize
  pub named : s.opaque ≡ key

abbrev pub stream_command : List Codec → ℕ → Message → List ℕ → Bool → Txproto
stream_command cs key msg encoded flush = record {
  packet = framed 0xc7 key (payload msg.is_whoami cs msg.id encoded);
  flush = flush;
  async = true;
}

abbrev pub close_command : ℕ → Txproto
close_command key = record { packet = end_frame key; flush = true; async = true }

-- What can be sent on a stream can be sent on one whose buffers hold other bytes.
pub Streamable-same :
    (cs : List Codec) (msg : Message) (encoded : List ℕ) (key : ℕ) (t t' : Transport)
    (s s' : Stream)
    → t'.tagenc ≡ t.tagenc
    → t'.buffersize ≡ t.buffersize
    → s'.opaque ≡ s.opaque
    → s'.data_buf ≡ s.data_buf
    → length (s'.out) ≡ length (s.out)
    → length (s'.tagout) ≡ length (s.tagout)
    → Streamable cs msg encoded key t s
    → Streamable cs msg encoded key t' s'
Streamable-same cs msg encoded key t t' s s' tags size opaque data_same out tagout w =
    let r = w.ready in
    record {
      ready = record {
        laws = r.laws;
        tags = tags ∙ r.tags;
        encodes = ap msg.encode data_same ∙ r.encodes;
        layers_fit = rw (out, tagout) (r.layers_fit);
        body_fits = rw (opaque, tagout) (r.body_fits);
        packet_fits = rw (opaque, out) (r.packet_fits);
      };
      room = omega (arith, w.room, out);
      closes = omega (arith, w.closes, out);
      small = omega (arith, w.small, out, size);
      named = opaque ∙ w.named;
    }

-- What a send on the stream leaves: a command fewer, the frame behind the others, and a stream on
-- which a message can be sent again.
pub record Streams (cs : List Codec) (msg : Message) (encoded : List ℕ) (key a k : ℕ)
    (args : List Txproto) (c c' : Client) : Type 0 where
  pub txch : c'.txch ≡ c.txch ++ args
  pub txcmd : c'.txcmd ≡ k
  pub again : Streamable cs msg encoded key c'.endpoint.transport (c'.endpoint.heap a)
  pub rxch : c'.rxch ≡ c.rxch

module _ (cs : List Codec) (msg : Message) (encoded : List ℕ) (key a : ℕ) where
  pub stream_on-Streams :
      (c : Client) (k : ℕ) (flush : Bool)
      → Streamable cs msg encoded key c.endpoint.transport (c.endpoint.heap a)
      → c.txcmd ≡ suc k
      → (c' : Client) × (stream_on c a msg flush false ≡ returned (c', false))
        × Streams cs msg encoded key a k (stream_command cs key msg encoded flush ∷ []) c c'
  unfolding stream_on
  stream_on-Streams c k flush can free =
      let t = c.endpoint.transport in
      let s = c.endpoint.heap a in
      let bytes = framed 0xc7 s.opaque (payload msg.is_whoami cs msg.id encoded) in
      let w = send-Sends streams cs t msg s encoded s.out can.room can.ready in
      let stats = record (t.stats) { n_txstream = add_uint64 t.n_txstream 1 } in
      let s' : Stream = record s { tagout = w.tagout; out = w.out } in
      let c' = handed c a stats s' bytes flush k in
      let fits : length bytes ≤ t.buffersize =
        omega (arith, can.ready.packet_fits, can.room, can.small) in
      let same : c'.endpoint.heap a ≡ s' = write_same c.endpoint.heap a s' in
      (
        c',
        send_async-handed (λ t s out. stream_msg t msg s out) c a flush k stats bytes (length s.out)
            free fits w,
        record {
          txch =
              ap
                (λ (j : ℕ).
                  c.txch
                  ++ record {
                    packet = framed 0xc7 j (payload msg.is_whoami cs msg.id encoded);
                    flush = flush;
                    async = true;
                  }
                    ∷ [])
                can.named;
          txcmd = refl;
          again = subst (Streamable cs msg encoded key c'.endpoint.transport) (sym same) (
              Streamable-same cs msg encoded key t c'.endpoint.transport s s' refl refl refl refl
                w.out_room w.tagout_room can);
          rxch = refl;
        },
      )

  pub close_stream-Streams :
      (c : Client) (k : ℕ)
      → Streamable cs msg encoded key c.endpoint.transport (c.endpoint.heap a)
      → c.txcmd ≡ suc k
      → (c' : Client) × (close_stream c a false ≡ returned (c', false))
        × Streams cs msg encoded key a k (close_command key ∷ []) c c'
  unfolding close_stream
  close_stream-Streams c k can free =
      let t = c.endpoint.transport in
      let s = c.endpoint.heap a in
      let bytes = end_frame s.opaque in
      let closes : length bytes ≤ length s.out =
        subst (λ (j : ℕ). length (end_frame j) ≤ length s.out) (sym can.named) can.closes in
      let w = finish-Sends t s s.out closes in
      let stats = record (t.stats) { n_txfin = add_uint64 t.n_txfin 1 } in
      let s' : Stream = record s { tagout = w.tagout; out = w.out } in
      let c' = handed c a stats s' bytes true k in
      let same : c'.endpoint.heap a ≡ s' = write_same c.endpoint.heap a s' in
      (
        c',
        send_async-handed finish c a true k stats bytes (length s.out) free
            (omega (arith, closes, can.small)) w,
        record {
          txch =
              ap
                (λ (j : ℕ).
                  c.txch ++ record { packet = end_frame j; flush = true; async = true } ∷ [])
                can.named;
          txcmd = refl;
          again = subst (Streamable cs msg encoded key c'.endpoint.transport) (sym same) (
              Streamable-same cs msg encoded key t c'.endpoint.transport s s' refl refl refl refl
                w.out_room w.tagout_room can);
          rxch = refl;
        },
      )

  pub Streams-trans :
      (k k' : ℕ) (args args' : List Txproto) (c c' c'' : Client)
      → Streams cs msg encoded key a k args c c'
      → Streams cs msg encoded key a k' args' c' c''
      → Streams cs msg encoded key a k' (args ++ args') c c''
  Streams-trans k k' args args' c c' c'' p q = record {
    txch = q.txch ∙ ap (λ (l : List Txproto). l ++ args') p.txch ∙ append_assoc c.txch args args';
    txcmd = q.txcmd;
    again = q.again;
    rxch = q.rxch ∙ p.rxch;
  }
