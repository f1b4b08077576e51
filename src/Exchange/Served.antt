-- ===== src/Exchange/Served.antt =====
-- A request at the remote: handlepkt of go_syncrx.go with Response of stream.go.
use gofast.Base.{
  ℕ, suc, ◌-◌, ◌≤◌, ◌≡◌, refl, sym, subst, ap, ◌∙◌, Bool, true, false, List, [], ◌∷◌, ◌++◌, Option,
  none, some, length, arith,
}
use gofast.Calls.Respond.{respond-handed}
use gofast.Calls.{returned, Client, respond}
use gofast.SyncRx.Delivery.{new_live, new_events, new_opaque}
use gofast.SyncRx.{
  Endpoint, Event, handled, log, with_stats, packet, fromrxstrm, newremotestream, handler_of,
  request_callback, handle_new, handlepkt, sync_step,
}
use gofast.Tx.Frames.{Ready}
use gofast.Tx.Packet.{Codec, framed, payload}
use gofast.Types.{BinMessage, Message, RxPacket, Stream, Transport, find_key, add_uint64}

-- The stream that the handler of a request is given, and where it stands.
abbrev pub given_at : Endpoint → ℕ → ℕ
given_at e opaque = (newremotestream e opaque).1

abbrev pub given : Endpoint → ℕ → Stream
given e opaque = (newremotestream e opaque).0.heap (given_at e opaque)

-- A packet with a request.
pub record IsRequest (pkt : RxPacket) : Type 0 where
  pub asks : pkt.request ≡ true
  pub post : pkt.post ≡ false
  pub finish : pkt.finish ≡ false

pub new_transport :
    (e : Endpoint) (opaque : ℕ) → (newremotestream e opaque).0.transport ≡ e.transport
unfolding newremotestream fromrxstrm
new_transport e opaque = ground arith

-- A transport that differs by its counters alone sends the same.
pub Ready-stats :
    (cs : List Codec) (t t' : Transport) (msg : Message) (s : Stream) (encoded : List ℕ) (room : ℕ)
    → t'.tagenc ≡ t.tagenc
    → Ready cs t msg s encoded room
    → Ready cs t' msg s encoded room
Ready-stats cs t t' msg s encoded room same r = record {
  laws = r.laws;
  tags = same ∙ r.tags;
  encodes = r.encodes;
  layers_fit = r.layers_fit;
  body_fits = r.body_fits;
  packet_fits = r.packet_fits;
}

module _ (reply : ℕ → Option ℕ → BinMessage → Option ℕ) where
  -- What a request does to the endpoint.
  pub record Asked (e e' : Endpoint) (pkt : RxPacket) (h : ℕ) : Type 0 where
    pub events : e'.events ≡ e.events ++ handled h (some (given_at e pkt.opaque)) pkt.msg ∷ []
    pub stream : e'.heap (given_at e pkt.opaque) ≡ given e pkt.opaque
    pub live : e'.live ≡ e.live
    pub tagenc : e'.transport.tagenc ≡ e.transport.tagenc
    pub buffersize : e'.transport.buffersize ≡ e.transport.buffersize

  pub callback_found :
      (e : Endpoint) (stream : Option ℕ) (msg : BinMessage) (h : ℕ)
      → handler_of reply e.transport msg ≡ some h
      → request_callback reply e stream msg ≡ (log e (handled h stream msg), reply h stream msg)
  unfolding request_callback
  callback_found e stream msg h found = rw (found, request_callback)

  handle_new-asks :
      (e : Endpoint) (pkt : RxPacket) (h : ℕ)
      → IsRequest pkt
      → handler_of reply e.transport pkt.msg ≡ some h
      → handle_new reply e pkt
        ≡ with_stats
            (log
              (newremotestream e pkt.opaque).0
              (handled h (some (given_at e pkt.opaque)) pkt.msg))
            (record (e.transport.stats) { n_rxreq = add_uint64 e.transport.n_rxreq 1 })
  unfolding handle_new
  handle_new-asks e pkt h is handler =
      let new = newremotestream e pkt.opaque in
      let found : handler_of reply new.0.transport pkt.msg ≡ some h =
        ap (λ (t : Transport). handler_of reply t pkt.msg) (new_transport e pkt.opaque) ∙ handler in
      simp (is.post, is.asks, handle_new, callback_found new.0 (some new.1) pkt.msg h found)

  pub sync_step-Asked :
      (e : Endpoint) (pkt : RxPacket) (h : ℕ)
      → IsRequest pkt
      → find_key pkt.opaque e.live ≡ none
      → handler_of reply e.transport pkt.msg ≡ some h
      → Asked e (sync_step reply e (packet pkt)) pkt h
  unfolding sync_step handlepkt
  sync_step-Asked e pkt h is unknown handler =
      let opens : handlepkt reply e pkt ≡ handle_new reply e pkt =
        simp (is.finish, unknown, handlepkt) in
      rw (opens ∙ handle_new-asks e pkt h is handler) (record {
        events =
            ap (λ (l : List Event). l ++ handled h (some (given_at e pkt.opaque)) pkt.msg ∷ [])
              (new_events e pkt.opaque);
        stream = refl;
        live = new_live e pkt.opaque;
        tagenc = ap (λ (t : Transport). t.tagenc) (new_transport e pkt.opaque);
        buffersize = ap (λ (t : Transport). t.buffersize) (new_transport e pkt.opaque);
      })

  -- A request is served: where a packet with a request comes under an opaque value that no stream
  -- is live under, there is a handler for its message, a command is free, and the handler's answer
  -- can be sent on the stream that it is given and its frame fits a command, the handler is called
  -- once, with the message and a stream; `Response` on that stream returns without an error where
  -- the transport is not closed, and hands `doTx` exactly the frame of the answer under the opaque
  -- value of the request; the stream goes to the pool of used streams, and none has become live.
  pub sync_step-respond :
      (cs : List Codec) (d : Client) (pkt : RxPacket) (h k : ℕ) (msg : Message) (flush : Bool)
      (encoded : List ℕ)
      → IsRequest pkt
      → find_key pkt.opaque d.endpoint.live ≡ none
      → handler_of reply d.endpoint.transport pkt.msg ≡ some h
      → d.txcmd ≡ suc k
      → 4 ≤ length ((given d.endpoint pkt.opaque).out)
      → length ((given d.endpoint pkt.opaque).out) ≤ d.endpoint.transport.buffersize
      → Ready cs d.endpoint.transport msg
          (given d.endpoint pkt.opaque)
          encoded
          (length ((given d.endpoint pkt.opaque).out) - 4)
      → let a = given_at d.endpoint pkt.opaque in
        let e = sync_step reply d.endpoint (packet pkt) in
        (d' : Client) × (respond (record d { endpoint = e }) a msg flush false
          ≡ returned (d', false))
        × (e.events ≡ d.endpoint.events ++ handled h (some a) pkt.msg ∷ [])
        × (d'.txch
            ≡ d.txch
              ++ record {
                packet = framed 0x81 pkt.opaque (payload msg.is_whoami cs msg.id encoded);
                flush = flush;
                async = true;
              }
                ∷ [])
        × (d'.endpoint.rx_pool ≡ a ∷ e.rx_pool)
        × (e.live ≡ d.endpoint.live)
  sync_step-respond cs d pkt h k msg flush encoded is unknown handler free room small ready =
      let e = sync_step reply d.endpoint (packet pkt) in
      let a = given_at d.endpoint pkt.opaque in
      let w = sync_step-Asked d.endpoint pkt h is unknown handler in
      let s = given d.endpoint pkt.opaque in
      let out_same : length ((e.heap a).out) ≡ length s.out =
        ap (λ (x : Stream). length x.out) w.stream in
      let ready' : Ready cs e.transport msg (e.heap a) encoded (length ((e.heap a).out) - 4) =
        Ready-stats cs d.endpoint.transport e.transport msg (e.heap a) encoded _ w.tagenc (
          subst (λ (x : Stream). Ready cs d.endpoint.transport msg x encoded (length (x.out) - 4))
            (sym w.stream) ready) in
      let (d', responds, queued, pooled, _, _, _, _) =
        respond-handed cs (record d { endpoint = e }) a k msg flush encoded free (omega arith)
          (omega (arith, w.buffersize)) ready' in
      (
        d',
        responds,
        w.events,
        queued
            ∙ ap
                (λ (j : ℕ).
                  d.txch
                  ++ record {
                    packet = framed 0x81 j (payload msg.is_whoami cs msg.id encoded);
                    flush = flush;
                    async = true;
                  }
                    ∷ [])
                (ap (λ (x : Stream). x.opaque) w.stream ∙ new_opaque d.endpoint pkt.opaque),
        pooled,
        w.live,
      )
