-- ===== src/Exchange/Known.antt =====
-- Whoami of transport.go, from the call to its return, with msghandler of msg.go at the remote.
use gofast.Base.{
  ℕ, ◌<◌, ◌^◌, ◌-◌, ◌≡◌, refl, sym, subst, ap, ◌∙◌, true, false, List, [], ◌∷◌, ◌++◌, append-nil,
  Option, none, some, ok, length, pos, arith,
}
use gofast.Bytes.{IsU64}
use gofast.Calls.{returned, Client}
use gofast.DoRx.Conversation.{sends_msg, delivered}
use gofast.DoTx.{Txproto, Sender}
use gofast.Exchange.Pipe.{Carries}
use gofast.Exchange.Served.{given, given_at, Ready-stats, sync_step-Asked}
use gofast.Exchange.Sides.{
  Asking, Serving, Line, Round, on_wire, key_of, bin, frame_fits, delivered-IsRequest,
  answer_command, request-Round, answer-Carries,
}
use gofast.Handler.Answers.{msghandler-whoami}
use gofast.Handler.{sent_whoami, msghandler}
use gofast.Messages.RoundTrip.{Encodes, whoami_bytes, whoami_encode-decode}
use gofast.Messages.{VersionOps, Whoami, msg_whoami, whoami_encode, whoami_decode}
use gofast.Requests.Sends.{request_bytes}
use gofast.Requests.{answered}
use gofast.Responses.{
  Pending, whoami_open, whoami_waiting, whoami_result, on_response, on_responses, whoami_into,
}
use gofast.Rx.{Error, Receiver}
use gofast.Setup.{Host, transport_of, new_whoami}
use gofast.SyncRx.Delivery.{new_opaque}
use gofast.SyncRx.{Endpoint, handled, packet, sync_step}
use gofast.Tx.Frames.{Ready}
use gofast.Tx.Packet.{Codec}
use gofast.Types.{BinMessage, Message, Stream, add_uint64}

-- A transport that can say who it is.
pub record Sayable {V : Type 0} (ops : VersionOps V) (h : Host V) (version : List ℕ) : Type 0 where
  pub encodes : Encodes ops h.version version
  pub named : length h.name < 256
  pub tagged : length h.settings.tags < 2 ^ 16
  pub sized : IsU64 (transport_of h).buffersize

-- The bytes that it says.
abbrev pub said_by : {V : Type 0} → Host V → List ℕ → List ℕ
said_by h version = whoami_bytes (new_whoami h) version

-- A handler sees the transport with its counters changed.
abbrev pub seen_by : {V : Type 0} → Host V → Endpoint → Host V
seen_by h e = record h { client = record (h.client) { endpoint = e } }

module _ {V : Type 0} (ops : VersionOps V) where
  whoami_decode-said_by :
      (h : Host V) (version : List ℕ)
      → Sayable ops h version
      → whoami_decode ops (said_by h version) ≡ ok (new_whoami h, pos (length (said_by h version)))
  unfolding new_whoami
  whoami_decode-said_by h version w =
      ap (whoami_decode ops) (sym (append-nil (said_by h version)))
      ∙ (whoami_encode-decode ops (new_whoami h) version [] [] w.encodes w.named w.tagged w.sized).1

  -- `Whoami` returns what the remote says.
  whoami_result-said_by :
      (own h : Host V) (version : List ℕ) (id : ℕ)
      → Sayable ops h version
      → (p : Pending (Whoami V)) × (on_responses
            (whoami_into ops)
            (whoami_waiting own)
            ((record { id = id; body = some (said_by h version) }, false) ∷ [])
          ≡ ok p)
        × (p.done ≡ true)
        × (whoami_result none p ≡ (some (new_whoami h), none))
  unfolding on_responses on_response whoami_into whoami_result
  whoami_result-said_by own h version id w = (
    record { resp = some (new_whoami h); done = true },
    rw (whoami_decode-said_by h version w) refl,
    refl,
    refl,
  )

  new_whoami-seen_by :
      (h : Host V) (e : Endpoint)
      → e.transport.buffersize ≡ (transport_of h).buffersize
      → new_whoami (seen_by h e) ≡ new_whoami h
  unfolding new_whoami
  new_whoami-seen_by h e same =
      ap
        (λ (n : ℕ). record {
          name = h.name;
          version = h.version;
          buffersize = n;
          tags = h.settings.tags;
        })
        same

  -- What could be sent before the counters changed can be sent then.
  Ready-seen_by :
      (ds : List Codec) (h : Host V) (e : Endpoint) (b : ℕ) (st : Stream) (encoded : List ℕ)
      → e.transport.buffersize ≡ (transport_of h).buffersize
      → e.transport.tagenc ≡ (transport_of h).tagenc
      → e.heap b ≡ st
      → Ready ds (transport_of h) (sent_whoami ops h) st encoded (length (st.out) - 4)
      → Ready ds e.transport
          (sent_whoami ops (seen_by h e))
          (e.heap b)
          encoded
          (length ((e.heap b).out) - 4)
  Ready-seen_by ds h e b st encoded size tags same r =
      let m : sent_whoami ops (seen_by h e) ≡ sent_whoami ops h =
        ap
          (λ (wai : Whoami V). record {
            id = msg_whoami;
            encode = whoami_encode ops wai;
            is_whoami = true;
          })
          (new_whoami-seen_by h e size) in
      Ready-stats ds (transport_of h) e.transport (sent_whoami ops (seen_by h e)) (e.heap b) encoded
        _ tags
        (subst
          (λ (msg : Message).
            Ready ds (transport_of h) msg (e.heap b) encoded (length ((e.heap b).out) - 4))
          (sym m)
          (subst
            (λ (x : Stream).
              Ready ds (transport_of h) (sent_whoami ops h) x encoded (length (x.out) - 4))
            (sym same) r))

  module _ (conn_write : List (List ℕ) → List ℕ → ℕ × Option Error)
      (full : (sent : List (List ℕ)) (bs : List ℕ) → conn_write sent bs ≡ (length bs, none))
      (remote_write : List (List ℕ) → List ℕ → ℕ × Option Error)
      (remote_full : (sent : List (List ℕ)) (bs : List ℕ)
        → remote_write sent bs ≡ (length bs, none))
      (reply remote_reply : ℕ → Option ℕ → BinMessage → Option ℕ) where
    -- Two transports come to know one another: where a caller can ask with its own whoami, its
    -- remote can serve that message with its own, both can say who they are, the connection takes
    -- and hands on all that is written at either end, each frame is one that the other end can
    -- receive, and the remote is not closed, `Whoami` sends the caller's whoami, which `doTx`
    -- writes and answers without an error; `doRx` of the remote delivers it and a handler is called
    -- with it; `msghandler` returns with the peer's version known, one exchange more counted, and
    -- its own whoami handed to `doTx`, whose frame comes through to the caller's `doRx`; the
    -- callback is told that, as the last message of its stream, and nothing else; and on that it
    -- closes `donech`, and `Whoami` returns the remote's own name, version, buffer size and tags
    -- and no error.
    pub whoami-answered :
        (cs ds : List Codec) (hc hd : Host V) (vc vd : List ℕ) (a : ℕ) (rest : List ℕ)
        (now k i j callb fuel : ℕ) (s s' : Sender) (r r' : Receiver)
        → Sayable ops hc vc
        → Sayable ops hd vd
        → Asking cs hc.client a rest k callb (sent_whoami ops hc) (said_by hc vc)
        → Serving remote_reply ds hd.client
            (key_of hc.client a)
            (bin (sent_whoami ops hc) (said_by hc vc))
            i
            j
            (sent_whoami ops hd)
            (said_by hd vd)
        → Line s
            (transport_of hc).buffersize
            fuel
            r
            (on_wire cs (key_of hc.client a) (sent_whoami ops hc) (said_by hc vc))
        → Line s'
            (transport_of hd).buffersize
            fuel
            r'
            (on_wire ds (key_of hc.client a) (sent_whoami ops hd) (said_by hd vd))
        → let key = key_of hc.client a in
          let msg = sent_whoami ops hc in
          let asked = on_wire cs key msg (said_by hc vc) in
          let told_back = on_wire ds key (sent_whoami ops hd) (said_by hd vd) in
          let b = given_at hd.client.endpoint key in
          let e = sync_step remote_reply hd.client.endpoint (packet (delivered asked)) in
          (c' : Client) × (h' : Host V) × Round reply hc.client c' a callb msg
            (length (request_bytes cs hc.client a msg (said_by hc vc)))
            told_back
          × (whoami_open ops hc callb
                (answered (length (request_bytes cs hc.client a msg (said_by hc vc))) none)
              ≡ returned (c', a, none))
          × Carries conn_write s c'.txch 2 fuel r (sends_msg asked ∷ [])
          × (e.events
              ≡ hd.client.endpoint.events ++ handled i (some b) (bin msg (said_by hc vc)) ∷ [])
          × (msghandler ops now (seen_by hd e) (some b) (bin msg (said_by hc vc)) false
              ≡ returned h')
          × (h'.peerver ≡ some hc.version)
          × (h'.xchngok ≡ add_uint64 hd.xchngok 1)
          × Carries remote_write s' h'.client.txch 2 fuel r' (sends_msg told_back ∷ [])
          × ((p : Pending (Whoami V)) × (on_responses
                  (whoami_into ops)
                  (whoami_waiting hc)
                  ((bin (sent_whoami ops hd) (said_by hd vd), false) ∷ [])
                ≡ ok p)
              × (p.done ≡ true)
              × (whoami_result none p ≡ (some (new_whoami hd), none)))
    unfolding new_whoami whoami_open
    whoami-answered cs ds hc hd vc vd a rest now k i j callb fuel s s' r r' says answers asks serves
          out back =
        let key = key_of hc.client a in
        let msg = sent_whoami ops hc in
        let answer = sent_whoami ops hd in
        let pkt = delivered (on_wire cs key msg (said_by hc vc)) in
        let e0 = hd.client.endpoint in
        let b = given_at e0 key in
        let e = sync_step remote_reply e0 (packet pkt) in
        let h1 = seen_by hd e in
        let st = given e0 key in
        let (c', round, there) =
          request-Round conn_write full reply cs ds hc.client a rest k callb fuel msg answer
            (said_by hc vc) (said_by hd vd) s r asks out in
        let w =
          sync_step-Asked remote_reply e0 pkt i (delivered-IsRequest cs key msg (said_by hc vc))
            serves.unknown serves.handler in
        let same : new_whoami h1 ≡ new_whoami hd = new_whoami-seen_by hd e w.buffersize in
        let ready : Ready ds e.transport (sent_whoami ops h1) (e.heap b) (said_by hd vd)
            (length ((e.heap b).out) - 4) =
          Ready-seen_by ds hd e b st (said_by hd vd) w.buffersize w.tagenc w.stream serves.ready in
        let out_same : length ((e.heap b).out) ≡ length st.out =
          ap (λ (x : Stream). length x.out) w.stream in
        let (h', handles, queued, knows, counts) =
          msghandler-whoami ops now ds h1 b j (bin msg (said_by hc vc)) (new_whoami hc)
            (pos (length (said_by hc vc))) (said_by hd vd) refl (whoami_decode-said_by hc vc says)
            (record {
              free = serves.free;
              room = omega (arith, serves.room);
              small = omega (arith, serves.small, w.buffersize);
              ready = ready;
            }) in
        let here =
          answer-Carries remote_write remote_full ds key _ fuel answer (said_by hd vd) s' r'
            h'.client.txch back
            (frame_fits ds _ answer _ (said_by hd vd) key _ serves.ready serves.room serves.small
              (new_opaque e0 key))
            (queued
              ∙ ap (λ (x : ℕ). hd.client.txch ++ answer_command ds x answer (said_by hd vd) ∷ [])
                  (ap (λ (x : Stream). x.opaque) w.stream ∙ new_opaque e0 key)
              ∙ ap (λ (l : List Txproto). l ++ answer_command ds key answer (said_by hd vd) ∷ [])
                  serves.quiet) in
        (
          c',
          h',
          round,
          round.opens,
          there,
          w.events,
          handles,
          knows,
          counts,
          here,
          whoami_result-said_by hc hd vd _ answers,
        )
