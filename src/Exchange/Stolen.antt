-- ===== src/Exchange/Stolen.antt =====
-- A request of transport.go whose stream the remote ends: putstream and the loop of go_syncrx.go give
-- the stream to another caller, while the first still holds it.
use gofast.Base.{
  ℕ, suc, ◌-◌, ◌≤◌, ◌≡◌, refl, ap, ◌∙◌, Bool, true, false, List, [], ◌∷◌, ◌++◌, append-nil, ==_refl,
  Option, none, some, length, arith,
}
use gofast.Calls.{returned, Client}
use gofast.Requests.Cycle.{Opening-Opened, told-Held, told-put}
use gofast.Requests.Sends.{request_bytes, request_open-Opening}
use gofast.Requests.{answered, request_open, request_close}
use gofast.Exchange.Served.{IsRequest}
use gofast.SyncRx.Aside.{told_to, told_to-append}
use gofast.SyncRx.Delivery.{new_events}
use gofast.SyncRx.Order.{Held}
use gofast.SyncRx.Ownership.{handler_cases, sync_step-Inv}
use gofast.SyncRx.Pool.{Inv}
use gofast.SyncRx.{
  Endpoint, told, packet, called, log, call_stream, putstream, handle_finish, handlepkt, handle_new,
  handled, newremotestream, sync_step,
}
use gofast.Tx.Frames.{Ready}
use gofast.Tx.Packet.{Codec}
use gofast.Types.Keys.{find-delete_same}
use gofast.Types.{BinMessage, no_message, Message, RxPacket, Stream, find_key}

-- What an end-packet leaves of a local stream that is live.
record Ended (k a : ℕ) (e e' : Endpoint) : Type 0 where
  pub pool : e'.pool ≡ e.pool ++ a ∷ []
  pub heap : e'.heap ≡ e.heap
  pub live : find_key k e'.live ≡ none

module _ (reply : ℕ → Option ℕ → BinMessage → Option ℕ) (k a : ℕ) where
  call_stream_set :
      (e : Endpoint) (b c : ℕ)
      → (e.heap b).rxcallb ≡ some c
      → call_stream e b no_message false ≡ log e (called b c no_message false)
  call_stream_set e b c set = rw (set, call_stream) refl

  handle_finish-Ended :
      (e : Endpoint) (c : ℕ)
      → (e.heap a).rxcallb ≡ some c
      → (e.heap a).remote ≡ false
      → Ended k a e (handle_finish e k (some a))
  unfolding handle_finish putstream
  handle_finish-Ended e c set local =
      rw (call_stream_set e a c set, local)
        (record { pool = refl; heap = refl; live = find-delete_same k e.live })

  -- The end-packet, through the loop.
  sync_step-Ended :
      (e : Endpoint) (last : RxPacket) (c : ℕ)
      → Held k a c e
      → (e.heap a).remote ≡ false
      → last.opaque ≡ k
      → last.finish ≡ true
      → Ended k a e (sync_step reply e (packet last))
  unfolding sync_step handlepkt
  sync_step-Ended e last c h local same ends =
      let l : find_key last.opaque e.live ≡ some a = ap (λ j. find_key j e.live) same ∙ h.live in
      let finishes : handlepkt reply e last ≡ handle_finish e k (some a) =
        rw (ends, l, handlepkt) (ap (λ j. handle_finish e j (some a)) same) in
      let w = handle_finish-Ended e c h.callb local in
      rw finishes (record { pool = w.pool; heap = w.heap; live = w.live })

  -- A response that comes when the stream is not live is taken for a request, and no callback hears
  -- it.
  response_unheard :
      (e : Endpoint) (pkt : RxPacket)
      → IsRequest pkt
      → find_key pkt.opaque e.live ≡ none
      → told_to a (sync_step reply e (packet pkt)).events ≡ told_to a e.events
  unfolding sync_step handlepkt handle_new
  response_unheard e pkt is unknown =
      let new = newremotestream e pkt.opaque in
      let before : told_to a new.0.events ≡ told_to a e.events =
        ap (told_to a) (new_events e pkt.opaque) in
      let opens : handlepkt reply e pkt ≡ handle_new reply e pkt =
        simp (is.finish, unknown, handlepkt) in
      let hears : told_to a (handle_new reply e pkt).events ≡ told_to a e.events =
        simp (is.post, is.asks, handle_new)
          (handler_cases reply
            (λ (r : Endpoint × Option ℕ). told_to a r.0.events ≡ told_to a e.events) new.0
            (some new.1) pkt.msg before
            (λ h.
              told_to-append a new.0.events (handled h (some new.1) pkt.msg ∷ [])
              ∙ append-nil (told_to a new.0.events)
              ∙ before)) in
      ap (λ (x : Endpoint). told_to a x.events) opens ∙ hears

-- What became of a stream that two callers hold: `c1` is the caller's side behind the end-packet,
-- and `c2` behind the second call.
pub record Stolen (reply : ℕ → Option ℕ → BinMessage → Option ℕ) (a k : ℕ) (c1 c2 : Client)
    (answer : RxPacket) : Type 0 where
  pub free : c1.endpoint.pool ≡ a ∷ []
  pub lost :
      let e2 = sync_step reply c2.endpoint (told a) in
      let e3 = sync_step reply (request_close (record c2 { endpoint = e2 }) a).endpoint (told a) in
      (find_key k e2.live ≡ some a)
      × (find_key k e3.live ≡ none)
      × (e3.pool ≡ a ∷ [])
      × (told_to a (sync_step reply e3 (packet answer)).events ≡ told_to a e3.events)

module _ (reply : ℕ → Option ℕ → BinMessage → Option ℕ) (k a : ℕ) where
  -- A remote can make two callers share a stream: where a request waits on a local stream, no other
  -- local stream is free, and the remote ends the stream in place of a response, the stream is put
  -- back in the pool. A second `Request`, for which a command is free, which can be sent on that
  -- stream and which `doTx` answers without an error, then waits on the same stream, and the
  -- receiver has it live. When the first call returns after that, and the receiver is told so, no
  -- stream is live under the opaque value, and the stream is back in the pool, though the second
  -- call waits on it; and the response to the second call is not told to its callback.
  pub request_close-Stolen :
      (cs : List Codec) (c : Client) (first second j : ℕ) (last answer : RxPacket) (msg : Message)
      (flush : Bool) (encoded : List ℕ)
      → Held k a first c.endpoint
      → (c.endpoint.heap a).remote ≡ false
      → (c.endpoint.heap a).opaque ≡ k
      → c.endpoint.pool ≡ []
      → last.opaque ≡ k
      → last.finish ≡ true
      → IsRequest answer
      → answer.opaque ≡ k
      → c.txcmd ≡ suc j
      → 4 ≤ length ((c.endpoint.heap a).out)
      → length ((c.endpoint.heap a).out)
        ≤ (sync_step reply c.endpoint (packet last)).transport.buffersize
      → (let e1 = sync_step reply c.endpoint (packet last) in
          Ready cs e1.transport msg
            (record (e1.heap a) { rxcallb = some second })
            encoded
            (length ((e1.heap a).out) - 4))
      → let c1 = record c { endpoint = sync_step reply c.endpoint (packet last) } in
        (c2 : Client) × (request_open c1 msg flush second
            (answered (length (request_bytes cs c1 a msg encoded)) none)
          ≡ returned (c2, a, none))
        × Stolen reply a k c1 c2 answer
  unfolding request_close
  request_close-Stolen cs c first second j last answer msg flush encoded held local named empty same
        ends is to free room small ready =
      let e1 = sync_step reply c.endpoint (packet last) in
      let c1 = record c { endpoint = e1 } in
      let w = sync_step-Ended reply k a c.endpoint last first held local same ends in
      let pooled : e1.pool ≡ a ∷ [] = w.pool ∙ ap (λ (l : List ℕ). l ++ a ∷ []) empty in
      let inv : Inv e1 = sync_step-Inv reply c.endpoint (packet last) tt held.inv in
      let bytes = request_bytes cs c1 a msg encoded in
      let same_out : length ((e1.heap a).out) ≡ length ((c.endpoint.heap a).out) =
        ap (λ (h : ℕ → Stream). length ((h a).out)) w.heap in
      let (c2, o, queued, opens) =
        request_open-Opening cs c1 a [] j msg flush second (answered (length bytes) none) encoded
          pooled free (omega arith) (omega arith) ready in
      let taken = Opening-Opened c1 c2 a [] second inv pooled o in
      let name : (c2.endpoint.heap a).opaque ≡ k =
        o.opaque ∙ ap (λ (h : ℕ → Stream). (h a).opaque) w.heap ∙ named in
      let (held2, quiet, kept, pool2) =
        told-Held reply a second c2.endpoint k taken o.callb_set name in
      let e2 = sync_step reply c2.endpoint (told a) in
      let local2 : (e2.heap a).remote ≡ false = ap (λ (s : Stream). s.remote) kept ∙ taken.local in
      let (gone, back, silent) = told-put reply a second e2 k held2 local2 in
      let e3 = sync_step reply (request_close (record c2 { endpoint = e2 }) a).endpoint (told a) in
      (
        c2,
        opens ∙ rw (==_refl (length bytes)) refl,
        record {
          free = pooled;
          lost = (
            held2.live,
            gone,
            back ∙ ap (λ (l : List ℕ). l ++ a ∷ []) (pool2 ∙ o.pool),
            response_unheard reply k a e3 answer is (ap (λ i. find_key i e3.live) to ∙ gone),
          );
        },
      )
