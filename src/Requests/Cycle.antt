-- ===== src/Requests/Cycle.antt =====
-- A request of transport.go from its call to its return, with what syncRx of go_syncrx.go does of it.
use gofast.Base.{
  ℕ, suc, ◌-◌, ◌≤◌, ◌<◌, ◌≡◌, ==_refl, refl, subst, ap, ◌∙◌, Bool, false, List, [], ◌∷◌, ◌++◌,
  Option, none, some, length, map, All,
}
use gofast.Calls.{returned, Client}
use gofast.Requests.Sends.{Opening, sync_command, request_bytes, request_open-Opening}
use gofast.Requests.{answered, request_open, request_close}
use gofast.SyncRx.Aside.{told_to}
use gofast.SyncRx.Order.{Held, stream_msgs, sync_run-told_to}
use gofast.SyncRx.Loose.{write_same}
use gofast.SyncRx.Ownership.{local-NotIn, sync_step-Inv}
use gofast.SyncRx.Pool.{NotIn, Owned, Inv, Owned-write, All-find_key}
use gofast.SyncRx.{
  Endpoint, Event, told, packet, write, putstream, streamupdate, sync_step, sync_run,
}
use gofast.Tx.Frames.{Ready}
use gofast.Tx.Packet.{Codec}
use gofast.Types.Keys.{find-insert_same, find-delete_same}
use gofast.Types.{BinMessage, Message, RxPacket, Stream, find_key, insert_key, delete_key}

-- The stream of an open request is a local one that is in neither pool.
pub record Opened (e : Endpoint) (a : ℕ) : Type 0 where
  pub inv : Inv e
  pub below : a < e.fresh
  pub local : (e.heap a).remote ≡ false
  pub out : NotIn a e.pool

pub Opening-Opened :
    (c c' : Client) (a : ℕ) (rest : List ℕ) (callb : ℕ)
    → Inv c.endpoint
    → c.endpoint.pool ≡ a ∷ rest
    → Opening c a rest callb c'
    → Opened c'.endpoint a
Opening-Opened c c' a rest callb o pooled w =
    let e = c.endpoint in
    let o' : Owned e.heap e.fresh e.rx_pool (a ∷ rest) e.live =
      subst (λ (x : List ℕ). Owned e.heap e.fresh e.rx_pool x e.live) pooled o in
    let o1 : Owned e.heap e.fresh e.rx_pool rest e.live = record {
      live_opaque = o.live_opaque;
      live_below = o.live_below;
      pool_local = o'.pool_local.1;
      pool_below = o'.pool_below.1;
      pool_once = o'.pool_once.1;
      pool_idle = o'.pool_idle.1;
      rx_remote = o.rx_remote;
      rx_below = o.rx_below;
      rx_once = o.rx_once;
      rx_idle = o.rx_idle;
    } in
    let local = o'.pool_local.0 in
    record {
      inv =
          rw (w.fresh, w.rx_pool, w.pool, w.live)
            (Owned-write e.heap e.fresh e.rx_pool rest e.live c'.endpoint.heap a w.others
              o'.pool_once.0 (local-NotIn e a local o) o'.pool_idle.0 o1);
      below = rw w.fresh (o'.pool_below.0);
      local = w.remote ∙ local;
      out = rw w.pool (o'.pool_once.0);
    }

pub streamupdate_started :
    (e : Endpoint) (a callb : ℕ)
    → (e.heap a).rxcallb ≡ some callb
    → streamupdate e a ≡ record e { live = insert_key ((e.heap a).opaque) a e.live }
unfolding streamupdate
streamupdate_started e a callb set = simp (set, streamupdate)

streamupdate_stopped :
    (e : Endpoint) (a b : ℕ)
    → (e.heap a).rxcallb ≡ none
    → find_key ((e.heap a).opaque) e.live ≡ some b
    → (e.heap a).remote ≡ false
    → streamupdate e a
      ≡ record e { live = delete_key ((e.heap a).opaque) e.live; pool = e.pool ++ a ∷ [] }
unfolding streamupdate putstream
streamupdate_stopped e a b unset found local = simp (unset, found, streamupdate, local, putstream)

module _ (reply : ℕ → Option ℕ → BinMessage → Option ℕ) (a callb : ℕ) where
  -- The receiver makes it live.
  pub told-Held :
      (e : Endpoint) (k : ℕ)
      → Opened e a
      → (e.heap a).rxcallb ≡ some callb
      → (e.heap a).opaque ≡ k
      → let e' = sync_step reply e (told a) in
        Held k a callb e' × (e'.events ≡ e.events) × (e'.heap a ≡ e.heap a) × (e'.pool ≡ e.pool)
  unfolding sync_step streamupdate
  told-Held e k s set named =
      let inv = sync_step-Inv reply e (told a) (s.below, s.local, s.out) s.inv in
      let eq = streamupdate_started e a callb set in
      rw eq (
        record {
          inv = subst Inv eq inv;
          live = ap (λ j. find_key k (insert_key j a e.live)) named ∙ find-insert_same k a e.live;
          callb = set;
        },
        refl,
        refl,
        refl,
      )

  -- Without its callback it is put back, and is live no more.
  pub told-put :
      (e : Endpoint) (k : ℕ)
      → Held k a callb e
      → (e.heap a).remote ≡ false
      → let e' =
          sync_step reply
            (record e { heap = write e.heap a (record (e.heap a) { rxcallb = none }) })
            (told a) in
        (find_key k e'.live ≡ none) × (e'.pool ≡ e.pool ++ a ∷ []) × (e'.events ≡ e.events)
  unfolding sync_step streamupdate putstream
  told-put e k h local =
      let bare = record (e.heap a) { rxcallb = none } in
      let e1 = record e { heap = write e.heap a bare } in
      let same : e1.heap a ≡ bare = write_same e.heap a bare in
      let key : (e1.heap a).opaque ≡ k =
        ap (λ (x : Stream). x.opaque) same
        ∙ All-find_key (λ (p : ℕ × ℕ). (e.heap p.1).opaque ≡ p.0) k a e.live h.inv.live_opaque
            h.live in
      let eq =
        streamupdate_stopped e1 a a (ap (λ (x : Stream). x.rxcallb) same)
          (ap (λ j. find_key j e.live) key ∙ h.live) (ap (λ (x : Stream). x.remote) same ∙ local) in
      rw eq (ap (λ j. find_key k (delete_key j e.live)) key ∙ find-delete_same k e.live, refl, refl)

  -- A request goes round: where a local stream and a command are free, the request can be sent on
  -- that stream, and `doTx` answers that all of its frame is written, the call waits without an
  -- error, with the frame handed to `doTx` and the receiver told of the stream. Over any packets
  -- that come then, of which those under the stream's opaque value are not end-packets, its
  -- callback is told what those say, in the order in which they came, and nothing else. Once the
  -- call returns and the receiver is told so, no stream is live under the value, and the stream is
  -- at the end of the pool.
  pub request-cycle :
      (cs : List Codec) (c : Client) (rest : List ℕ) (k : ℕ) (msg : Message) (flush : Bool)
      (encoded : List ℕ) (pkts : List RxPacket)
      → Inv c.endpoint
      → c.endpoint.pool ≡ a ∷ rest
      → c.txcmd ≡ suc k
      → 4 ≤ length ((c.endpoint.heap a).out)
      → length ((c.endpoint.heap a).out) ≤ c.endpoint.transport.buffersize
      → Ready cs c.endpoint.transport msg
          (record (c.endpoint.heap a) { rxcallb = some callb })
          encoded
          (length ((c.endpoint.heap a).out) - 4)
      → All (λ (p : RxPacket). p.opaque ≡ (c.endpoint.heap a).opaque → p.finish ≡ false) pkts
      → let bytes = request_bytes cs c a msg encoded in
        (c' : Client) × (request_open c msg flush callb (answered (length bytes) none)
          ≡ returned (c', a, none))
        × (c'.rxch ≡ c.rxch ++ told a ∷ [])
        × (c'.txch ≡ c.txch ++ sync_command bytes flush ∷ [])
        × (let key = (c.endpoint.heap a).opaque in
            let e = sync_run reply c'.endpoint (told a ∷ map packet pkts) in
            let e' =
              sync_step reply (request_close (record c' { endpoint = e }) a).endpoint (told a) in
            (told_to a e'.events ≡ told_to a c.endpoint.events ++ stream_msgs key pkts)
            × (find_key key e'.live ≡ none)
            × (e'.pool ≡ e.pool ++ a ∷ []))
  unfolding sync_run request_close
  request-cycle cs c rest k msg flush encoded pkts o pooled free room small ready go_on =
      let key = (c.endpoint.heap a).opaque in
      let bytes = request_bytes cs c a msg encoded in
      let end = answered (length bytes) none in
      let (c', w, queued, opens) =
        request_open-Opening cs c a rest k msg flush callb end encoded pooled free room small
          ready in
      let ready_stream = Opening-Opened c c' a rest callb o pooled w in
      let (held, quiet, same, pool_same) =
        told-Held c'.endpoint key ready_stream w.callb_set w.opaque in
      let e1 = sync_step reply c'.endpoint (told a) in
      let (held', said, kept) = sync_run-told_to key a callb reply e1 pkts held go_on in
      let e2 = sync_run reply e1 (map packet pkts) in
      let local : (e2.heap a).remote ≡ false =
        ap (λ (x : Stream). x.remote) (kept ∙ same) ∙ ready_stream.local in
      let (gone, back, silent) = told-put e2 key held' local in
      (
        c',
        opens ∙ rw (==_refl (length bytes)) refl,
        w.rxch,
        queued,
        (
          ap (told_to a) silent
              ∙ said
              ∙ ap (λ (evs : List Event). told_to a evs ++ stream_msgs key pkts) (quiet ∙ w.events),
          gone,
          back,
        ),
      )
