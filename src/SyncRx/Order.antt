-- ===== src/SyncRx/Order.antt =====
-- What a stream's callback is told over a run of the loop of `syncRx` in go_syncrx.go.
use gofast.Base.{
  ℕ, ◌≡◌, refl, sym, ap, ◌∙◌, Bool, true, false, not, List, [], ◌∷◌, ◌++◌, append_assoc, append-nil,
  Option, none, some, ◌==◌, ==_refl, ==_iff, ==→ne, inl, inr, if◌then◌else◌, Bool-cases, All, map,
}
use gofast.SyncRx.Aside.{told_to, told_to-append, putstream-Aside}
use gofast.SyncRx.Delivery.{handlepkt-Aside}
use gofast.SyncRx.Ownership.{handlepkt-Inv}
use gofast.SyncRx.Pool.{Inv}
use gofast.SyncRx.{
  Endpoint, RxItem, called, packet, putstream, handle_finish, call_stream, handle_live, handlepkt,
  sync_step, sync_run,
}
use gofast.Types.Keys.{find-delete_same}
use gofast.Types.{BinMessage, no_message, RxPacket, Stream, Transport, find_key}

-- What the packets under an opaque value say.
abbrev pub stream_msgs : ℕ → List RxPacket → List (BinMessage × Bool)
stream_msgs k [] = []
stream_msgs k (pkt ∷ pkts) =
    let rest = stream_msgs k pkts in
    if pkt.opaque == k then (pkt.msg, not pkt.request) ∷ rest else rest

msgs-cons :
    (k : ℕ) (pkt : RxPacket) (pkts : List RxPacket)
    → stream_msgs k (pkt ∷ []) ++ stream_msgs k pkts ≡ stream_msgs k (pkt ∷ pkts)
msgs-cons k pkt pkts = elim (Bool-cases (pkt.opaque == k)) [ inl t ↦ rw t refl | inr f ↦ rw f refl ]

module _ (k a c : ℕ) where
  -- The stream at an address is live under its key, and its callback is set.
  pub record Held (e : Endpoint) : Type 0 where
    pub inv : Inv e
    pub live : find_key k e.live ≡ some a
    pub callb : (e.heap a).rxcallb ≡ some c

  -- What a packet of the stream itself does: the callback hears it, and all else stays.
  record Heard (e e' : Endpoint) (msg : BinMessage) (good : Bool) : Type 0 where
    pub live : e'.live ≡ e.live
    pub stream : e'.heap a ≡ e.heap a
    pub told : told_to a e'.events ≡ told_to a e.events ++ (msg, good) ∷ []

  call_stream-Heard :
      (e : Endpoint) (msg : BinMessage) (good : Bool)
      → (e.heap a).rxcallb ≡ some c
      → Heard e (call_stream e a msg good) msg good
  call_stream-Heard e msg good s =
      rw (s, call_stream)
        (record {
          live = refl;
          stream = refl;
          told = told_to-append a e.events (called a c msg good ∷ []) ∙ rw (==_refl a) refl;
        })

  handle_live-Heard :
      (e : Endpoint) (pkt : RxPacket)
      → (e.heap a).rxcallb ≡ some c
      → Heard e (handle_live e pkt a) pkt.msg (not pkt.request)
  unfolding handle_live
  handle_live-Heard e pkt s =
      let h = call_stream-Heard e pkt.msg (not pkt.request) s in
      elim (Bool-cases pkt.request) [
        | inl r ↦ rw (r, handle_live) (stats_only (rw r at h))
        | inr r ↦ elim (Bool-cases pkt.strmsg) [
          | inl m ↦ rw (r, m, handle_live) (stats_only (rw r at h))
          | inr m ↦ rw (r, m, handle_live) (stats_only (rw r at h))
        ]
      ]
    where
      stats_only :
          {e e' : Endpoint} {t : Transport} {msg : BinMessage} {good : Bool}
          → Heard e e' msg good
          → Heard e (record e' { transport = t }) msg good
      stats_only p = record { live = p.live; stream = p.stream; told = p.told }

  -- An end-packet tells the stream that nothing more comes, and it is live no more.
  handle_finish-ends :
      (e : Endpoint)
      → (e.heap a).rxcallb ≡ some c
      → let e' = handle_finish e k (some a) in
        (find_key k e'.live ≡ none)
        × (told_to a e'.events ≡ told_to a e.events ++ (no_message, false) ∷ [])
  unfolding handle_finish
  handle_finish-ends e s =
      let e' = call_stream e a no_message false in
      (
        find-delete_same k (putstream e' a).live,
        (putstream-Aside k a e' a).told ∙ (call_stream-Heard e no_message false s).told,
      )

  module _ (reply : ℕ → Option ℕ → BinMessage → Option ℕ) where
    own_packet :
        (e : Endpoint) (pkt : RxPacket)
        → Held e
        → pkt.opaque ≡ k
        → pkt.finish ≡ false
        → Heard e (handlepkt reply e pkt) pkt.msg (not pkt.request)
    unfolding handlepkt
    own_packet e pkt h same more =
        let l : find_key pkt.opaque e.live ≡ some a = ap (λ j. find_key j e.live) same ∙ h.live in
        rw (more, l, handlepkt) (handle_live-Heard e pkt h.callb)

    -- One round of the loop, on a packet that does not end the stream.
    round :
        (e : Endpoint) (pkt : RxPacket)
        → Held e
        → (pkt.opaque ≡ k → pkt.finish ≡ false)
        → Held (sync_step reply e (packet pkt))
          × (told_to a (sync_step reply e (packet pkt)).events
              ≡ told_to a e.events ++ stream_msgs k (pkt ∷ []))
          × ((sync_step reply e (packet pkt)).heap a ≡ e.heap a)
    unfolding sync_step
    round e pkt h more = elim (Bool-cases (pkt.opaque == k)) [
      | inl t ↦
          let same = (==_iff pkt.opaque k).0 t in
          let p = own_packet e pkt h same (more same) in
          (
            record {
              inv = handlepkt-Inv reply e pkt h.inv;
              live = ap (find_key k) p.live ∙ h.live;
              callb = ap (λ (s : Stream). s.rxcallb) p.stream ∙ h.callb;
            },
            rw t p.told,
            p.stream,
          )
      | inr f ↦
          let p = handlepkt-Aside reply k a e pkt h.inv h.live (==→ne pkt.opaque k f) in
          (
            record {
              inv = handlepkt-Inv reply e pkt h.inv;
              live = p.live ∙ h.live;
              callb = ap (λ (s : Stream). s.rxcallb) p.stream ∙ h.callb;
            },
            rw f (p.told ∙ sym (append-nil (told_to a e.events))),
            p.stream,
          )
    ]

    -- The loop keeps the order of a stream: while the stream is live with its callback set, over
    -- any packets of which those under its opaque value are not end-packets, its callback is told
    -- what those say, one after the other, in the order in which they came, and nothing else, and
    -- the stream is still live and is as it was.
    pub sync_run-told_to :
        (e : Endpoint) (pkts : List RxPacket)
        → Held e
        → All (λ (p : RxPacket). p.opaque ≡ k → p.finish ≡ false) pkts
        → let e' = sync_run reply e (map packet pkts) in
          Held e'
          × (told_to a e'.events ≡ told_to a e.events ++ stream_msgs k pkts)
          × (e'.heap a ≡ e.heap a)
    unfolding sync_run
    sync_run-told_to e [] h more = (h, sym (append-nil (told_to a e.events)), refl)
    sync_run-told_to e (pkt ∷ pkts) h more =
        let r = round e pkt h more.0 in
        let rest = sync_run-told_to (sync_step reply e (packet pkt)) pkts r.0 more.1 in
        (
          rest.0,
          rest.1
              ∙ ap (λ (l : List (BinMessage × Bool)). l ++ stream_msgs k pkts) r.1
              ∙ append_assoc (told_to a e.events) (stream_msgs k (pkt ∷ [])) (stream_msgs k pkts)
              ∙ ap (λ (l : List (BinMessage × Bool)). told_to a e.events ++ l)
                  (msgs-cons k pkt pkts),
          rest.2 ∙ r.2,
        )

    sync_run-append :
        (e : Endpoint) (xs ys : List RxItem)
        → sync_run reply e (xs ++ ys) ≡ sync_run reply (sync_run reply e xs) ys
    unfolding sync_run
    sync_run-append e [] ys = refl
    sync_run-append e (x ∷ xs) ys = sync_run-append (sync_step reply e x) xs ys

    end_packet :
        (e : Endpoint) (last : RxPacket)
        → Held e
        → last.opaque ≡ k
        → last.finish ≡ true
        → let e' = handlepkt reply e last in
          (find_key k e'.live ≡ none)
          × (told_to a e'.events ≡ told_to a e.events ++ (no_message, false) ∷ [])
    unfolding handlepkt
    end_packet e last h same ends =
        let l : find_key last.opaque e.live ≡ some a = ap (λ j. find_key j e.live) same ∙ h.live in
        rw (ends, l, handlepkt, same) (handle_finish-ends e h.callb)

    -- An end-packet closes the stream: while the stream is live with its callback set, over any
    -- packets of which those under its opaque value are not end-packets, followed by an end-packet
    -- under that value, its callback is told what the packets say, in the order in which they
    -- came, then that nothing more comes, and nothing else, and no stream is live under the value.
    pub sync_run-closes :
        (e : Endpoint) (pkts : List RxPacket) (last : RxPacket)
        → Held e
        → All (λ (p : RxPacket). p.opaque ≡ k → p.finish ≡ false) pkts
        → last.opaque ≡ k
        → last.finish ≡ true
        → let e' = sync_run reply e (map packet pkts ++ packet last ∷ []) in
          (find_key k e'.live ≡ none)
          × (told_to a e'.events
              ≡ told_to a e.events ++ stream_msgs k pkts ++ (no_message, false) ∷ [])
    unfolding sync_run sync_step
    sync_run-closes e pkts last h more same ends =
        let e' = sync_run reply e (map packet pkts) in
        let r = sync_run-told_to e pkts h more in
        let f = end_packet e' last r.0 same ends in
        rw (sync_run-append e (map packet pkts) (packet last ∷ []))
          (f.0, f.1 ∙ ap (λ (l : List (BinMessage × Bool)). l ++ (no_message, false) ∷ []) r.1)
