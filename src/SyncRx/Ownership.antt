-- ===== src/SyncRx/Ownership.antt =====
-- The steps of `syncRx` of go_syncrx.go, and who owns a stream behind each.
use gofast.Base.{
  ℕ, ◌<◌, ◌≡◌, ◌≢◌, refl, sym, ap, subst, ◌∙◌, Bool, true, false, not, Option, none, some, inl, inr,
  Bool-cases, Option-cases, All-map, arith,
}
use gofast.SyncRx.{
  Endpoint, RxItem, told, packet, handled, log, write, putstream, call_stream, handle_finish,
  handle_live, streamupdate, newremotestream, handler_of, request_callback, handle_new, handlepkt,
  sync_step,
}
use gofast.SyncRx.Pool.{
  NotIn, NotLive, Owned, Inv, All-find_key, NotLive-delete_key, Owned-delete, Owned-put,
  Owned-insert,
}
use gofast.Types.{BinMessage, no_message, RxPacket, Stream, find_key, delete_key, insert_key}
use gofast.SyncRx.Loose.{write_same, Loose, Loose-write, newremotestream-Loose}

call_stream-Inv :
    (e : Endpoint) (a : ℕ) (msg : BinMessage) (ok : Bool) (r : Option ℕ)
    → (e.heap a).rxcallb ≡ r
    → Inv e
    → Inv (call_stream e a msg ok)
call_stream-Inv e a msg ok none q o = rw (q, call_stream) o
call_stream-Inv e a msg ok (some c) q o = rw (q, call_stream) o

-- Putting back a stream that nobody holds.
putstream-Inv :
    (e : Endpoint) (a : ℕ)
    → a < e.fresh
    → ((e.heap a).remote ≡ false → NotIn a e.pool)
    → NotLive e.live a
    → Inv e
    → Inv (putstream e a)
unfolding putstream
putstream-Inv e a below out idle o = elim (Bool-cases ((e.heap a).remote)) [
  | inl r ↦ rw (r, putstream) o
  | inr l ↦
      rw (l, putstream) (Owned-put e.heap e.fresh e.rx_pool e.pool e.live a below l (out l) idle o)
]

-- A live stream is not in the pool.
live-NotIn : (e : Endpoint) (k a : ℕ) → Inv e → find_key k e.live ≡ some a → NotIn a e.pool
live-NotIn e k a o f =
    All-map (NotLive e.live) (λ b. b ≢ a) e.pool
      (λ b idle same. All-find_key (λ (p : ℕ × ℕ). p.1 ≢ b) k a e.live idle f (sym same))
      o.pool_idle

putstream-delete :
    (e : Endpoint) (k a : ℕ)
    → Inv (putstream (record e { live = delete_key k e.live }) a)
    → Inv (record (putstream e a) { live = delete_key k (putstream e a).live })
unfolding putstream
putstream-delete e k a o = elim (Bool-cases ((e.heap a).remote)) [
  | inl r ↦ rw (r, putstream) (rw (r, putstream) at o)
  | inr r ↦ rw (r, putstream) (rw (r, putstream) at o)
]

-- The stream behind an end-packet is put back and forgotten.
forget-Inv :
    (e : Endpoint) (k a : ℕ)
    → find_key k e.live ≡ some a
    → Inv e
    → Inv (record (putstream e a) { live = delete_key k (putstream e a).live })
forget-Inv e k a f o =
    let key : (e.heap a).opaque ≡ k =
      All-find_key (λ (p : ℕ × ℕ). (e.heap p.1).opaque ≡ p.0) k a e.live o.live_opaque f in
    putstream-delete e k a (
      putstream-Inv (record e { live = delete_key k e.live }) a
        (All-find_key (λ (p : ℕ × ℕ). p.1 < e.fresh) k a e.live o.live_below f)
        (λ _. live-NotIn e k a o f) (rw (← key) (NotLive-delete_key e.heap a e.live o.live_opaque))
        (Owned-delete e.heap e.fresh e.rx_pool e.pool e.live k o))

call_stream-live :
    (e : Endpoint) (a : ℕ) (msg : BinMessage) (ok : Bool) → (call_stream e a msg ok).live ≡ e.live
call_stream-live e a msg ok = ground arith

-- A local stream is not among the used remote ones.
pub local-NotIn : (e : Endpoint) (a : ℕ) → (e.heap a).remote ≡ false → Inv e → NotIn a e.rx_pool
local-NotIn e a local o =
    All-map (λ b. (e.heap b).remote ≡ true) (λ b. b ≢ a) e.rx_pool
      (λ b remote same. cc (local, ap (λ (x : ℕ). (e.heap x).remote) same)) o.rx_remote

handle_finish-Inv :
    (e : Endpoint) (k : ℕ) (r : Option ℕ)
    → find_key k e.live ≡ r
    → Inv e
    → Inv (handle_finish e k r)
unfolding handle_finish
handle_finish-Inv e k none f o = o
handle_finish-Inv e k (some a) f o =
    forget-Inv (call_stream e a no_message false) k a
      (ap (find_key k) (call_stream-live e a no_message false) ∙ f)
      (call_stream-Inv e a no_message false ((e.heap a).rxcallb) refl o)

handle_live-Inv : (e : Endpoint) (pkt : RxPacket) (a : ℕ) → Inv e → Inv (handle_live e pkt a)
unfolding handle_live
handle_live-Inv e pkt a o =
    let called = call_stream-Inv e a pkt.msg (not pkt.request) ((e.heap a).rxcallb) refl o in
    elim (Bool-cases pkt.request) [
      | inl r ↦ rw (r, handle_live) (rw r at called)
      | inr r ↦ elim (Bool-cases pkt.strmsg) [
        | inl m ↦ rw (r, m, handle_live) (rw r at called)
        | inr m ↦ rw (r, m, handle_live) (rw r at called)
      ]
    ]

streamupdate-Inv :
    (e : Endpoint) (a : ℕ)
    → Inv e
    → a < e.fresh
    → (e.heap a).remote ≡ false
    → NotIn a e.pool
    → Inv (streamupdate e a)
unfolding streamupdate
streamupdate-Inv e a o below local out = elim (Option-cases ((e.heap a).rxcallb)) [
  | inr (c, q) ↦
      rw (q, streamupdate)
        (Owned-insert e.heap e.fresh e.rx_pool e.pool e.live a below out (local-NotIn e a local o)
          o)
  | inl q ↦ elim (Option-cases (find_key ((e.heap a).opaque) e.live)) [
    | inl n ↦ rw (q, streamupdate, n) o
    | inr (b, f) ↦
        rw (q, streamupdate, f)
          (putstream-Inv (record e { live = delete_key ((e.heap a).opaque) e.live }) a below
            (λ _. out) (NotLive-delete_key e.heap a e.live o.live_opaque)
            (Owned-delete e.heap e.fresh e.rx_pool e.pool e.live ((e.heap a).opaque) o))
  ]
]

module _ (reply : ℕ → Option ℕ → BinMessage → Option ℕ) where
  pub handler_cases {ℓ} :
      (P : Endpoint × Option ℕ → Type ℓ) (e : Endpoint) (s : Option ℕ) (msg : BinMessage)
      → P (e, none)
      → ((h : ℕ) → P (log e (handled h s msg), reply h s msg))
      → P (request_callback reply e s msg)
  unfolding request_callback
  handler_cases P e s msg missing found = elim (Option-cases (handler_of reply e.transport msg)) [
    | inl n ↦ rw (n, request_callback) missing
    | inr (h, f) ↦ rw (f, request_callback) (found h)
  ]

  -- A stream that the remote starts becomes live.
  started-Inv :
      (e : Endpoint) (a : ℕ) (callb : Option ℕ)
      → Loose e a
      → let heap = write e.heap a (record (e.heap a) { rxcallb = callb }) in
        Owned heap e.fresh e.rx_pool e.pool (insert_key ((e.heap a).opaque) a e.live)
  started-Inv e a callb l =
      let s = record (e.heap a) { rxcallb = callb } in
      let w = Loose-write e a s l in
      subst
        (λ (x : Stream).
          Owned (write e.heap a s) e.fresh e.rx_pool e.pool (insert_key (x.opaque) a e.live))
        (write_same e.heap a s)
        (Owned-insert (write e.heap a s) e.fresh e.rx_pool e.pool e.live a l.below l.out l.rx_out
          w.inv)

  handle_new-Inv : (e : Endpoint) (pkt : RxPacket) → Inv e → Inv (handle_new reply e pkt)
  unfolding handle_new
  handle_new-Inv e pkt o = elim (Bool-cases pkt.post) [
    | inl p ↦ rw (p, handle_new) (handler_cases (λ r. Inv r.0) e none pkt.msg o (λ h. o))
    | inr p ↦ elim (Bool-cases pkt.request) [
      | inl r ↦
          let new = newremotestream e pkt.opaque in
          let l = newremotestream-Loose e pkt.opaque o in
          rw (p, r, handle_new)
            (handler_cases (λ r. Inv r.0) new.0 (some new.1) pkt.msg l.inv (λ h. l.inv))
      | inr r ↦ elim (Bool-cases pkt.start) [
        | inl s ↦
            let new = newremotestream e pkt.opaque in
            let l = newremotestream-Loose e pkt.opaque o in
            rw (p, r, s, handle_new)
              (handler_cases
                (λ r.
                  Owned (write (r.0.heap) new.1 (record (r.0.heap new.1) { rxcallb = r.1 }))
                    r.0.fresh r.0.rx_pool r.0.pool
                    (insert_key ((r.0.heap new.1).opaque) new.1 r.0.live))
                new.0 (some new.1) pkt.msg (started-Inv new.0 new.1 none l)
                (λ h. started-Inv new.0 new.1 (reply h (some new.1) pkt.msg) l))
        | inr s ↦ rw (p, r, s, handle_new) o
      ]
    ]
  ]

  -- However a packet is handled, where the handler itself makes no call on the transport, the
  -- streams keep one place each: no stream of the pool of local
  -- streams or of the pool of used remote streams is live or in that pool twice, the pooled
  -- streams are local in the one and remote in the other, and each live stream is under its own
  -- opaque value.
  pub handlepkt-Inv : (e : Endpoint) (pkt : RxPacket) → Inv e → Inv (handlepkt reply e pkt)
  unfolding handlepkt
  handlepkt-Inv e pkt o = elim (Bool-cases pkt.finish) [
    | inl f ↦ rw (f, handlepkt) (handle_finish-Inv e pkt.opaque _ refl o)
    | inr f ↦ elim (Option-cases (find_key pkt.opaque e.live)) [
      | inl n ↦ rw (f, n, handlepkt) (handle_new-Inv e pkt o)
      | inr (a, l) ↦ rw (f, l, handlepkt) (handle_live-Inv e pkt a o)
    ]
  ]

  -- What a round of the loop asks of its item: a stream that a caller hands over is a local one
  -- that is not in the pool.
  abbrev pub Allowed : Endpoint → RxItem → Type 0
  Allowed e (told a) = (a < e.fresh) × ((e.heap a).remote ≡ false) × NotIn a e.pool
  Allowed e (packet pkt) = Unit {0}

  pub sync_step-Inv :
      (e : Endpoint) (item : RxItem) → Allowed e item → Inv e → Inv (sync_step reply e item)
  unfolding sync_step
  sync_step-Inv e (told a) h o = streamupdate-Inv e a o h.0 h.1 h.2
  sync_step-Inv e (packet pkt) h o = handlepkt-Inv e pkt o
