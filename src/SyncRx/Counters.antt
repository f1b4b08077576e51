-- ===== src/SyncRx/Counters.antt =====
-- How received packets are counted.
use gofast.Base.{
  ℕ, ◌+◌, ◌%◌, ◌^◌, ◌≡◌, refl, ap, ◌∙◌, Bool, true, false, List, [], ◌∷◌, Option, none, some, inl,
  inr, if◌then◌else◌, Bool-cases, Option-cases, arith,
}
use gofast.SyncRx.{
  Endpoint, RxItem, told, packet, putstream, call_stream, handle_finish, handle_live, streamupdate,
  fromrxstrm, newremotestream, request_callback, handle_new, handlepkt, sync_step, sync_run,
}
use gofast.Types.{BinMessage, no_message, RxPacket, Stats, Transport, add_uint64, find_key}

-- What a packet is counted as.
pub data Class : Type 0 where
  posted requested responded started streamed finished dropped : Class

abbrev pub class_of : RxPacket → Bool → Class
class_of pkt live =
    if pkt.finish
    then (if live then finished else dropped)
    else if live
    then (if pkt.request then responded else if pkt.strmsg then streamed else dropped)
    else if pkt.post
    then posted
    else if pkt.request
    then requested
    else if pkt.start
    then started
    else dropped

abbrev pub count_class : Class → Stats → Stats
count_class posted s = record s { n_rxpost = add_uint64 s.n_rxpost 1 }
count_class requested s = record s { n_rxreq = add_uint64 s.n_rxreq 1 }
count_class responded s = record s { n_rxresp = add_uint64 s.n_rxresp 1 }
count_class started s = record s { n_rxstart = add_uint64 s.n_rxstart 1 }
count_class streamed s = record s { n_rxstream = add_uint64 s.n_rxstream 1 }
count_class finished s = record s { n_rxfin = add_uint64 s.n_rxfin 1 }
count_class dropped s = record s { n_mdrops = add_uint64 s.n_mdrops 1 }

abbrev pub is_live : Endpoint → ℕ → Bool
is_live e opaque = elim (find_key opaque e.live) [ none ↦ false | some _ ↦ true ]

abbrev Counts : Endpoint → Endpoint → Class → Type 0
Counts e e' c = e'.transport ≡ record (e.transport) { stats = count_class c e.transport.stats }

call_stream-transport :
    (e : Endpoint) (a : ℕ) (msg : BinMessage) (ok : Bool)
    → (call_stream e a msg ok).transport ≡ e.transport
call_stream-transport e a msg ok = ground arith

putstream-transport : (e : Endpoint) (a : ℕ) → (putstream e a).transport ≡ e.transport
unfolding putstream
putstream-transport e a = ground arith

module _ (reply : ℕ → Option ℕ → BinMessage → Option ℕ) where
  request_callback-transport :
      (e : Endpoint) (s : Option ℕ) (msg : BinMessage)
      → (request_callback reply e s msg).0.transport ≡ e.transport
  unfolding request_callback
  request_callback-transport e s msg = ground arith

newremotestream-transport :
    (e : Endpoint) (opaque : ℕ) → (newremotestream e opaque).0.transport ≡ e.transport
unfolding newremotestream fromrxstrm
newremotestream-transport e opaque = ground arith

handle_finish-Counts :
    (e : Endpoint) (opaque : ℕ) (r : Option ℕ)
    → Counts e (handle_finish e opaque r) (elim r [ none ↦ dropped | some _ ↦ finished ])
unfolding handle_finish
handle_finish-Counts e opaque none = refl
handle_finish-Counts e opaque (some a) =
    let same =
      putstream-transport (call_stream e a no_message false) a
      ∙ call_stream-transport e a no_message false in
    ap (λ (t : Transport). record t { stats = count_class finished t.stats }) same

after_call :
    (e : Endpoint) (c : Class) {t : Transport}
    → t ≡ e.transport
    → record t { stats = count_class c t.stats }
      ≡ record (e.transport) { stats = count_class c e.transport.stats }
after_call e c same = ap (λ (t : Transport). record t { stats = count_class c t.stats }) same

handle_live-Counts :
    (e : Endpoint) (pkt : RxPacket) (a : ℕ)
    → Counts e
        (handle_live e pkt a)
        (if pkt.request then responded else if pkt.strmsg then streamed else dropped)
unfolding handle_live
handle_live-Counts e pkt a = elim (Bool-cases pkt.request) [
  | inl r ↦ rw r (after_call e responded (call_stream-transport e a pkt.msg _))
  | inr r ↦ elim (Bool-cases pkt.strmsg) [
    | inl m ↦ rw (r, m) (after_call e streamed (call_stream-transport e a pkt.msg _))
    | inr m ↦ rw (r, m) (after_call e dropped (call_stream-transport e a pkt.msg _))
  ]
]

module _ (reply : ℕ → Option ℕ → BinMessage → Option ℕ) where
  handle_new-Counts :
      (e : Endpoint) (pkt : RxPacket)
      → Counts e (handle_new reply e pkt) (
          if pkt.post
          then posted
          else if pkt.request
          then requested
          else if pkt.start
          then started
          else dropped)
  unfolding handle_new
  handle_new-Counts e pkt = elim (Bool-cases pkt.post) [
    | inl p ↦ rw p (ground arith)
    | inr p ↦ elim (Bool-cases pkt.request) [
      | inl r ↦ rw (p, r) (ground arith)
      | inr r ↦ elim (Bool-cases pkt.start) [
        | inl s ↦ rw (p, r, s) (ground arith)
        | inr s ↦ rw (p, r, s)
      ]
    ]
  ]

  -- A packet is counted in exactly one counter, which its flags and whether its stream is live
  -- decide, and nothing else of the transport changes, where the handler makes no call on it.
  pub handlepkt-Counts :
      (e : Endpoint) (pkt : RxPacket)
      → (handlepkt reply e pkt).transport ≡ record (e.transport) {
        stats = count_class (class_of pkt (is_live e pkt.opaque)) e.transport.stats;
      }
  unfolding handlepkt
  handlepkt-Counts e pkt = elim (Bool-cases pkt.finish) [
    | inl f ↦ elim (Option-cases (find_key pkt.opaque e.live)) [
      | inl n ↦ rw (f, n, is_live) (handle_finish-Counts e pkt.opaque none)
      | inr (a, l) ↦ rw (f, l, is_live) (handle_finish-Counts e pkt.opaque (some a))
    ]
    | inr f ↦ elim (Option-cases (find_key pkt.opaque e.live)) [
      | inl n ↦ rw (f, n, handlepkt, is_live) (handle_new-Counts e pkt)
      | inr (a, l) ↦ rw (f, l, handlepkt, is_live) (handle_live-Counts e pkt a)
    ]
  ]

-- The packets that were told apart.
abbrev pub classified : Stats → ℕ
classified s =
    s.n_rxpost + s.n_rxreq + s.n_rxresp + s.n_rxstart + s.n_rxstream + s.n_rxfin + s.n_mdrops

classified-count_class :
    (c : Class) (s : Stats) → classified (count_class c s) % 2 ^ 64 ≡ (classified s + 1) % 2 ^ 64
classified-count_class posted s = omega arith
classified-count_class requested s = omega arith
classified-count_class responded s = omega arith
classified-count_class started s = omega arith
classified-count_class streamed s = omega arith
classified-count_class finished s = omega arith
classified-count_class dropped s = omega arith

n_rx-count_class : (c : Class) (s : Stats) → (count_class c s).n_rx ≡ s.n_rx
n_rx-count_class c s = ground arith

streamupdate-transport : (e : Endpoint) (a : ℕ) → (streamupdate e a).transport ≡ e.transport
unfolding streamupdate putstream
streamupdate-transport e a = ground arith

module _ (reply : ℕ → Option ℕ → BinMessage → Option ℕ) where
  sync_step-balance :
      (e : Endpoint) (item : RxItem)
      → let s = e.transport.stats in
        let s' = (sync_step reply e item).transport.stats in
        (classified s' + s.n_rx) % 2 ^ 64 ≡ (classified s + s'.n_rx) % 2 ^ 64
  unfolding sync_step
  sync_step-balance e (told a) = rw (streamupdate-transport e a)
  sync_step-balance e (packet pkt) = rw (handlepkt-Counts reply e pkt) (
      omega (
        arith,
        classified-count_class (class_of pkt (is_live e pkt.opaque)) e.transport.stats,
        n_rx-count_class (class_of pkt (is_live e pkt.opaque)) e.transport.stats,
      ))

  -- Whatever comes out of `t.rxch`, the counters of the seven classes grow together by what the
  -- counter of received packets grows, modulo 2^64: no packet is counted twice or not at all.
  pub sync_run-balance :
      (e : Endpoint) (items : List RxItem)
      → let s = e.transport.stats in
        let s' = (sync_run reply e items).transport.stats in
        (classified s' + s.n_rx) % 2 ^ 64 ≡ (classified s + s'.n_rx) % 2 ^ 64
  unfolding sync_run
  sync_run-balance e [] = refl
  sync_run-balance e (item ∷ items) =
      omega (arith, sync_step-balance e item, sync_run-balance (sync_step reply e item) items)
