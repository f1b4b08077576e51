-- ===== src/SyncRx.antt =====
-- go_syncrx.go with the parts of stream.go and transport.go that it calls: the receiver's side of
-- streams. Streams are shared by pointer, so they stand in a heap, and a pointer is its address.
-- One packet or one stream at a time comes out of `t.rxch`.
pub mod Counters
pub mod Pool
pub mod Loose
pub mod Ownership
pub mod Aside
pub mod Delivery
pub mod Order
use gofast.Base.{
  ℕ, ◌+◌, Bool, true, false, not, List, [], ◌∷◌, ◌++◌, Option, none, some, ◌==◌, if◌then◌else◌,
  length, replicate,
}
use gofast.Types.{
  BinMessage, no_message, RxPacket, Stats, Stream, Transport, add_uint64, find_key, delete_key,
  insert_key,
}

-- What user code is called with: a stream's callback, on the stream at an address, and a handler,
-- whose stream is nil for a post.
pub data Event : Type 0 where
  called : ℕ → ℕ → BinMessage → Bool → Event
  handled : ℕ → Option ℕ → BinMessage → Event

-- What comes out of `t.rxch`.
pub data RxItem : Type 0 where
  told : ℕ → RxItem
  packet : RxPacket → RxItem

-- The state that `syncRx` works on. `fresh` is the first address never used, `rx_pool` is
-- `t.pRxstrm`, `pool` is `t.pStrms` and `live` is `livestreams`.
pub record Endpoint : Type 0 where
  pub transport : Transport
  pub heap : ℕ → Stream
  pub fresh : ℕ
  pub rx_pool : List ℕ
  pub pool : List ℕ
  pub live : List (ℕ × ℕ)
  pub events : List Event

abbrev pub write : (ℕ → Stream) → ℕ → Stream → ℕ → Stream
write heap a s b = if a == b then s else heap b

abbrev pub log : Endpoint → Event → Endpoint
log e ev = record e { events = e.events ++ ev ∷ [] }

abbrev pub with_stats : Endpoint → Stats → Endpoint
with_stats e stats = record e { transport = record (e.transport) { stats = stats } }

-- `make` where the pooled object has no buffer yet.
abbrev pub buffer : ℕ → List ℕ → List ℕ
buffer size [] = replicate size 0
buffer size (b ∷ bs) = b ∷ bs

-- `t.pRxstrm.Get()`: a pooled object, or a new one.
abbrev pub get_rxstrm : Endpoint → Endpoint × ℕ
get_rxstrm e = elim e.rx_pool [
  | [] ↦ (record e { fresh = e.fresh + 1 }, e.fresh)
  | a ∷ rest ↦ (record e { rx_pool = rest }, a)
]

unfoldable pub fromrxstrm : Endpoint → Endpoint × ℕ
fromrxstrm e =
    let (e', a) = get_rxstrm e in
    let s = e'.heap a in
    let size = e.transport.buffersize in
    let s' = record s {
      rxcallb = none;
      opaque = 0;
      remote = false;
      out = buffer size s.out;
      data_buf = buffer size s.data_buf;
      tagout = buffer size s.tagout;
    } in
    (record e' { heap = write e'.heap a s' }, a)

unfoldable pub newremotestream : Endpoint → ℕ → Endpoint × ℕ
unfolding fromrxstrm
newremotestream e opaque =
    let (e', a) = fromrxstrm e in
    let s = record (e'.heap a) { remote = true; opaque = opaque; rxcallb = none } in
    (record e' { heap = write e'.heap a s }, a)

-- `t.pStrms <- stream`, for a local stream.
unfoldable pub putstream : Endpoint → ℕ → Endpoint
putstream e a = if (e.heap a).remote then e else record e { pool = e.pool ++ a ∷ [] }

-- `stream.rxcallb(msg, ok)` where it is not nil.
abbrev pub call_stream : Endpoint → ℕ → BinMessage → Bool → Endpoint
call_stream e a msg ok = elim ((e.heap a).rxcallb) [ none ↦ e | some c ↦ log e (called a c msg ok) ]

-- An end-packet: the stream is told, put back and forgotten.
unfoldable pub handle_finish : Endpoint → ℕ → Option ℕ → Endpoint
handle_finish e opaque none =
    let t = e.transport in with_stats e (record (t.stats) { n_mdrops = add_uint64 t.n_mdrops 1 })
handle_finish e opaque (some a) =
    let e' = putstream (call_stream e a no_message false) a in
    let t = e'.transport in
    with_stats (record e' { live = delete_key opaque e'.live })
      (record (t.stats) { n_rxfin = add_uint64 t.n_rxfin 1 })

-- A packet for a live stream: a response, or a message of the stream.
unfoldable pub handle_live : Endpoint → RxPacket → ℕ → Endpoint
handle_live e pkt a =
    let e' = call_stream e a pkt.msg (not pkt.request) in
    let t = e'.transport in
    if pkt.request
    then with_stats e' (record (t.stats) { n_rxresp = add_uint64 t.n_rxresp 1 })
    else if pkt.strmsg
    then with_stats e' (record (t.stats) { n_rxstream = add_uint64 t.n_rxstream 1 })
    else with_stats e' (record (t.stats) { n_mdrops = add_uint64 t.n_mdrops 1 })

-- A stream that a caller hands over, when it is opened and when its user is done with it.
unfoldable pub streamupdate : Endpoint → ℕ → Endpoint
streamupdate e a = elim ((e.heap a).rxcallb) [
  | some c ↦ record e { live = insert_key ((e.heap a).opaque) a e.live }
  | none ↦ elim (find_key ((e.heap a).opaque) e.live) [
    | none ↦ e
    | some _ ↦ putstream (record e { live = delete_key ((e.heap a).opaque) e.live }) a
  ]
]

-- At the end every live stream is told that nothing more comes, where none of the callbacks panics.
unfoldable pub tell_all : Endpoint → List (ℕ × ℕ) → Endpoint
tell_all e [] = e
tell_all e ((opaque, a) ∷ rest) = tell_all (call_stream e a no_message false) rest

-- What is left in `t.rxch` is taken out, and a stream that was to be opened is told so too.
unfoldable pub flushrxch : Endpoint → List RxItem → Endpoint
flushrxch e [] = e
flushrxch e (told a ∷ items) = flushrxch (call_stream e a no_message false) items
flushrxch e (packet pkt ∷ items) = flushrxch e items

-- The callback that a handler returns is the environment's choice.
module _ (reply : ℕ → Option ℕ → BinMessage → Option ℕ) where
  -- The handler of the message's id, or else the default handler.
  unfoldable pub handler_of : Transport → BinMessage → Option ℕ
  handler_of t msg = elim (find_key msg.id t.handlers) [
    | none ↦ t.defaulth
    | some h ↦ elim h [ none ↦ t.defaulth | some fn ↦ some fn ]
  ]

  -- The handler is called, and its callback comes back. What it does to the transport itself, by
  -- calls of its own, is not part of this: Handler/Dispatch has that.
  unfoldable pub request_callback : Endpoint → Option ℕ → BinMessage → Endpoint × Option ℕ
  request_callback e stream msg = elim (handler_of e.transport msg) [
    | none ↦ (e, none)
    | some h ↦ (log e (handled h stream msg), reply h stream msg)
  ]

  -- A packet for no live stream: a post, a request, a stream's start, or one too late.
  unfoldable pub handle_new : Endpoint → RxPacket → Endpoint
  unfolding request_callback handler_of newremotestream
  handle_new e pkt =
      let t = e.transport in
      if pkt.post
      then (let (e', _) = request_callback e none pkt.msg in
          with_stats e' (record (t.stats) { n_rxpost = add_uint64 t.n_rxpost 1 }))
      else if pkt.request
      then (let (e1, a) = newremotestream e pkt.opaque in
          let (e2, _) = request_callback e1 (some a) pkt.msg in
          with_stats e2 (record (t.stats) { n_rxreq = add_uint64 t.n_rxreq 1 }))
      else if pkt.start
      then (let (e1, a) = newremotestream e pkt.opaque in
          let (e2, callb) = request_callback e1 (some a) pkt.msg in
          let heap = write e2.heap a (record (e2.heap a) { rxcallb = callb }) in
          let live = insert_key ((e2.heap a).opaque) a e2.live in
          with_stats (record e2 { heap = heap; live = live })
            (record (t.stats) { n_rxstart = add_uint64 t.n_rxstart 1 }))
      else with_stats e (record (t.stats) { n_mdrops = add_uint64 t.n_mdrops 1 })

  unfoldable pub handlepkt : Endpoint → RxPacket → Endpoint
  handlepkt e pkt =
      if pkt.finish
      then handle_finish e pkt.opaque (find_key pkt.opaque e.live)
      else elim (find_key pkt.opaque e.live) [
        | none ↦ handle_new e pkt
        | some a ↦ handle_live e pkt a
      ]

  -- One round of the loop of `syncRx`, on what came out of `t.rxch`.
  unfoldable pub sync_step : Endpoint → RxItem → Endpoint
  sync_step e (told a) = streamupdate e a
  sync_step e (packet pkt) =
      let e' = handlepkt e pkt in
      let t = e'.transport in with_stats e' (record (t.stats) { n_rx = add_uint64 t.n_rx 1 })

  unfoldable pub sync_run : Endpoint → List RxItem → Endpoint
  sync_run e [] = e
  sync_run e (item ∷ items) = sync_run (sync_step e item) items

  -- `syncRx` up to the closing of `t.killch`: `items` are received before it, `left` are not.
  unfoldable pub sync_rx : Endpoint → List RxItem → List RxItem → Endpoint
  sync_rx e items left = let e' = sync_run e items in flushrxch (tell_all e' e'.live) left
