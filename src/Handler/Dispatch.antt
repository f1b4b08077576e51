-- ===== src/Handler/Dispatch.antt =====
-- What syncRx of go_syncrx.go does with a packet for no live stream, with all that the handler does
-- to the transport: requestCallback of transport.go on msghandler of msg.go, or on a user's handler.
use gofast.Base.{ℕ, Bool, Option, none, some, ◌==◌, if◌then◌else◌}
use gofast.Calls.{Call, returned, call_then}
use gofast.Handler.{msghandler}
use gofast.Messages.{VersionOps}
use gofast.Setup.{Host, transport_of, with_transport}
use gofast.SyncRx.{Endpoint, write, newremotestream, handler_of}
use gofast.Types.{BinMessage, RxPacket, Stats, add_uint64, insert_key}

abbrev pub with_endpoint : {V : Type 0} → Host V → Endpoint → Host V
with_endpoint h e = record h { client = record (h.client) { endpoint = e } }

abbrev pub with_counters : {V : Type 0} → Host V → Stats → Host V
with_counters h stats = with_transport h (record (transport_of h) { stats = stats })

-- `own` stands for `t.msghandler`, and any other handler is the user's, who may use the transport.
module _ {V : Type 0} (ops : VersionOps V) (own : ℕ)
    (user : ℕ → Host V → Option ℕ → BinMessage → Call (Host V × Option ℕ)) where
  -- `t.requestCallback(stream, msg)` at the time `now`.
  unfoldable pub serve : ℕ → Host V → Option ℕ → BinMessage → Bool → Call (Host V × Option ℕ)
  serve now h stream msg killed = elim (handler_of (λ f a m. none) (transport_of h) msg) [
    | none ↦ returned (h, none)
    | some f ↦
        if f == own
        then call_then (msghandler ops now h stream msg killed) (λ h'. returned (h', none))
        else user f h stream msg
  ]

  unfoldable pub serve_new : ℕ → Host V → RxPacket → Bool → Call (Host V)
  unfolding serve newremotestream
  serve_new now h pkt killed =
      if pkt.post
      then call_then (serve now h none pkt.msg killed) (λ (h', callb).
        let s = (transport_of h').stats in
        returned (with_counters h' (record s { n_rxpost = add_uint64 s.n_rxpost 1 })))
      else if pkt.request
      then (let (e, a) = newremotestream h.client.endpoint pkt.opaque in
          call_then (serve now (with_endpoint h e) (some a) pkt.msg killed) (λ (h', callb).
            let s = (transport_of h').stats in
            returned (with_counters h' (record s { n_rxreq = add_uint64 s.n_rxreq 1 }))))
      else if pkt.start
      then (let (e, a) = newremotestream h.client.endpoint pkt.opaque in
          call_then (serve now (with_endpoint h e) (some a) pkt.msg killed) (λ (h', callb).
            let e' = h'.client.endpoint in
            let heap = write e'.heap a (record (e'.heap a) { rxcallb = callb }) in
            let live = insert_key ((e'.heap a).opaque) a e'.live in
            let h'' = with_endpoint h' (record e' { heap = heap; live = live }) in
            let s = (transport_of h'').stats in
            returned (with_counters h'' (record s { n_rxstart = add_uint64 s.n_rxstart 1 }))))
      else (let s = (transport_of h).stats in
          returned (with_counters h (record s { n_mdrops = add_uint64 s.n_mdrops 1 })))
