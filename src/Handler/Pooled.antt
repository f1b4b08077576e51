-- ===== src/Handler/Pooled.antt =====
-- A stream that the remote starts with a ping, which msghandler of msg.go answers as a request.
use gofast.Base.{
  ℕ, ◌<◌, ◌^◌, ◌≡◌, refl, ap, ◌∙◌, ==_refl, true, false, List, [], ◌∷◌, ◌++◌, Option, none, some,
  length,
}
use gofast.Calls.Respond.{response_frame, respond-handed}
use gofast.Calls.{Call, returned}
use gofast.Handler.Answers.{Answerable}
use gofast.Handler.Dispatch.{with_endpoint, with_counters, serve, serve_new}
use gofast.Handler.{data_of, answer, msghandler}
use gofast.Messages.RoundTrip.{ping_bytes, ping_encode-decode}
use gofast.Messages.{VersionOps, msg_ping}
use gofast.Setup.{Host, transport_of, ping_msg}
use gofast.SyncRx.{Endpoint, write, get_rxstrm, fromrxstrm, newremotestream, handler_of}
use gofast.Tx.Packet.{Codec}
use gofast.Types.Keys.{find-insert_same}
use gofast.Types.{BinMessage, RxPacket, find_key, insert_key, add_uint64}

newremotestream-opaque :
    {V : Type 0} (h : Host V) (opaque : ℕ)
    → let new = newremotestream h.client.endpoint opaque in (new.0.heap new.1).opaque ≡ opaque
unfolding newremotestream fromrxstrm
newremotestream-opaque h opaque = rw (==_refl _) refl

next_new :
    (e : Endpoint) (a : ℕ) (rest : List ℕ) (opaque : ℕ)
    → e.rx_pool ≡ a ∷ rest
    → (newremotestream e opaque).1 ≡ a
unfolding newremotestream fromrxstrm
next_new e a rest opaque q = rw (q, get_rxstrm) refl

module _ {V : Type 0} (ops : VersionOps V) (own : ℕ)
    (user : ℕ → Host V → Option ℕ → BinMessage → Call (Host V × Option ℕ)) where
  ping-pooled :
      (cs : List Codec) (now : ℕ) (h : Host V) (a k : ℕ) (msg : BinMessage) (echo rest : List ℕ)
      → msg.id ≡ msg_ping
      → data_of msg ≡ ping_bytes echo ++ rest
      → length echo < 2 ^ 16
      → handler_of (λ f a m. none) (transport_of h) msg ≡ some own
      → Answerable ops now cs h a (ping_msg echo) (ping_bytes echo) k
      → (h' : Host V) × (serve ops own user now h (some a) msg false ≡ returned (h', none))
        × (h'.client.txch
            ≡ h.client.txch
              ++ response_frame cs h.client a (ping_msg echo) false (ping_bytes echo) ∷ [])
        × (h'.client.endpoint.rx_pool ≡ a ∷ h.client.endpoint.rx_pool)
        × ((h'.client.endpoint.heap a).opaque ≡ (h.client.endpoint.heap a).opaque)
  unfolding serve msghandler answer
  ping-pooled cs now h a k msg echo rest named bytes short handler can =
      let (c', sends, queued, pooled, taken, counted, live, kept) =
        respond-handed cs h.client a k (ping_msg echo) false (ping_bytes echo) can.free can.room
          can.small can.ready in
      (
        record h { client = c' },
        rw
            (
              serve,
              handler,
              ==_refl own,
              named,
              bytes,
              (ping_encode-decode echo [] rest short).1,
              sends,
            )
            refl,
        queued,
        pooled,
        kept,
      )

  -- A stream that the remote starts with a ping is live and pooled at once: where the handler of a
  -- ping is the transport's own, a response can be sent on a new stream and the transport is not
  -- closed, syncRx returns, has answered the ping as if it were a request, and has the new stream
  -- live under the opaque value and also in the pool of used streams, from which the next request
  -- of the remote gets it.
  pub serve_new-pooled :
      (cs : List Codec) (now : ℕ) (h : Host V) (k : ℕ) (pkt : RxPacket) (echo rest : List ℕ)
      → pkt.post ≡ false
      → pkt.request ≡ false
      → pkt.start ≡ true
      → pkt.msg.id ≡ msg_ping
      → data_of pkt.msg ≡ ping_bytes echo ++ rest
      → length echo < 2 ^ 16
      → let new = newremotestream h.client.endpoint pkt.opaque in
        handler_of (λ f a m. none) new.0.transport pkt.msg ≡ some own
        → Answerable ops now cs
            (with_endpoint h (newremotestream h.client.endpoint pkt.opaque).0)
            (newremotestream h.client.endpoint pkt.opaque).1
            (ping_msg echo)
            (ping_bytes echo)
            k
        → let new = newremotestream h.client.endpoint pkt.opaque in
          (h' : Host V) × (serve_new ops own user now h pkt false ≡ returned h')
          × (h'.client.txch
              ≡ h.client.txch
                ++ response_frame cs
                    (record (h.client) { endpoint = new.0 })
                    new.1
                    (ping_msg echo)
                    false
                    (ping_bytes echo)
                  ∷ [])
          × (find_key pkt.opaque h'.client.endpoint.live ≡ some new.1)
          × (h'.client.endpoint.rx_pool ≡ new.1 ∷ new.0.rx_pool)
          × ((newremotestream h'.client.endpoint 0).1 ≡ new.1)
  unfolding serve_new
  serve_new-pooled cs now h k pkt echo rest post request start named bytes short handler can =
      let new = newremotestream h.client.endpoint pkt.opaque in
      let (h1, served, queued, pooled, kept) =
        ping-pooled cs now (with_endpoint h new.0) new.1 k pkt.msg echo rest named bytes short
          handler can in
      let key : (h1.client.endpoint.heap new.1).opaque ≡ pkt.opaque =
        kept ∙ newremotestream-opaque h pkt.opaque in
      let e = h1.client.endpoint in
      let there : find_key pkt.opaque (insert_key ((e.heap new.1).opaque) new.1 e.live)
          ≡ some new.1 =
        ap (λ j. find_key pkt.opaque (insert_key j new.1 e.live)) key
        ∙ find-insert_same pkt.opaque new.1 e.live in
      let heap = write e.heap new.1 (record (e.heap new.1) { rxcallb = none }) in
      let live = insert_key ((e.heap new.1).opaque) new.1 e.live in
      let h2 = with_endpoint h1 (record e { heap = heap; live = live }) in
      let s = (transport_of h2).stats in
      let h' = with_counters h2 (record s { n_rxstart = add_uint64 s.n_rxstart 1 }) in
      (
        h',
        rw (post, request, start, served) refl,
        queued,
        there,
        pooled,
        next_new h'.client.endpoint new.1 _ 0 pooled,
      )
