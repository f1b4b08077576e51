-- ===== src/Tests/Dispatch.antt =====
-- A stream that the remote starts with a ping.
use gofast.Base.{ℕ, ◌≡◌, refl, false, [], ◌∷◌, Option, some, replicate, arith}
use gofast.Calls.Respond.{response_frame}
use gofast.Calls.{Call, returned, panicked}
use gofast.Cbor.Encode.{head_info, head_tail}
use gofast.Handler.Answers.{Answerable}
use gofast.Handler.Dispatch.{with_endpoint, serve_new}
use gofast.Handler.Pooled.{serve_new-pooled}
use gofast.Messages.RoundTrip.{ping_bytes, ping_encode-decode}
use gofast.Messages.{msg_ping, version64}
use gofast.Setup.{Host, ping_msg, transport_of, with_transport}
use gofast.SyncRx.{fromrxstrm, newremotestream, handler_of}
use gofast.Tests.Calls.{caller}
use gofast.Tests.Setup.{answering, pinging}
use gofast.Tests.{marker, marker-IsCodec, packet_on}
use gofast.Types.{BinMessage, RxPacket, find_key}

-- No other handler is there.
abbrev no_user : ℕ → Host ℕ → Option ℕ → BinMessage → Call (Host ℕ × Option ℕ)
no_user f h stream msg = panicked

abbrev started_on : Host ℕ
started_on =
    with_transport answering
      (record (transport_of answering) { handlers = (msg_ping, some 3) ∷ [] })

abbrev ping_start : RxPacket
ping_start = record (packet_on 700 false) { msg = pinging }

start-Answerable :
    Answerable version64 9
      (marker ∷ [])
      (with_endpoint started_on (newremotestream started_on.client.endpoint 700).0)
      (newremotestream started_on.client.endpoint 700).1
      (ping_msg (104 ∷ []))
      (ping_bytes (104 ∷ []))
      1
unfolding head_info head_tail newremotestream fromrxstrm
start-Answerable = record {
  free = refl;
  room = omega arith;
  small = omega arith;
  ready = record {
    laws = (marker-IsCodec, tt);
    tags = refl;
    encodes = (ping_encode-decode (104 ∷ []) (replicate 64 0) [] (omega arith)).0;
    layers_fit = (omega arith, omega arith, omega arith);
    body_fits = omega arith;
    packet_fits = omega arith;
  };
}

serve_new-pooled_example :
    let new = newremotestream started_on.client.endpoint 700 in
    (h : Host ℕ) × (serve_new version64 3 no_user 9 started_on ping_start false ≡ returned h)
    × (h.client.txch
        ≡ response_frame
            (marker ∷ [])
            (record caller { endpoint = new.0 })
            new.1
            (ping_msg (104 ∷ []))
            false
            (ping_bytes (104 ∷ []))
          ∷ [])
    × (find_key 700 h.client.endpoint.live ≡ some new.1)
    × (h.client.endpoint.rx_pool ≡ new.1 ∷ new.0.rx_pool)
    × ((newremotestream h.client.endpoint 0).1 ≡ new.1)
unfolding handler_of newremotestream fromrxstrm
serve_new-pooled_example =
    serve_new-pooled version64 3 no_user (marker ∷ []) 9 started_on 1 ping_start (104 ∷ []) [] refl
      refl refl refl refl (omega arith) refl start-Answerable
