-- ===== src/Tests/Stolen.antt =====
-- A stream that the remote ends while a request waits on it.
use gofast.Base.{◌≡◌, ◌-◌, refl, true, [], ◌∷◌, none, some, length, arith}
use gofast.Calls.{returned, Client}
use gofast.Cbor.Encode.{head_info, head_tail}
use gofast.Exchange.Served.{IsRequest}
use gofast.Exchange.Stolen.{Stolen, request_close-Stolen}
use gofast.Requests.Sends.{request_bytes}
use gofast.Requests.{answered, request_open}
use gofast.SyncRx.Order.{Held}
use gofast.SyncRx.Pool.{Inv}
use gofast.SyncRx.{Endpoint, packet, putstream, handle_finish, handlepkt, sync_step}
use gofast.Tests.Requests.{response_to}
use gofast.Tests.Streams.{always}
use gofast.Tests.{endpoint, hello, marker, marker-IsCodec, packet_on}
use gofast.Tx.Frames.{Ready}

-- Stream 0 is live, and no local stream is free.
abbrev waiting : Client
waiting = record {
  endpoint = record endpoint { pool = []; live = (300, 0) ∷ [] };
  rxch = [];
  txch = [];
  txcmd = 2;
}

waiting-Inv : Inv waiting.endpoint
waiting-Inv = record {
  live_opaque = (refl, tt);
  live_below = (omega arith, tt);
  pool_local = tt;
  pool_below = tt;
  pool_once = tt;
  pool_idle = tt;
  rx_remote = tt;
  rx_below = tt;
  rx_once = tt;
  rx_idle = tt;
}

waiting-Held : Held 300 0 5 waiting.endpoint
waiting-Held = record { inv = waiting-Inv; live = refl; callb = refl }

abbrev ended : Endpoint
ended = sync_step always waiting.endpoint (packet (packet_on 300 true))

ended-Ready :
    Ready
      (marker ∷ [])
      ended.transport
      hello
      (record (ended.heap 0) { rxcallb = some 6 })
      (104 ∷ 105 ∷ [])
      (length ((ended.heap 0).out) - 4)
unfolding head_info head_tail sync_step handlepkt handle_finish putstream
ended-Ready = record {
  laws = (marker-IsCodec, tt);
  tags = refl;
  encodes = refl;
  layers_fit = (omega arith, omega arith, omega arith);
  body_fits = omega arith;
  packet_fits = omega arith;
}

response-IsRequest : IsRequest (response_to 300)
response-IsRequest = record { asks = refl; post = refl; finish = refl }

request_close-Stolen_example :
    let c1 = record waiting { endpoint = ended } in
    (c2 : Client) × (request_open c1 hello true 6
        (answered (length (request_bytes (marker ∷ []) c1 0 hello (104 ∷ 105 ∷ []))) none)
      ≡ returned (c2, 0, none))
    × Stolen always 0 300 c1 c2 (response_to 300)
unfolding sync_step handlepkt handle_finish putstream
request_close-Stolen_example =
    request_close-Stolen always 300 0 (marker ∷ []) waiting 5 6 1 (packet_on 300 true)
      (response_to 300) hello true (104 ∷ 105 ∷ []) waiting-Held refl refl refl refl refl
      response-IsRequest refl refl (omega arith) (omega arith) ended-Ready
