-- ===== src/Tests/Requests.antt =====
-- A request that is answered, and one of which the connection fails.
use gofast.Base.{ℕ, ◌≡◌, refl, true, false, List, [], ◌∷◌, ◌++◌, none, some, length, arith}
use gofast.Calls.{returned, Client}
use gofast.Cbor.Encode.{head_info, head_tail}
use gofast.Requests.Cycle.{request-cycle}
use gofast.Requests.Leak.{request_open-fails}
use gofast.Requests.Sends.{sync_command, request_bytes}
use gofast.Requests.{answered, closed_waiting, transport_closed, request_open, request_close}
use gofast.SyncRx.Aside.{told_to}
use gofast.SyncRx.{told, packet, sync_step, sync_run}
use gofast.Tests.Calls.{caller}
use gofast.Tests.Streams.{always, endpoint-Inv}
use gofast.Tests.{hello, marker, marker-IsCodec, marking, a_stream}
use gofast.Tx.Frames.{Ready}
use gofast.Types.{RxPacket, find_key}

pub request-Ready : Ready (marker ∷ []) marking hello (a_stream 301 false) (104 ∷ 105 ∷ []) 60
unfolding head_info head_tail
request-Ready = record {
  laws = (marker-IsCodec, tt);
  tags = refl;
  encodes = refl;
  layers_fit = (omega arith, omega arith, omega arith);
  body_fits = omega arith;
  packet_fits = omega arith;
}

abbrev pub response_to : ℕ → RxPacket
response_to opaque = record {
  msg = record { id = 7; body = some (111 ∷ []) };
  opaque = opaque;
  post = false;
  request = true;
  start = false;
  strmsg = false;
  finish = false;
}

abbrev wire : List ℕ
wire = request_bytes (marker ∷ []) caller 1 hello (104 ∷ 105 ∷ [])

request-cycle_example :
    (c : Client) × (request_open caller hello true 5 (answered (length wire) none)
      ≡ returned (c, 1, none))
    × (c.rxch ≡ told 1 ∷ [])
    × (c.txch ≡ sync_command wire true ∷ [])
    × (let e = sync_run always c.endpoint (told 1 ∷ packet (response_to 301) ∷ []) in
        let e' = sync_step always (request_close (record c { endpoint = e }) 1).endpoint (told 1) in
        (told_to 1 e'.events ≡ (record { id = 7; body = some (111 ∷ []) }, false) ∷ [])
        × (find_key 301 e'.live ≡ none)
        × (e'.pool ≡ e.pool ++ 1 ∷ []))
request-cycle_example =
    request-cycle always 1 5 (marker ∷ []) caller [] 1 hello true (104 ∷ 105 ∷ [])
      (response_to 301 ∷ []) endpoint-Inv refl refl (omega arith) (omega arith) request-Ready
      ((λ e. refl), tt)

request_open-fails_example :
    (c : Client) × (request_open caller hello true 5 (closed_waiting true)
      ≡ returned (c, 1, some transport_closed))
    × (c.rxch ≡ told 1 ∷ told 1 ∷ [])
    × (let e = sync_run always c.endpoint (told 1 ∷ told 1 ∷ []) in
        (find_key 301 e.live ≡ some 1) × (e.pool ≡ []))
request_open-fails_example =
    request_open-fails always 1 5 (marker ∷ []) caller [] 1 hello true (104 ∷ 105 ∷ [])
      (closed_waiting true) transport_closed refl refl (omega arith) (omega arith) request-Ready
      refl refl
