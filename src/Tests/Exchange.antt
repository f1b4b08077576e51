-- ===== src/Tests/Exchange.antt =====
-- A connection of which both ends look alike.
use gofast.Base.{◌≡◌, refl, Bool, true, false, [], ◌∷◌, some, length, arith}
use gofast.Calls.{returned, Client, respond}
use gofast.Cbor.Encode.{head_info, head_tail}
use gofast.DoRx.Conversation.{sends_msg, Sending, wire, delivered, Fit}
use gofast.DoTx.{Txproto}
use gofast.Exchange.Answered.{request-answered}
use gofast.Exchange.Sides.{Asking, Serving, Line, Round, on_wire, bin}
use gofast.Exchange.Pipe.{Idle, Carries, do_tx-do_rx}
use gofast.Exchange.Served.{IsRequest, given, sync_step-respond}
use gofast.Requests.Sends.{request_bytes}
use gofast.SyncRx.{handled, packet, fromrxstrm, newremotestream, handler_of, sync_step}
use gofast.Tests.Calls.{caller}
use gofast.Tests.Messages.{idle, idle-Waiting, writes_all}
use gofast.Tests.Requests.{request-Ready}
use gofast.Tests.Streams.{always, endpoint-Inv}
use gofast.Tests.{hello, listening, marker, marker-IsCodec, marking}
use gofast.Tx.Frames.{Ready}

pub idle-Idle : Idle idle
idle-Idle = record { waiting = idle-Waiting; sent = refl; batch = refl; replies = refl }

abbrev frame : Sending
frame = on_wire (marker ∷ []) 301 hello (104 ∷ 105 ∷ [])

frame-Fit : Fit 9 (listening []) (sends_msg frame)
unfolding head_info head_tail
frame-Fit = (
  (λ e. absurd (omega arith)),
  record {
    opaque_other = λ e. absurd (omega arith);
    opaque_u64 = omega arith;
    id_some = omega arith;
    id_u64 = omega arith;
    encoded_small = omega arith;
    packet_fits = omega arith;
    buffer_small = omega arith;
    decodable = (marker-IsCodec, refl, omega arith, omega arith, tt);
    fuel_layers = omega arith;
    fuel_header = omega arith;
  },
)

given-Ready : Ready (marker ∷ []) marking hello (given caller.endpoint 301) (104 ∷ 105 ∷ []) 60
unfolding head_info head_tail newremotestream fromrxstrm
given-Ready = record {
  laws = (marker-IsCodec, tt);
  tags = refl;
  encodes = refl;
  layers_fit = (omega arith, omega arith, omega arith);
  body_fits = omega arith;
  packet_fits = omega arith;
}

abbrev holding : Bool → Txproto
holding flush = record { packet = wire frame; flush = flush; async = true }

do_tx-do_rx_example :
    Carries writes_all idle
      (holding false ∷ holding true ∷ [])
      3
      9
      (listening [])
      (sends_msg frame ∷ sends_msg frame ∷ [])
unfolding head_info head_tail
do_tx-do_rx_example =
    do_tx-do_rx writes_all (λ sent bs. refl) idle (holding false ∷ []) (holding true) 3 9
      (listening []) (sends_msg frame ∷ sends_msg frame ∷ []) idle-Idle
      (omega arith, (omega arith, tt)) refl refl (omega arith) (frame-Fit, (frame-Fit, tt))

frame-IsRequest : IsRequest (delivered frame)
frame-IsRequest = record { asks = refl; post = refl; finish = refl }

-- The remote's handler 1 is called with the stream at 3, and answers in the same words.
sync_step-respond_example :
    let e = sync_step always caller.endpoint (packet (delivered frame)) in
    (d : Client) × (respond (record caller { endpoint = e }) 3 hello true false
      ≡ returned (d, false))
    × (e.events ≡ handled 1 (some 3) (bin hello (104 ∷ 105 ∷ [])) ∷ [])
    × (d.txch ≡ record { packet = wire frame; flush = true; async = true } ∷ [])
    × (d.endpoint.rx_pool ≡ 3 ∷ e.rx_pool)
    × (e.live ≡ (600, 2) ∷ [])
unfolding handler_of newremotestream fromrxstrm
sync_step-respond_example =
    sync_step-respond always (marker ∷ []) caller (delivered frame) 1 1 hello true (104 ∷ 105 ∷ [])
      frame-IsRequest refl refl refl (omega arith) (omega arith) given-Ready

caller-Asking : Asking (marker ∷ []) caller 1 [] 1 5 hello (104 ∷ 105 ∷ [])
caller-Asking = record {
  inv = endpoint-Inv;
  pooled = refl;
  free = refl;
  quiet = refl;
  room = omega arith;
  small = omega arith;
  ready = request-Ready;
}

caller-Serving :
    Serving always (marker ∷ []) caller 301 (bin hello (104 ∷ 105 ∷ [])) 1 1 hello (104 ∷ 105 ∷ [])
unfolding handler_of newremotestream fromrxstrm
caller-Serving = record {
  unknown = refl;
  handler = refl;
  free = refl;
  quiet = refl;
  room = omega arith;
  small = omega arith;
  ready = given-Ready;
}

one_Line : Line idle 64 9 (listening []) frame
one_Line = record { idle = idle-Idle; same_size = refl; fit = frame-Fit }

request-answered_example :
    let e = sync_step always caller.endpoint (packet (delivered frame)) in
    (c : Client) × (d : Client) × Round always caller c 1 5 hello
      (length (request_bytes (marker ∷ []) caller 1 hello (104 ∷ 105 ∷ [])))
      frame
    × Carries writes_all idle c.txch 2 9 (listening []) (sends_msg frame ∷ [])
    × (e.events ≡ handled 1 (some 3) (bin hello (104 ∷ 105 ∷ [])) ∷ [])
    × (respond (record caller { endpoint = e }) 3 hello true false ≡ returned (d, false))
    × Carries writes_all idle d.txch 2 9 (listening []) (sends_msg frame ∷ [])
unfolding newremotestream fromrxstrm
request-answered_example =
    request-answered writes_all (λ sent bs. refl) writes_all (λ sent bs. refl) always always
      (marker ∷ []) (marker ∷ []) caller caller 1 [] 1 1 1 5 9 hello hello (104 ∷ 105 ∷ [])
      (104 ∷ 105 ∷ []) idle idle (listening []) (listening []) caller-Asking caller-Serving one_Line
      one_Line
