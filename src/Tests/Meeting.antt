-- ===== src/Tests/Meeting.antt =====
-- Two transports that are set up alike, and ask each other who they are.
use gofast.Base.{none, ℕ, ◌≡◌, refl, true, false, [], ◌∷◌, some, ok, length, replicate, arith}
use gofast.Calls.{returned, Client}
use gofast.Cbor.Encode.{head, head_info, head_tail}
use gofast.DoRx.Conversation.{sends_msg, Sending, delivered, Fit}
use gofast.Exchange.Known.{Sayable, seen_by, whoami-answered}
use gofast.Exchange.Pipe.{Carries}
use gofast.Exchange.Served.{given}
use gofast.Exchange.Sides.{Asking, Serving, Line, Round, on_wire, bin}
use gofast.Handler.{sent_whoami, msghandler}
use gofast.Messages.RoundTrip.{version64-Encodes}
use gofast.Messages.{Whoami, version64, msg_whoami}
use gofast.Requests.Sends.{request_bytes}
use gofast.Requests.{answered}
use gofast.Responses.{
  Pending, whoami_open, whoami_waiting, whoami_result, on_responses, whoami_into,
}
use gofast.Setup.{Host, new_whoami}
use gofast.SyncRx.{handled, packet, fromrxstrm, newremotestream, handler_of, sync_step}
use gofast.Tests.Calls.{caller}
use gofast.Tests.Exchange.{idle-Idle}
use gofast.Tests.Messages.{idle, writes_all}
use gofast.Tests.Setup.{answering, own_bytes, own_round_trip}
use gofast.Tests.Streams.{always, endpoint-Inv}
use gofast.Tests.{endpoint, listening, marker, marker-IsCodec, marking, a_stream}
use gofast.Tx.Frames.{Ready}
use gofast.Types.{Transport}

abbrev knowing : Transport
knowing = record marking { handlers = (msg_whoami, some 2) ∷ [] }

abbrev meeting : Host ℕ
meeting = record answering {
  client = record caller { endpoint = record endpoint { transport = knowing } };
}

meeting-Sayable : Sayable version64 meeting (head 0 300)
meeting-Sayable = record {
  encodes = version64-Encodes 300 (omega arith);
  named = omega arith;
  tagged = omega arith;
  sized = omega arith;
}

whoami-Ready :
    Ready
      (marker ∷ [])
      knowing
      (sent_whoami version64 meeting)
      (record (a_stream 301 false) { rxcallb = some 5 })
      own_bytes
      60
unfolding head_info head_tail new_whoami
whoami-Ready = record {
  laws = (marker-IsCodec, tt);
  tags = refl;
  encodes = (own_round_trip (replicate 64 0) []).0;
  layers_fit = omega arith;
  body_fits = omega arith;
  packet_fits = omega arith;
}

given-Ready :
    Ready
      (marker ∷ [])
      knowing
      (sent_whoami version64 meeting)
      (given meeting.client.endpoint 301)
      own_bytes
      60
unfolding head_info head_tail new_whoami newremotestream fromrxstrm
given-Ready = record {
  laws = (marker-IsCodec, tt);
  tags = refl;
  encodes = (own_round_trip (replicate 64 0) []).0;
  layers_fit = omega arith;
  body_fits = omega arith;
  packet_fits = omega arith;
}

meeting-Asking :
    Asking (marker ∷ []) meeting.client 1 [] 1 5 (sent_whoami version64 meeting) own_bytes
meeting-Asking = record {
  inv = endpoint-Inv;
  pooled = refl;
  free = refl;
  quiet = refl;
  room = omega arith;
  small = omega arith;
  ready = whoami-Ready;
}

meeting-Serving :
    Serving always
      (marker ∷ [])
      meeting.client
      301
      (bin (sent_whoami version64 meeting) own_bytes)
      2
      1
      (sent_whoami version64 meeting)
      own_bytes
unfolding handler_of newremotestream fromrxstrm
meeting-Serving = record {
  unknown = refl;
  handler = refl;
  free = refl;
  quiet = refl;
  room = omega arith;
  small = omega arith;
  ready = given-Ready;
}

abbrev frame : Sending
frame = on_wire (marker ∷ []) 301 (sent_whoami version64 meeting) own_bytes

frame-Fit : Fit 9 (listening []) (sends_msg frame)
unfolding head_info head_tail new_whoami
frame-Fit = (
  (λ e. absurd (omega arith)),
  record {
    opaque_other = λ e. absurd (omega arith);
    opaque_u64 = omega arith;
    id_some = omega arith;
    id_u64 = omega arith;
    encoded_small = omega arith;
    packet_fits = omega arith;
    buffer_small = omega arith;
    decodable = omega arith;
    fuel_layers = omega arith;
    fuel_header = omega arith;
  },
)

one_Line : Line idle 64 9 (listening []) frame
one_Line = record { idle = idle-Idle; same_size = refl; fit = frame-Fit }

whoami-answered_example :
    let e = sync_step always meeting.client.endpoint (packet (delivered frame)) in
    let msg = sent_whoami version64 meeting in
    (c : Client) × (h : Host ℕ) × Round always meeting.client c 1 5 msg
      (length (request_bytes (marker ∷ []) meeting.client 1 msg own_bytes))
      frame
    × (whoami_open version64 meeting 5
          (answered (length (request_bytes (marker ∷ []) meeting.client 1 msg own_bytes)) none)
        ≡ returned (c, 1, none))
    × Carries writes_all idle c.txch 2 9 (listening []) (sends_msg frame ∷ [])
    × (e.events ≡ handled 2 (some 3) (bin msg own_bytes) ∷ [])
    × (msghandler version64 7 (seen_by meeting e) (some 3) (bin msg own_bytes) false ≡ returned h)
    × (h.peerver ≡ some 300)
    × (h.xchngok ≡ 1)
    × Carries writes_all idle h.client.txch 2 9 (listening []) (sends_msg frame ∷ [])
    × ((p : Pending (Whoami ℕ)) × (on_responses
            (whoami_into version64)
            (whoami_waiting meeting)
            ((bin msg own_bytes, false) ∷ [])
          ≡ ok p)
        × (p.done ≡ true)
        × (whoami_result none p ≡ (some (new_whoami meeting), none)))
unfolding newremotestream fromrxstrm new_whoami
whoami-answered_example =
    whoami-answered version64 writes_all (λ sent bs. refl) writes_all (λ sent bs. refl) always
      always (marker ∷ []) (marker ∷ []) meeting meeting (head 0 300) (head 0 300) 1 [] 7 1 2 1 5 9
      idle idle (listening []) (listening []) meeting-Sayable meeting-Sayable meeting-Asking
      meeting-Serving one_Line one_Line
