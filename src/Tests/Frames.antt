-- ===== src/Tests/Frames.antt =====
-- Frames on the wire.
use gofast.DoRx.{do_rx}
use gofast.DoRx.Conversation.{
  Sending, Frame, sends_msg, ends, wires, frame_delivered, Fit, do_rx-delivered,
}
use gofast.Rx.{eof, Receiver}
use gofast.Rx.Packets.{IsPacket, unframepkt-IsPacket}
use gofast.Base.{
  sym, append-nil, All, map, ℕ, ◌≤◌, ◌≡◌, refl, false, List, [], ◌∷◌, ◌++◌, some, ok, stuck, length,
  replicate, arith, append-nil, sym,
}
use gofast.Cbor.{cbor_item_length}
use gofast.Cbor.Decode.{cbor_item_length-IsItem, IsItem}
use gofast.Cbor.Encode.{head_info, head_tail}
use gofast.Rx.Frames.{behind}
use gofast.Rx.Hang.{hanging, unframepkt_hang}
use gofast.Rx.RoundTrip.{Receives, Receivable, unframepkt-end_frame}
use gofast.Rx.{unframepkt, rx_flags}
use gofast.Tests.{marker, marker-IsCodec, marking, hello, a_stream, listening}
use gofast.Tx.Frames.{Ready}
use gofast.Tx.Packet.{framed, end_frame, payload}
use gofast.Tx.Sends.{requests, send, count_sent, Sends, send-Sends}
use gofast.Types.{no_message}
use gofast.Wire.{sent_packet, send-unframepkt}

ready : Ready (marker ∷ []) marking hello (a_stream 300 false) (104 ∷ 105 ∷ []) 60
unfolding head_info head_tail
ready = record {
  laws = (marker-IsCodec, tt);
  tags = refl;
  encodes = refl;
  layers_fit = (omega arith, omega arith, omega arith);
  body_fits = omega arith;
  packet_fits = omega arith;
}

receivable : (input : List ℕ) → Receivable 9 (listening input) (marker ∷ []) 300 7 (104 ∷ 105 ∷ [])
unfolding head_info head_tail
receivable input = record {
  opaque_other = λ e. absurd (omega arith);
  opaque_u64 = omega arith;
  id_some = omega arith;
  id_u64 = omega arith;
  encoded_small = omega arith;
  packet_fits = omega arith;
  buffer_small = omega arith;
  decodable = (marker-IsCodec, refl, omega arith, omega arith, tt);
  fuel_layers = omega arith;
  fuel_header = omega arith;
}

send-unframepkt_example :
    (bs : List ℕ) × Sends
      (send requests marking hello (a_stream 300 false) (replicate 64 0))
      marking
      (count_sent requests marking.stats)
      (a_stream 300 false)
      bs
      64
    × Receives
        (unframepkt 9 (listening (bs ++ 0 ∷ [])))
        (listening [])
        (0 ∷ [])
        (length bs)
        (sent_packet requests 300 (record { id = 7; body = some (104 ∷ 105 ∷ []) }))
send-unframepkt_example =
    send-unframepkt requests (marker ∷ []) marking hello (a_stream 300 false) (104 ∷ 105 ∷ [])
      (replicate 64 0) 9 (listening []) (0 ∷ []) (omega arith) ready (receivable [])

send-Sends_example :
    Sends
      (send requests marking hello (a_stream 300 false) (replicate 64 0))
      marking
      (count_sent requests marking.stats)
      (a_stream 300 false)
      (framed 0x81 300 (payload false (marker ∷ []) 7 (104 ∷ 105 ∷ [])))
      64
send-Sends_example =
    send-Sends requests (marker ∷ []) marking hello (a_stream 300 false) (104 ∷ 105 ∷ [])
      (replicate 64 0) (omega arith) ready

end_frame_fits : length (end_frame 300) ≤ 64
unfolding head_info head_tail
end_frame_fits = omega arith

unframepkt_hang_example : unframepkt 1000 (listening (framed 0xc6 300 (hanging 3 1))) ≡ stuck
unframepkt_hang_example =
    unframepkt_hang 1000 (listening (framed 0xc6 300 (hanging 3 1))) 0xc6 300 3 1 []
      (λ e. absurd (omega arith)) (λ e. absurd (omega arith)) (omega arith) (omega arith)
      (omega arith) (sym (append-nil (framed 0xc6 300 (hanging 3 1))))

cbor_item_length-IsItem_example : IsItem (0x19 ∷ 1 ∷ []) (cbor_item_length (0x19 ∷ 1 ∷ []))
cbor_item_length-IsItem_example = cbor_item_length-IsItem 0x19 (1 ∷ [])

abbrev framed_hello : ℕ → Sending
framed_hello kind = record {
  kind = kind;
  tags = marker ∷ [];
  opaque = 300;
  id = 7;
  encoded = 104 ∷ 105 ∷ [];
}

-- A request, a message of a stream and the stream's end, one behind the other.
abbrev three_sent : List Frame
three_sent = sends_msg (framed_hello 0x81) ∷ sends_msg (framed_hello 0xc7) ∷ ends 300 ∷ []

three_Fit : All (Fit 9 (listening (wires three_sent))) three_sent
three_Fit = (
  ((λ e. absurd (omega arith)), receivable (wires three_sent)),
  (
    ((λ e. absurd (omega arith)), receivable (wires three_sent)),
    ((omega arith, (λ e. absurd (omega arith)), omega arith, omega arith), tt),
  ),
)

do_rx-delivered_example :
    (last : Receiver) × (do_rx 4 9 (listening (wires three_sent))
      ≡ ok (map frame_delivered three_sent, last, eof))
    × (last.conn.input ≡ [])
do_rx-delivered_example =
    do_rx-delivered 4 9 (listening (wires three_sent)) three_sent (omega arith) three_Fit refl refl

unframepkt-IsPacket_example : IsPacket (rx_flags 0xc8 300 no_message)
unframepkt-IsPacket_example =
    unframepkt-IsPacket 9 (listening (end_frame 300))
      (behind (listening (end_frame 300)) [] (length (end_frame 300)))
      (rx_flags 0xc8 300 no_message)
      (unframepkt-end_frame 9 (listening (end_frame 300)) 300 [] (omega arith)
        (λ e. absurd (omega arith)) (omega arith) (omega arith) (sym (append-nil (end_frame 300))))
