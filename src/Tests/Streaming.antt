-- ===== src/Tests/Streaming.antt =====
-- A stream of two messages, from one end of a connection to the other.
use gofast.Base.{
  ◌≡◌, refl, true, false, [], ◌∷◌, List, none, some, ok, length, replicate, map, All, arith,
}
use gofast.Bench.Traffic.{do_stream_tx}
use gofast.Bench.Streams.{open_all}
use gofast.Calls.Streamed.{Streamable}
use gofast.Calls.{returned, Client}
use gofast.Cbor.Encode.{head_info, head_tail}
use gofast.DoRx.Conversation.{delivered, frame_delivered, Fit}
use gofast.DoTx.{Txproto, Sender, to_sender, tx_step}
use gofast.Exchange.Pipe.{Idle, Carries}
use gofast.Exchange.Streamed.{framed_as, stream_frames, Received, do_stream_tx-Received}
use gofast.Requests.Sends.{first_bytes, sync_command}
use gofast.Requests.{answered}
use gofast.Rx.RoundTrip.{Receivable}
use gofast.SyncRx.{handler_of}
use gofast.Tests.Calls.{caller}
use gofast.Tests.Messages.{idle, writes_all}
use gofast.Tests.Requests.{request-Ready}
use gofast.Tests.Streams.{always, endpoint-Inv}
use gofast.Tests.{endpoint, hello, listening, marker, marker-IsCodec, marking, a_stream}
use gofast.Tx.Sends.{starts}
use gofast.Types.{no_message}

caller-Streamable :
    Streamable
      (marker ∷ [])
      hello
      (104 ∷ 105 ∷ [])
      301
      marking
      (record (a_stream 301 false) { rxcallb = some 5 })
unfolding head_info head_tail
caller-Streamable = record {
  ready = request-Ready;
  room = omega arith;
  closes = omega arith;
  small = omega arith;
  named = refl;
}

hello-Receivable : Receivable 9 (listening []) (marker ∷ []) 301 7 (104 ∷ 105 ∷ [])
unfolding head_info head_tail
hello-Receivable = record {
  opaque_other = λ e. absurd (omega arith);
  opaque_u64 = omega arith;
  id_some = omega arith;
  id_u64 = omega arith;
  encoded_small = omega arith;
  packet_fits = omega arith;
  buffer_small = omega arith;
  decodable = (marker-IsCodec, refl, omega arith, omega arith, tt);
  fuel_layers = omega arith;
  fuel_header = omega arith;
}

frames-Fit : All (Fit 9 (listening [])) (stream_frames (marker ∷ []) 301 hello (104 ∷ 105 ∷ []) 1)
frames-Fit = (
  ((λ e. absurd (omega arith)), hello-Receivable),
  (
    ((λ e. absurd (omega arith)), hello-Receivable),
    ((omega arith, (λ e. absurd (omega arith)), omega arith, omega arith), tt),
  ),
)

-- A `doTx` of which a batch is one command.
abbrev prompt : Sender
prompt = record idle {
  transport = record (idle.transport) { batchsize = 1 };
  tcpwrite_buf = replicate 64 0;
}

prompt-Idle : Idle prompt
prompt-Idle = record {
  waiting = record { room = refl; fits = tt; short = omega arith; patient = tt };
  sent = refl;
  batch = refl;
  replies = refl;
}

do_stream_tx-Received_example :
    let start =
      sync_command (first_bytes starts (marker ∷ []) caller 1 hello (104 ∷ 105 ∷ [])) false in
    let frames = stream_frames (marker ∷ []) 301 hello (104 ∷ 105 ∷ []) 1 in
    (c : Client) × (do_stream_tx caller 1 hello 5
        (answered (length start.packet) none)
        open_all
        false
      ≡ returned (c, 1))
    × (s' : Sender) × (rest : List Txproto) × (c.txch ≡ start ∷ rest)
    × (tx_step writes_all prompt start ≡ ok s')
    × (s'.replies ≡ to_sender start (length start.packet) none ∷ [])
    × Carries writes_all prompt c.txch 4 9 (listening []) frames
    × Received always endpoint 301 1
        (delivered (framed_as 0x9f (marker ∷ []) 301 hello (104 ∷ 105 ∷ [])))
        ((record { id = 7; body = some (104 ∷ 105 ∷ []) }, true) ∷ (no_message, false) ∷ [])
        (map frame_delivered frames)
unfolding handler_of
do_stream_tx-Received_example =
    do_stream_tx-Received writes_all (λ sent bs. refl) always (marker ∷ []) caller 1 [] 1 0 5 9 1 9
      hello (104 ∷ 105 ∷ []) prompt (listening []) endpoint refl refl refl caller-Streamable
      prompt-Idle refl refl frames-Fit endpoint-Inv refl refl refl
