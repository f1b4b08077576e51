-- ===== src/Tests/Bench.antt =====
-- Messages of the performance tool.
use gofast.Base.{◌≡◌, refl, true, false, [], ◌∷◌, ◌++◌, some, arith}
use gofast.Bench.Data.{data_bytes, data_encode-decode, serve_request-echo}
use gofast.Bench.{as_message, msg_reqsp, serve_request}
use gofast.Calls.Respond.{response_frame}
use gofast.Calls.{returned, Client}
use gofast.Cbor.Encode.{head_info, head_tail}
use gofast.Tests.Calls.{caller}
use gofast.Tests.{marker, marker-IsCodec, marking, a_stream}
use gofast.Tx.Frames.{Ready}
use gofast.Types.{BinMessage}

response-Ready :
    Ready
      (marker ∷ [])
      marking
      (as_message (msg_reqsp (104 ∷ [])))
      (a_stream 301 false)
      (data_bytes (104 ∷ []))
      60
unfolding head_info head_tail
response-Ready = record {
  laws = (marker-IsCodec, tt);
  tags = refl;
  encodes = (data_encode-decode (104 ∷ []) (a_stream 301 false).data_buf [] [] (omega arith)).0;
  layers_fit = (omega arith, omega arith, omega arith);
  body_fits = omega arith;
  packet_fits = omega arith;
}

abbrev asking : BinMessage
asking = record { id = 112; body = some (data_bytes (104 ∷ []) ++ 0 ∷ []) }

serve_request-echo_example :
    (c : Client) × (serve_request caller 1 asking false ≡ returned (c, false))
    × (c.txch
        ≡ response_frame
            (marker ∷ [])
            caller
            1
            (as_message (msg_reqsp (104 ∷ [])))
            true
            (data_bytes (104 ∷ []))
          ∷ [])
serve_request-echo_example =
    serve_request-echo (marker ∷ []) caller 1 1 asking (104 ∷ []) (0 ∷ []) refl (omega arith) refl
      (omega arith) (omega arith) response-Ready
