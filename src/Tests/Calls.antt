-- ===== src/Tests/Calls.antt =====
-- A post on the stream that is pooled.
use gofast.Base.{◌≡◌, refl, true, false, [], ◌∷◌, none, arith}
use gofast.Calls.HandOver.{post_msg-handed}
use gofast.Calls.{returned, Client, post_msg}
use gofast.Cbor.Encode.{head_info, head_tail}
use gofast.Tests.{endpoint, hello, marker, marker-IsCodec, marking, a_stream}
use gofast.Tx.Frames.{Ready}
use gofast.Tx.Packet.{framed, payload}

abbrev pub caller : Client
caller = record { endpoint = endpoint; rxch = []; txch = []; txcmd = 2 }

caller-Ready :
    Ready
      (marker ∷ [])
      marking
      hello
      (record (a_stream 301 false) { rxcallb = none })
      (104 ∷ 105 ∷ [])
      60
unfolding head_info head_tail
caller-Ready = record {
  laws = (marker-IsCodec, tt);
  tags = refl;
  encodes = refl;
  layers_fit = (omega arith, omega arith, omega arith);
  body_fits = omega arith;
  packet_fits = omega arith;
}

post_msg-handed_example :
    (c : Client) × (post_msg caller hello true false ≡ returned (c, false))
    × (c.txch
        ≡ record {
          packet = framed 0xc6 301 (payload false (marker ∷ []) 7 (104 ∷ 105 ∷ []));
          flush = true;
          async = true;
        }
          ∷ [])
    × (c.endpoint.pool ≡ 1 ∷ [])
    × (c.txcmd ≡ 1)
    × (c.endpoint.transport.stats.n_txpost ≡ 1)
post_msg-handed_example =
    post_msg-handed (marker ∷ []) caller 1 [] 1 hello true (104 ∷ 105 ∷ []) refl refl refl
      (omega arith) (omega arith) caller-Ready
