-- ===== src/Calls/Respond.antt =====
-- `Response` of stream.go, by what it hands to `doTx`.
use gofast.Base.{
  ℕ, suc, ◌-◌, ◌≤◌, ◌≡◌, refl, Bool, true, false, ==_refl, List, [], ◌∷◌, ◌++◌, length, arith,
}
use gofast.Calls.HandOver.{handed, send_async-handed}
use gofast.Calls.{returned, Client, respond}
use gofast.DoTx.{Txproto}
use gofast.Tx.Frames.{Ready}
use gofast.Tx.Packet.{Codec, framed, payload}
use gofast.Tx.Sends.{responds, send-Sends}
use gofast.Tx.{response}
use gofast.Types.{Message, add_uint64}

-- The command with a response's frame.
abbrev pub response_frame : List Codec → Client → ℕ → Message → Bool → List ℕ → Txproto
response_frame cs c a msg flush encoded = record {
  packet = framed 0x81 ((c.endpoint.heap a).opaque) (payload msg.is_whoami cs msg.id encoded);
  flush = flush;
  async = true;
}

-- `stream.Response(msg, flush)`, where a command is free, the message can be sent on the stream and
-- its frame fits a command, and the transport is not closed: the call returns without an error,
-- `doTx` is handed exactly the frame of the response under the stream's opaque value, the frame is
-- counted, and the stream goes to the pool of used streams.
pub respond-handed :
    (cs : List Codec) (c : Client) (a k : ℕ) (msg : Message) (flush : Bool) (encoded : List ℕ)
    → c.txcmd ≡ suc k
    → 4 ≤ length ((c.endpoint.heap a).out)
    → length ((c.endpoint.heap a).out) ≤ c.endpoint.transport.buffersize
    → Ready cs c.endpoint.transport msg
        (c.endpoint.heap a)
        encoded
        (length ((c.endpoint.heap a).out) - 4)
    → (c' : Client) × (respond c a msg flush false ≡ returned (c', false))
      × (c'.txch ≡ c.txch ++ response_frame cs c a msg flush encoded ∷ [])
      × (c'.endpoint.rx_pool ≡ a ∷ c.endpoint.rx_pool)
      × (c'.txcmd ≡ k)
      × (c'.endpoint.transport.stats.n_txresp ≡ add_uint64 c.endpoint.transport.stats.n_txresp 1)
      × (c'.endpoint.live ≡ c.endpoint.live)
      × ((c'.endpoint.heap a).opaque ≡ (c.endpoint.heap a).opaque)
unfolding respond
respond-handed cs c a k msg flush encoded free room small ready =
    let t = c.endpoint.transport in
    let s = c.endpoint.heap a in
    let bytes = framed 0x81 s.opaque (payload msg.is_whoami cs msg.id encoded) in
    let w = send-Sends responds cs t msg s encoded s.out room ready in
    let stats = record (t.stats) { n_txresp = add_uint64 t.n_txresp 1 } in
    let c' = handed c a stats (record s { tagout = w.tagout; out = w.out }) bytes flush k in
    let fits : length bytes ≤ t.buffersize = omega (arith, ready.packet_fits) in
    let sends =
      send_async-handed (λ t s out. response t msg s out) c a flush k stats bytes (length s.out)
        free fits w in
    (
      record c' { endpoint = record (c'.endpoint) { rx_pool = a ∷ c.endpoint.rx_pool } },
      rw sends,
      refl,
      refl,
      refl,
      refl,
      refl,
      rw (==_refl a) refl,
    )
