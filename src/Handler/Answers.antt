-- ===== src/Handler/Answers.antt =====
-- What `msghandler` of msg.go answers to the predefined messages.
use gofast.Base.{
  ℕ, suc, ◌-◌, ◌≤◌, ◌<◌, ◌^◌, ◌≡◌, refl, true, false, List, [], ◌∷◌, ◌++◌, some, ok, length, ℤ,
}
use gofast.Calls.Respond.{response_frame, respond-handed}
use gofast.Calls.{returned}
use gofast.Messages.RoundTrip.{ping_bytes, ping_encode-decode}
use gofast.Messages.{VersionOps, Whoami, msg_ping, msg_whoami, whoami_decode}
use gofast.Handler.{data_of, answer, sent_whoami, msghandler}
use gofast.Setup.{Host, transport_of, ping_msg, new_whoami}
use gofast.Tx.Frames.{Ready}
use gofast.Tx.Packet.{Codec}
use gofast.Types.{BinMessage, Message, add_uint64}

module _ {V : Type 0} (ops : VersionOps V) (now : ℕ) where
  -- A response can be sent on the stream at an address.
  pub record Answerable (cs : List Codec) (h : Host V) (a : ℕ) (msg : Message) (encoded : List ℕ)
      (k : ℕ) : Type 0 where
    pub free : h.client.txcmd ≡ suc k
    pub room : 4 ≤ length ((h.client.endpoint.heap a).out)
    pub small : length ((h.client.endpoint.heap a).out) ≤ (transport_of h).buffersize
    pub ready :
        Ready cs
          (transport_of h)
          msg
          (h.client.endpoint.heap a)
          encoded
          (length ((h.client.endpoint.heap a).out) - 4)

  -- A ping is answered with its own echo: where a response can be sent on the stream of the
  -- request and the transport is not closed, the handler returns, and `doTx` is handed, unflushed,
  -- the frame of a ping with the bytes that came in as the echo, which are less than 64K, under
  -- the opaque value of the request.
  pub msghandler-ping :
      (cs : List Codec) (h : Host V) (a k : ℕ) (msg : BinMessage) (echo rest : List ℕ)
      → msg.id ≡ msg_ping
      → data_of msg ≡ ping_bytes echo ++ rest
      → length echo < 2 ^ 16
      → Answerable cs h a (ping_msg echo) (ping_bytes echo) k
      → (h' : Host V) × (msghandler ops now h (some a) msg false ≡ returned h')
        × (h'.client.txch
            ≡ h.client.txch
              ++ response_frame cs h.client a (ping_msg echo) false (ping_bytes echo) ∷ [])
  unfolding msghandler answer
  msghandler-ping cs h a k msg echo rest named bytes short can =
      let (c', sends, queued, pooled, taken, counted, live, kept) =
        respond-handed cs h.client a k (ping_msg echo) false (ping_bytes echo) can.free can.room
          can.small can.ready in
      (
        record h { client = c' },
        rw (named, bytes, (ping_encode-decode echo [] rest short).1, sends) refl,
        queued,
      )

  -- A whoami is answered with the transport's own: where what came in is decoded, a response can be
  -- sent on the stream of the request and the transport is not closed, the handler returns, `doTx`
  -- is handed, to be flushed, the frame of the transport's own whoami under the opaque value of the
  -- request, the peer's version is known, and the count of exchanges, of which the handshake
  -- waits for two, is one more.
  pub msghandler-whoami :
      (cs : List Codec) (h : Host V) (a k : ℕ) (msg : BinMessage) (wai : Whoami V) (n : ℤ)
      (encoded : List ℕ)
      → msg.id ≡ msg_whoami
      → whoami_decode ops (data_of msg) ≡ ok (wai, n)
      → Answerable cs h a (sent_whoami ops h) encoded k
      → (h' : Host V) × (msghandler ops now h (some a) msg false ≡ returned h')
        × (h'.client.txch
            ≡ h.client.txch ++ response_frame cs h.client a (sent_whoami ops h) true encoded ∷ [])
        × (h'.peerver ≡ some wai.version)
        × (h'.xchngok ≡ add_uint64 h.xchngok 1)
  unfolding msghandler answer new_whoami
  msghandler-whoami cs h a k msg wai n encoded named decoded can =
      let (c', sends, queued, pooled, taken, counted, live, kept) =
        respond-handed cs h.client a k (sent_whoami ops h) true encoded can.free can.room can.small
          can.ready in
      (
        record h { client = c'; peerver = some wai.version; xchngok = add_uint64 h.xchngok 1 },
        rw (named, decoded, sends) refl,
        queued,
        refl,
        refl,
      )
