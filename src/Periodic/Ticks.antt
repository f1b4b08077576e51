-- ===== src/Periodic/Ticks.antt =====
-- What a tick of SendHeartbeat of go_heartbeat.go hands to `doTx`.
use gofast.Base.{
  ℕ, suc, ◌+◌, ◌-◌, ◌%◌, ◌^◌, ◌≤◌, ◌≡◌, refl, true, false, List, [], ◌∷◌, ◌++◌, none, some, length,
}
use gofast.Bytes.Words.{be64}
use gofast.Calls.HandOver.{post_msg-handed}
use gofast.Calls.{returned, Client}
use gofast.Periodic.{heartbeat_tick}
use gofast.Setup.{heartbeat_msg}
use gofast.Tx.Frames.{Ready}
use gofast.Tx.Packet.{Codec, framed, payload}

-- A tick where a local stream and a command are free, the heartbeat can be sent on that stream and the
-- transport is not closed: `doTx` is handed, to be flushed, a post of the heartbeat with the count,
-- the stream goes to the end of the pool, and the count of the next tick is one more.
pub heartbeat_tick-handed :
    (cs : List Codec) (c : Client) (a : ℕ) (rest : List ℕ) (k count : ℕ)
    → c.endpoint.pool ≡ a ∷ rest
    → c.txcmd ≡ suc k
    → (c.endpoint.heap a).remote ≡ false
    → 4 ≤ length ((c.endpoint.heap a).out)
    → length ((c.endpoint.heap a).out) ≤ c.endpoint.transport.buffersize
    → Ready cs c.endpoint.transport
        (heartbeat_msg count)
        (record (c.endpoint.heap a) { rxcallb = none })
        (be64 count)
        (length ((c.endpoint.heap a).out) - 4)
    → (c' : Client) × (heartbeat_tick c count false false
        ≡ returned (c', some ((count + 1) % 2 ^ 64)))
      × (c'.txch
          ≡ c.txch
            ++ record {
              packet =
                  framed 0xc6
                    ((c.endpoint.heap a).opaque)
                    (payload false cs (heartbeat_msg count).id (be64 count));
              flush = true;
              async = true;
            }
              ∷ [])
      × (c'.endpoint.pool ≡ rest ++ a ∷ [])
unfolding heartbeat_tick
heartbeat_tick-handed cs c a rest k count pooled free local room small ready =
    let (c', sends, queued, back, taken, counted) =
      post_msg-handed cs c a rest k (heartbeat_msg count) true (be64 count) pooled free local room
        small ready in
    (c', rw sends refl, queued, back)
