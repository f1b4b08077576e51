-- ===== src/Requests/Leak.antt =====
-- A request of transport.go that fails, with what syncRx of go_syncrx.go does of its stream.
use gofast.Base.{
  ℕ, suc, ◌-◌, ◌≤◌, ◌≡◌, refl, ap, ◌∙◌, Bool, true, List, [], ◌∷◌, ◌++◌, append_assoc, Option, some,
  length,
}
use gofast.Calls.{returned, Client}
use gofast.Requests.Cycle.{streamupdate_started}
use gofast.Requests.Sends.{tx_failed, request_bytes, request_open-Opening}
use gofast.Requests.{TxEnd, TxError, takes_rx, tell_rx, request_open}
use gofast.SyncRx.{Endpoint, told, sync_step, sync_run}
use gofast.Tx.Frames.{Ready}
use gofast.Tx.Packet.{Codec}
use gofast.Types.Keys.{find-insert_same}
use gofast.Types.{BinMessage, Message, find_key, insert_key}

-- Told of a stream whose callback is set, however often, the receiver has it live.
told_twice :
    (reply : ℕ → Option ℕ → BinMessage → Option ℕ) (e : Endpoint) (a callb k : ℕ)
    → (e.heap a).rxcallb ≡ some callb
    → (e.heap a).opaque ≡ k
    → let e' = sync_run reply e (told a ∷ told a ∷ []) in
      (find_key k e'.live ≡ some a) × (e'.pool ≡ e.pool)
unfolding sync_run sync_step
told_twice reply e a callb k set named =
    let live = insert_key ((e.heap a).opaque) a e.live in
    let e1 = record e { live = live } in
    rw (streamupdate_started e a callb set, streamupdate_started e1 a callb set)
      (ap (λ j. find_key k (insert_key j a live)) named ∙ find-insert_same k a live, refl)

module _ (reply : ℕ → Option ℕ → BinMessage → Option ℕ) (a callb : ℕ) where
  -- A request that fails loses its stream: where a local stream and a command are free and the
  -- request can be sent on that stream, but `doTx` answers with an error or another count, or the
  -- transport is closed during the call and the select that hands the stream back takes `t.rxch`, which is
  -- open to it as well, the call returns that error, and the receiver is told of the stream twice.
  -- A receiver that takes both out has the stream live, though no response can come, and the
  -- stream is not back in the pool.
  pub request_open-fails :
      (cs : List Codec) (c : Client) (rest : List ℕ) (k : ℕ) (msg : Message) (flush : Bool)
      (encoded : List ℕ) (end : TxEnd) (err : TxError)
      → c.endpoint.pool ≡ a ∷ rest
      → c.txcmd ≡ suc k
      → 4 ≤ length ((c.endpoint.heap a).out)
      → length ((c.endpoint.heap a).out) ≤ c.endpoint.transport.buffersize
      → Ready cs c.endpoint.transport msg
          (record (c.endpoint.heap a) { rxcallb = some callb })
          encoded
          (length ((c.endpoint.heap a).out) - 4)
      → tx_failed (length (request_bytes cs c a msg encoded)) end ≡ some err
      → takes_rx end ≡ true
      → (c' : Client) × (request_open c msg flush callb end ≡ returned (c', a, some err))
        × (c'.rxch ≡ c.rxch ++ told a ∷ told a ∷ [])
        × (let e = sync_run reply c'.endpoint (told a ∷ told a ∷ []) in
            (find_key ((c.endpoint.heap a).opaque) e.live ≡ some a) × (e.pool ≡ rest))
  request_open-fails cs c rest k msg flush encoded end err pooled free room small ready failed
        takes =
      let (c0, w, queued, opens) =
        request_open-Opening cs c a rest k msg flush callb end encoded pooled free room small
          ready in
      let lost = told_twice reply c0.endpoint a callb _ w.callb_set w.opaque in
      (
        tell_rx c0 a,
        opens ∙ rw (failed, takes) refl,
        rw w.rxch (append_assoc c.rxch (told a ∷ []) (told a ∷ [])),
        (lost.0, lost.1 ∙ w.pool),
      )
