-- ===== src/Calls.antt =====
-- The calls that send without waiting: Post of transport.go, Response, Stream and Close of
-- stream.go, with getlocalstream, fromtxpool and txasync. A channel takes all that is sent on it.
pub mod HandOver
pub mod Respond
pub mod Streamed
use gofast.Base.{
  ℕ, zero, suc, Bool, true, false, List, [], ◌∷◌, ◌++◌, Option, none, some, Result, ok, panic,
  stuck, ◌>>=◌, if◌then◌else◌, take,
}
use gofast.Bytes.{slice_to}
use gofast.DoTx.{Txproto}
use gofast.SyncRx.{Endpoint, RxItem, told, write, putstream}
use gofast.Tx.{Sent, post, response, stream_msg, finish}
use gofast.Types.{Message, Stream, Transport}

-- What a call comes to; it blocks where a receive finds nothing in a channel.
pub data Call {ℓ} (A : Type ℓ) : Type ℓ where
  returned : A → Call A
  panicked : Call A
  blocked : Call A

abbrev pub call_then {ℓ κ} : {A : Type ℓ} {B : Type κ} → Call A → (A → Call B) → Call B
call_then (returned a) f = f a
call_then panicked f = panicked
call_then blocked f = blocked

abbrev pub run {ℓ} : {A : Type ℓ} → Result A → Call A
run (ok a) = returned a
run panic = panicked
run stuck = blocked

-- The endpoint with its channels: `txcmd` is the number of free commands in `t.pTxcmd`.
pub record Client : Type 0 where
  pub endpoint : Endpoint
  pub rxch : List RxItem
  pub txch : List Txproto
  pub txcmd : ℕ

-- The `putch` of `tellrx` takes `t.rxch`: the call is one that starts while `t.killch` is open.
unfoldable pub getlocalstream : Client → Bool → Option ℕ → Call (Client × ℕ)
getlocalstream c tellrx rxcallb = elim c.endpoint.pool [
  | [] ↦ blocked
  | a ∷ rest ↦
      (let e = c.endpoint in
        let s = record (e.heap a) { rxcallb = rxcallb } in
        let e' = record e { pool = rest; heap = write e.heap a s } in
        let rxch = if tellrx then c.rxch ++ told a ∷ [] else c.rxch in
        returned (record c { endpoint = e'; rxch = rxch }, a))
]

-- `txasync(out, flush)`: whether it returns an error. `killed` is the choice of the select, which
-- may take the branch of `t.killch` only where that is closed. The command is then lost.
unfoldable pub txasync : Client → List ℕ → Bool → Bool → Call (Client × Bool)
txasync c out flush killed = elim c.txcmd [
  | zero ↦ blocked
  | suc k ↦
      (let size = c.endpoint.transport.buffersize in
        let arg : Txproto = record { packet = take size out; flush = flush; async = true } in
        if killed
        then returned (record c { txcmd = k }, true)
        else returned (record c { txcmd = k; txch = c.txch ++ arg ∷ [] }, false))
]

-- `n := t.post(msg, stream, stream.out)` and the like, then `txasync(stream.out[:n], flush)`.
unfoldable pub send_async :
    (Transport → Stream → List ℕ → Result Sent) → Client → ℕ → Bool → Bool → Call (Client × Bool)
send_async framing c a flush killed =
    let e = c.endpoint in
    let s = e.heap a in
    call_then (run (framing e.transport s s.out)) (λ (t', s', out, n).
      call_then (run (slice_to out n)) (λ bytes.
        let heap = write e.heap a (record s' { out = out }) in
        txasync (record c { endpoint = record e { transport = t'; heap = heap } }) bytes flush
          killed))

-- `t.Post(msg, flush)`
unfoldable pub post_msg : Client → Message → Bool → Bool → Call (Client × Bool)
post_msg c msg flush killed = call_then (getlocalstream c false none) (λ (c1, a).
    call_then (send_async (λ t s out. post t msg s out) c1 a flush killed)
      (λ (c2, err). returned (record c2 { endpoint = putstream c2.endpoint a }, err)))

-- `s.Response(msg, flush)` on the stream at an address, which goes to `t.pRxstrm`.
unfoldable pub respond : Client → ℕ → Message → Bool → Bool → Call (Client × Bool)
respond c a msg flush killed =
    call_then (send_async (λ t s out. response t msg s out) c a flush killed) (λ (c', err).
      let e = c'.endpoint in
      returned (record c' { endpoint = record e { rx_pool = a ∷ e.rx_pool } }, err))

-- `s.Stream(msg, flush)`
unfoldable pub stream_on : Client → ℕ → Message → Bool → Bool → Call (Client × Bool)
stream_on c a msg flush killed = send_async (λ t s out. stream_msg t msg s out) c a flush killed

-- `s.Close()`
unfoldable pub close_stream : Client → ℕ → Bool → Call (Client × Bool)
close_stream c a killed = send_async finish c a true killed
