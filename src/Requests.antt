-- ===== src/Requests.antt =====
-- The calls that wait for `doTx`: tx of tx.go, Request and Stream of transport.go. A call is cut where
-- it waits for another goroutine, and what that answers is an argument.
pub mod Sends
pub mod Cycle
pub mod Leak
use gofast.Base.{
  ℕ, zero, suc, Bool, true, false, List, [], ◌∷◌, ◌++◌, Option, none, some, Result, ◌==◌,
  if◌then◌else◌, length, take,
}
use gofast.Bytes.{slice_to}
use gofast.Calls.{Call, returned, blocked, call_then, run, Client, getlocalstream}
use gofast.DoTx.{Txproto}
use gofast.Rx.{Error}
use gofast.SyncRx.{told, write}
use gofast.Tx.{Sent, request, start}
use gofast.Types.{Message, Stream, Transport}

-- How the selects of `tx` go: the answer of `doTx`, or `t.killch`, behind the send on `t.txch` or
-- before it. A closed `t.killch` is ready for good, so that the select of a `putch` behind that may
-- take it too: the flag says whether that select takes `t.rxch`.
pub data TxEnd : Type 0 where
  answered : ℕ → Option Error → TxEnd
  closed_waiting closed_sending : Bool → TxEnd

pub data TxError : Type 0 where
  transport_closed partial_write : TxError
  write_failed : Error → TxError

-- `tx(out, flush)`: the command is back in `t.pTxcmd` when it returns.
unfoldable pub tx : Client → List ℕ → Bool → TxEnd → Call (Client × Option TxError)
tx c out flush end = elim c.txcmd [
  | zero ↦ blocked
  | suc k ↦
      (let size = c.endpoint.transport.buffersize in
        let arg : Txproto = record { packet = take size out; flush = flush; async = false } in
        let queued = record c { txch = c.txch ++ arg ∷ [] } in
        elim end [
          | closed_sending taken ↦ returned (c, some transport_closed)
          | closed_waiting taken ↦ returned (queued, some transport_closed)
          | answered n err ↦ elim err [
            | some e ↦ returned (queued, some (write_failed e))
            | none ↦ returned (queued, if n == length arg.packet then none else some partial_write)
          ]
        ])
]

-- `n := t.request(msg, stream, stream.out)` and the like, then `tx(stream.out[:n], flush)`.
unfoldable pub send_sync :
    (Transport → Stream → List ℕ → Result Sent)
    → Client
    → ℕ
    → Bool
    → TxEnd
    → Call (Client × Option TxError)
unfolding tx
send_sync framing c a flush end =
    let e = c.endpoint in
    let s = e.heap a in
    call_then (run (framing e.transport s s.out)) (λ (t', s', out, n).
      call_then (run (slice_to out n)) (λ bytes.
        let heap = write e.heap a (record s' { out = out }) in
        tx (record c { endpoint = record e { transport = t'; heap = heap } }) bytes flush end))

-- `t.putstream(stream.opaque, stream, true)` while `t.killch` is open, where `t.rxch` takes it.
abbrev pub tell_rx : Client → ℕ → Client
tell_rx c a = record c { rxch = c.rxch ++ told a ∷ [] }

-- Whether the `putch` behind a `tx` takes `t.rxch`.
abbrev pub takes_rx : TxEnd → Bool
takes_rx (answered n err) = true
takes_rx (closed_waiting taken) = taken
takes_rx (closed_sending taken) = taken

-- `t.putstream(stream.opaque, stream, true)` behind a `tx` that failed.
abbrev pub hand_back : TxEnd → Client → ℕ → Client
hand_back end c a = if takes_rx end then tell_rx c a else c

-- `t.Request(msg, flush, resp)` up to the wait for the response, whose callback is `callb`. An error
-- ends the call, and the stream is handed back.
unfoldable pub request_open :
    Client → Message → Bool → ℕ → TxEnd → Call (Client × ℕ × Option TxError)
unfolding send_sync
request_open c msg flush callb end = call_then (getlocalstream c true (some callb)) (λ (c1, a).
    call_then (send_sync (λ t s out. request t msg s out) c1 a flush end)
      (λ (c2, err). returned (elim err [ none ↦ c2 | some e ↦ hand_back end c2 a ], a, err)))

-- The rest of `t.Request`, once the callback has closed `donech`.
unfoldable pub request_close : Client → ℕ → Client
request_close c a =
    let e = c.endpoint in
    let heap = write e.heap a (record (e.heap a) { rxcallb = none }) in
    tell_rx (record c { endpoint = record e { heap = heap } }) a

-- `t.Stream(msg, flush, rxcallb)`: the flush flag is not looked at.
unfoldable pub stream_open :
    Client → Message → Bool → Option ℕ → TxEnd → Call (Client × ℕ × Option TxError)
unfolding send_sync
stream_open c msg flush rxcallb end = call_then (getlocalstream c true rxcallb) (λ (c1, a).
    call_then (send_sync (λ t s out. start t msg s out) c1 a false end)
      (λ (c2, err). returned (elim err [ none ↦ c2 | some e ↦ hand_back end c2 a ], a, err)))
