-- ===== src/Requests/Sends.antt =====
-- Request of transport.go up to the wait for the response.
use gofast.Base.{
  ℕ, suc, ◌-◌, ◌≤◌, ◌≡◌, ◌≢◌, refl, sym, subst, ap, ◌∙◌, Bool, true, false, List, [], ◌∷◌, ◌++◌,
  append-nil, Option, none, some, Result, ◌==◌, if◌then◌else◌, length, take_all, arith,
}
use gofast.Calls.{Call, returned, call_then, Client, getlocalstream}
use gofast.DoTx.{Txproto}
use gofast.Requests.{
  TxEnd, answered, closed_waiting, closed_sending, TxError, transport_closed, partial_write,
  write_failed, tx, send_sync, hand_back, request_open, stream_open,
}
use gofast.SyncRx.Loose.{write_other, write_same}
use gofast.SyncRx.{told, write}
use gofast.Tx.Frames.{Ready}
use gofast.Tx.Packet.{Codec, framed, payload}
use gofast.Tx.Sends.{Kind, Sends, requests, starts, send, kind_byte, count_sent, send-Sends}
use gofast.Tx.{Sent}
use gofast.Types.{Message, Stats, Stream, Transport}

-- Whether the call fails, where the packet has so many bytes.
abbrev pub tx_failed : ℕ → TxEnd → Option TxError
tx_failed size (answered n none) = if n == size then none else some partial_write
tx_failed size (answered n (some e)) = some (write_failed e)
tx_failed size (closed_waiting taken) = some transport_closed
tx_failed size (closed_sending taken) = some transport_closed

-- The command goes to `doTx` unless the transport was closed before.
abbrev pub queued_by : TxEnd → Txproto → List Txproto
queued_by (answered n err) arg = arg ∷ []
queued_by (closed_waiting taken) arg = arg ∷ []
queued_by (closed_sending taken) arg = []

abbrev pub sync_command : List ℕ → Bool → Txproto
sync_command bytes flush = record { packet = bytes; flush = flush; async = false }

tx_closed :
    (c : Client) (bytes : List ℕ) (flush taken : Bool) (k : ℕ)
    → c.txcmd ≡ suc k
    → tx c bytes flush (closed_sending taken) ≡ returned (c, some transport_closed)
unfolding tx
tx_closed c bytes flush taken k free = simp (free, tx)

tx-queued :
    (c : Client) (bytes : List ℕ) (flush : Bool) (end : TxEnd) (k : ℕ)
    → c.txcmd ≡ suc k
    → length bytes ≤ c.endpoint.transport.buffersize
    → tx c bytes flush end
      ≡ returned (
        record c { txch = c.txch ++ queued_by end (sync_command bytes flush) },
        tx_failed (length bytes) end,
      )
unfolding tx
tx-queued c bytes flush (answered n none) k free fits =
    simp (free, tx, take_all c.endpoint.transport.buffersize bytes fits)
tx-queued c bytes flush (answered n (some e)) k free fits =
    simp (free, tx, take_all c.endpoint.transport.buffersize bytes fits)
tx-queued c bytes flush (closed_waiting taken) k free fits =
    simp (free, tx, take_all c.endpoint.transport.buffersize bytes fits)
tx-queued c bytes flush (closed_sending taken) k free fits =
    tx_closed c bytes flush taken k free
    ∙ ap (λ (q : List Txproto). returned (record c { txch = q }, some transport_closed))
        (sym (append-nil c.txch))

-- The client behind a frame that was made of a message on the stream at an address.
abbrev sent_on : Client → ℕ → Stats → Stream → List ℕ → Bool → TxEnd → Client
sent_on c a stats s bytes flush end =
    let e = c.endpoint in
    record c {
      endpoint = record e {
        transport = record (e.transport) { stats = stats };
        heap = write e.heap a s;
      };
      txch = c.txch ++ queued_by end (sync_command bytes flush);
    }

send_sync-queued :
    (framing : Transport → Stream → List ℕ → Result Sent) (c : Client) (a : ℕ) (flush : Bool)
    (end : TxEnd) (k : ℕ) (stats : Stats) (bytes : List ℕ) (room : ℕ)
    → c.txcmd ≡ suc k
    → length bytes ≤ c.endpoint.transport.buffersize
    → (w : Sends
        (framing c.endpoint.transport (c.endpoint.heap a) ((c.endpoint.heap a).out))
        c.endpoint.transport
        stats
        (c.endpoint.heap a)
        bytes
        room)
    → send_sync framing c a flush end
      ≡ returned (
        sent_on c a stats
            (record (c.endpoint.heap a) { tagout = w.tagout; out = w.out })
            bytes
            flush
            end,
        tx_failed (length bytes) end,
      )
unfolding send_sync
send_sync-queued framing c a flush end k stats bytes room free fits w =
    rw (w.sends, w.wire) (tx-queued _ bytes flush end k free fits)

abbrev taken : Client → ℕ → List ℕ → ℕ → Client
taken c a rest callb =
    let e = c.endpoint in
    let s = record (e.heap a) { rxcallb = some callb } in
    record c {
      endpoint = record e { pool = rest; heap = write e.heap a s };
      rxch = c.rxch ++ told a ∷ [];
    }

getlocalstream-taken :
    (c : Client) (a : ℕ) (rest : List ℕ) (callb : ℕ)
    → c.endpoint.pool ≡ a ∷ rest
    → getlocalstream c true (some callb) ≡ returned (taken c a rest callb, a)
unfolding getlocalstream
getlocalstream-taken c a rest callb pooled = rw (pooled, getlocalstream)

-- What an open request leaves of the client: the stream is out of the pool, with its callback, and
-- the receiver is told of it.
pub record Opening (c : Client) (a : ℕ) (rest : List ℕ) (callb : ℕ) (c' : Client) : Type 0 where
  pub rxch : c'.rxch ≡ c.rxch ++ told a ∷ []
  pub pool : c'.endpoint.pool ≡ rest
  pub live : c'.endpoint.live ≡ c.endpoint.live
  pub events : c'.endpoint.events ≡ c.endpoint.events
  pub fresh : c'.endpoint.fresh ≡ c.endpoint.fresh
  pub rx_pool : c'.endpoint.rx_pool ≡ c.endpoint.rx_pool
  pub others : (b : ℕ) → b ≢ a → c'.endpoint.heap b ≡ c.endpoint.heap b
  pub callb_set : (c'.endpoint.heap a).rxcallb ≡ some callb
  pub opaque : (c'.endpoint.heap a).opaque ≡ (c.endpoint.heap a).opaque
  pub remote : (c'.endpoint.heap a).remote ≡ (c.endpoint.heap a).remote
  pub data_buf : (c'.endpoint.heap a).data_buf ≡ (c.endpoint.heap a).data_buf
  pub out_room : length ((c'.endpoint.heap a).out) ≡ length ((c.endpoint.heap a).out)
  pub tagout_room : length ((c'.endpoint.heap a).tagout) ≡ length ((c.endpoint.heap a).tagout)
  pub tagenc : c'.endpoint.transport.tagenc ≡ c.endpoint.transport.tagenc
  pub buffersize : c'.endpoint.transport.buffersize ≡ c.endpoint.transport.buffersize
  pub txcmd : c'.txcmd ≡ c.txcmd

-- The frame of a request on the stream.
abbrev pub request_bytes : List Codec → Client → ℕ → Message → List ℕ → List ℕ
request_bytes cs c a msg encoded =
    framed 0x81 ((c.endpoint.heap a).opaque) (payload msg.is_whoami cs msg.id encoded)

-- The first frame on a new stream, of a kind of its own.
abbrev pub first_bytes : Kind → List Codec → Client → ℕ → Message → List ℕ → List ℕ
first_bytes kind cs c a msg encoded =
    framed (kind_byte kind) ((c.endpoint.heap a).opaque) (payload msg.is_whoami cs msg.id encoded)

-- What Request and Stream have in common.
open_by : Kind → Client → Message → Bool → ℕ → TxEnd → Call (Client × ℕ × Option TxError)
open_by kind c msg flush callb end = call_then (getlocalstream c true (some callb)) (λ (c1, a).
    call_then (send_sync (λ t s out. send kind t msg s out) c1 a flush end)
      (λ (c2, err). returned (elim err [ none ↦ c2 | some e ↦ hand_back end c2 a ], a, err)))

open_by-Opening :
    (kind : Kind) (cs : List Codec) (c : Client) (a : ℕ) (rest : List ℕ) (k : ℕ) (msg : Message)
    (flush : Bool) (callb : ℕ) (end : TxEnd) (encoded : List ℕ)
    → c.endpoint.pool ≡ a ∷ rest
    → c.txcmd ≡ suc k
    → 4 ≤ length ((c.endpoint.heap a).out)
    → length ((c.endpoint.heap a).out) ≤ c.endpoint.transport.buffersize
    → Ready cs c.endpoint.transport msg
        (record (c.endpoint.heap a) { rxcallb = some callb })
        encoded
        (length ((c.endpoint.heap a).out) - 4)
    → (c' : Client) × Opening c a rest callb c'
      × (c'.txch
          ≡ c.txch ++ queued_by end (sync_command (first_bytes kind cs c a msg encoded) flush))
      × (open_by kind c msg flush callb end ≡ (
          let failed = tx_failed (length (first_bytes kind cs c a msg encoded)) end in
          returned (elim failed [ none ↦ c' | some e ↦ hand_back end c' a ], a, failed)))
unfolding open_by
open_by-Opening kind cs c a rest k msg flush callb end encoded pooled free room small ready =
    let t = c.endpoint.transport in
    let s : Stream = record (c.endpoint.heap a) { rxcallb = some callb } in
    let c1 = taken c a rest callb in
    let same : c1.endpoint.heap a ≡ s = write_same c.endpoint.heap a s in
    let s1 = c1.endpoint.heap a in
    let out_same : length s1.out ≡ length s.out = ap (λ (x : Stream). length x.out) same in
    let ready' : Ready cs t msg s1 encoded (length s1.out - 4) =
      subst (λ (x : Stream). Ready cs t msg x encoded (length (x.out) - 4)) (sym same) ready in
    let frame : Stream → List ℕ =
      λ (x : Stream). framed (kind_byte kind) x.opaque (payload msg.is_whoami cs msg.id encoded) in
    let bytes = frame s1 in
    let bytes_same : bytes ≡ first_bytes kind cs c a msg encoded = ap frame same in
    let w = send-Sends kind cs t msg s1 encoded s1.out (omega arith) ready' in
    let fits : length bytes ≤ t.buffersize = omega (arith, ready'.packet_fits) in
    let stats = count_sent kind t.stats in
    let s2 : Stream = record s1 { tagout = w.tagout; out = w.out } in
    let c2 = sent_on c1 a stats s2 bytes flush end in
    let same2 : c2.endpoint.heap a ≡ s2 = write_same c1.endpoint.heap a s2 in
    let sends =
      send_sync-queued (λ t s out. send kind t msg s out) c1 a flush end k stats bytes
        (length s1.out) free fits w in
    (
      c2,
      record {
        rxch = refl;
        pool = refl;
        live = refl;
        events = refl;
        fresh = refl;
        rx_pool = refl;
        others = λ b apart.
            write_other c1.endpoint.heap a s2 b apart ∙ write_other c.endpoint.heap a s b apart;
        callb_set = ap (λ (x : Stream). x.rxcallb) same2 ∙ ap (λ (x : Stream). x.rxcallb) same;
        opaque = ap (λ (x : Stream). x.opaque) same2 ∙ ap (λ (x : Stream). x.opaque) same;
        remote = ap (λ (x : Stream). x.remote) same2 ∙ ap (λ (x : Stream). x.remote) same;
        data_buf = ap (λ (x : Stream). x.data_buf) same2 ∙ ap (λ (x : Stream). x.data_buf) same;
        out_room = ap (λ (x : Stream). length x.out) same2 ∙ w.out_room ∙ out_same;
        tagout_room =
            ap (λ (x : Stream). length x.tagout) same2
            ∙ w.tagout_room
            ∙ ap (λ (x : Stream). length x.tagout) same;
        tagenc = refl;
        buffersize = refl;
        txcmd = refl;
      },
      ap (λ (l : List ℕ). c.txch ++ queued_by end (sync_command l flush)) bytes_same,
      rw (getlocalstream-taken c a rest callb pooled, sends)
          (ap
            (λ (l : List ℕ).
              let failed = tx_failed (length l) end in
              returned (elim failed [ none ↦ c2 | some e ↦ hand_back end c2 a ], a, failed))
            bytes_same),
    )

pub request_open-Opening :
    (cs : List Codec) (c : Client) (a : ℕ) (rest : List ℕ) (k : ℕ) (msg : Message) (flush : Bool)
    (callb : ℕ) (end : TxEnd) (encoded : List ℕ)
    → c.endpoint.pool ≡ a ∷ rest
    → c.txcmd ≡ suc k
    → 4 ≤ length ((c.endpoint.heap a).out)
    → length ((c.endpoint.heap a).out) ≤ c.endpoint.transport.buffersize
    → Ready cs c.endpoint.transport msg
        (record (c.endpoint.heap a) { rxcallb = some callb })
        encoded
        (length ((c.endpoint.heap a).out) - 4)
    → (c' : Client) × Opening c a rest callb c'
      × (c'.txch ≡ c.txch ++ queued_by end (sync_command (request_bytes cs c a msg encoded) flush))
      × (request_open c msg flush callb end ≡ (
          let failed = tx_failed (length (request_bytes cs c a msg encoded)) end in
          returned (elim failed [ none ↦ c' | some e ↦ hand_back end c' a ], a, failed)))
unfolding request_open open_by
request_open-Opening cs c a rest k msg flush callb end encoded pooled free room small ready =
    open_by-Opening requests cs c a rest k msg flush callb end encoded pooled free room small ready

-- The same of the first message of a stream, which is never to be flushed.
pub stream_open-Opening :
    (cs : List Codec) (c : Client) (a : ℕ) (rest : List ℕ) (k : ℕ) (msg : Message) (flush : Bool)
    (callb : ℕ) (end : TxEnd) (encoded : List ℕ)
    → c.endpoint.pool ≡ a ∷ rest
    → c.txcmd ≡ suc k
    → 4 ≤ length ((c.endpoint.heap a).out)
    → length ((c.endpoint.heap a).out) ≤ c.endpoint.transport.buffersize
    → Ready cs c.endpoint.transport msg
        (record (c.endpoint.heap a) { rxcallb = some callb })
        encoded
        (length ((c.endpoint.heap a).out) - 4)
    → (c' : Client) × Opening c a rest callb c'
      × (c'.txch
          ≡ c.txch ++ queued_by end (sync_command (first_bytes starts cs c a msg encoded) false))
      × (stream_open c msg flush (some callb) end ≡ (
          let failed = tx_failed (length (first_bytes starts cs c a msg encoded)) end in
          returned (elim failed [ none ↦ c' | some e ↦ hand_back end c' a ], a, failed)))
unfolding stream_open open_by
stream_open-Opening cs c a rest k msg flush callb end encoded pooled free room small ready =
    open_by-Opening starts cs c a rest k msg false callb end encoded pooled free room small ready
