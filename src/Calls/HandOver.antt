-- ===== src/Calls/HandOver.antt =====
-- What the calls hand to `doTx`.
use gofast.Base.{
  ℕ, suc, ◌-◌, ◌≤◌, ◌≡◌, refl, sym, subst, ap, ◌∙◌, Bool, true, false, List, [], ◌∷◌, ◌++◌, none,
  Result, ==_refl, length, take_all, arith,
}
use gofast.Calls.{returned, Client, getlocalstream, txasync, send_async, post_msg}
use gofast.DoTx.{Txproto}
use gofast.SyncRx.{Endpoint, write, putstream}
use gofast.Tx.Frames.{Ready}
use gofast.Tx.Packet.{Codec, framed, payload}
use gofast.Tx.Sends.{Sends, posts, send-Sends}
use gofast.Tx.{Sent, post}
use gofast.Types.{Message, Stats, Stream, Transport, add_uint64}

write_at : (heap : ℕ → Stream) (a : ℕ) (s : Stream) → write heap a s a ≡ s
write_at heap a s = rw (==_refl a)

-- The client with the stream at the front of the pool taken out.
abbrev taken : Client → ℕ → List ℕ → Client
taken c a rest =
    let e = c.endpoint in
    let s = record (e.heap a) { rxcallb = none } in
    record c { endpoint = record e { pool = rest; heap = write e.heap a s } }

-- The client behind a send that was handed over.
abbrev pub handed : Client → ℕ → Stats → Stream → List ℕ → Bool → ℕ → Client
handed c a stats s bytes flush k =
    let e = c.endpoint in
    let arg : Txproto = record { packet = bytes; flush = flush; async = true } in
    record c {
      endpoint = record e {
        transport = record (e.transport) { stats = stats };
        heap = write e.heap a s;
      };
      txch = c.txch ++ arg ∷ [];
      txcmd = k;
    }

txasync-queued :
    (c : Client) (bytes : List ℕ) (flush : Bool) (k : ℕ)
    → c.txcmd ≡ suc k
    → length bytes ≤ c.endpoint.transport.buffersize
    → txasync c bytes flush false
      ≡ returned (
        record c {
          txcmd = k;
          txch = c.txch ++ record { packet = bytes; flush = flush; async = true } ∷ [];
        },
        false,
      )
unfolding txasync
txasync-queued c bytes flush k free fits =
    rw (free, txasync, take_all c.endpoint.transport.buffersize bytes fits)

pub send_async-handed :
    (framing : Transport → Stream → List ℕ → Result Sent) (c : Client) (a : ℕ) (flush : Bool)
    (k : ℕ) (stats : Stats) (bytes : List ℕ) (room : ℕ)
    → c.txcmd ≡ suc k
    → length bytes ≤ c.endpoint.transport.buffersize
    → (w : Sends
        (framing c.endpoint.transport (c.endpoint.heap a) ((c.endpoint.heap a).out))
        c.endpoint.transport
        stats
        (c.endpoint.heap a)
        bytes
        room)
    → send_async framing c a flush false
      ≡ returned (
        handed c a stats
            (record (c.endpoint.heap a) { tagout = w.tagout; out = w.out })
            bytes
            flush
            k,
        false,
      )
unfolding send_async
send_async-handed framing c a flush k stats bytes room free fits w =
    rw (w.sends, w.wire) (txasync-queued _ bytes flush k free fits)

getlocalstream-taken :
    (c : Client) (a : ℕ) (rest : List ℕ)
    → c.endpoint.pool ≡ a ∷ rest
    → getlocalstream c false none ≡ returned (taken c a rest, a)
unfolding getlocalstream
getlocalstream-taken c a rest pooled = rw (pooled, getlocalstream)

putstream_local :
    (e : Endpoint) (a : ℕ)
    → (e.heap a).remote ≡ false
    → putstream e a ≡ record e { pool = e.pool ++ a ∷ [] }
unfolding putstream
putstream_local e a local = rw (local, putstream)

-- `t.Post(msg, flush)`, where a local stream and a command are free, the message can be sent on
-- that stream and its frame fits a command, and the transport is not closed: the call returns
-- without an error, `doTx` is handed exactly the frame of the post, the frame is counted, and the
-- stream, which was at the front of the pool, is back at its end.
pub post_msg-handed :
    (cs : List Codec) (c : Client) (a : ℕ) (rest : List ℕ) (k : ℕ) (msg : Message) (flush : Bool)
    (encoded : List ℕ)
    → c.endpoint.pool ≡ a ∷ rest
    → c.txcmd ≡ suc k
    → (c.endpoint.heap a).remote ≡ false
    → 4 ≤ length ((c.endpoint.heap a).out)
    → length ((c.endpoint.heap a).out) ≤ c.endpoint.transport.buffersize
    → Ready cs c.endpoint.transport msg
        (record (c.endpoint.heap a) { rxcallb = none })
        encoded
        (length ((c.endpoint.heap a).out) - 4)
    → (c' : Client) × (post_msg c msg flush false ≡ returned (c', false))
      × (c'.txch
          ≡ c.txch
            ++ record {
              packet =
                  framed 0xc6
                    ((c.endpoint.heap a).opaque)
                    (payload msg.is_whoami cs msg.id encoded);
              flush = flush;
              async = true;
            }
              ∷ [])
      × (c'.endpoint.pool ≡ rest ++ a ∷ [])
      × (c'.txcmd ≡ k)
      × (c'.endpoint.transport.stats.n_txpost ≡ add_uint64 c.endpoint.transport.stats.n_txpost 1)
unfolding post_msg
post_msg-handed cs c a rest k msg flush encoded pooled free local room small ready =
    let t = c.endpoint.transport in
    let s : Stream = record (c.endpoint.heap a) { rxcallb = none } in
    let c1 = taken c a rest in
    let same : c1.endpoint.heap a ≡ s = write_at c.endpoint.heap a s in
    let s1 = c1.endpoint.heap a in
    let out_same : length s1.out ≡ length s.out = ap (λ (x : Stream). length x.out) same in
    let ready' : Ready cs t msg s1 encoded (length s1.out - 4) =
      subst (λ (x : Stream). Ready cs t msg x encoded (length (x.out) - 4)) (sym same) ready in
    let bytes = framed 0xc6 s1.opaque (payload msg.is_whoami cs msg.id encoded) in
    let w = send-Sends posts cs t msg s1 encoded s1.out (omega arith) ready' in
    let fits : length bytes ≤ t.buffersize = omega (arith, ready'.packet_fits) in
    let stats = record (t.stats) { n_txpost = add_uint64 t.n_txpost 1 } in
    let s2 : Stream = record s1 { tagout = w.tagout; out = w.out } in
    let c2 = handed c1 a stats s2 bytes flush k in
    let local2 : (c2.endpoint.heap a).remote ≡ false =
      ap (λ (x : Stream). x.remote) (write_at c1.endpoint.heap a s2)
      ∙ ap (λ (x : Stream). x.remote) same
      ∙ local in
    let sends =
      send_async-handed (λ t s out. post t msg s out) c1 a flush k stats bytes (length s1.out) free
        fits w in
    (
      record c2 { endpoint = putstream c2.endpoint a },
      rw (getlocalstream-taken c a rest pooled, sends),
      ap
          (λ (x : Stream).
            c.txch
            ++ record {
              packet = framed 0xc6 x.opaque (payload msg.is_whoami cs msg.id encoded);
              flush = flush;
              async = true;
            }
              ∷ [])
          same,
      ap (λ (e : Endpoint). e.pool) (putstream_local c2.endpoint a local2),
      refl,
      ap (λ (e : Endpoint). e.transport.stats.n_txpost) (putstream_local c2.endpoint a local2),
    )
