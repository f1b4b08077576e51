-- ===== src/Bench/Streams.antt =====
-- A whole stream of the performance tool's client: doStreamTx of perf/client.go.
use gofast.Base.{
  ℕ, zero, suc, ◌+◌, ◌≡◌, refl, sym, ap, ◌∙◌, ==_refl, Bool, false, List, [], ◌∷◌, ◌++◌,
  append_assoc, append-nil, none, some, length, replicate, arith,
}
use gofast.Bench.Traffic.{stream_many, do_stream_tx}
use gofast.Calls.Streamed.{
  Streamable, Streamable-same, Streams, stream_command, close_command, stream_on-Streams,
  close_stream-Streams, Streams-trans,
}
use gofast.Calls.{returned, Client}
use gofast.DoTx.{Txproto}
use gofast.Requests.Sends.{sync_command, first_bytes, stream_open-Opening}
use gofast.Requests.{answered}
use gofast.SyncRx.{told}
use gofast.Tx.Packet.{Codec}
use gofast.Tx.Sends.{starts}
use gofast.Types.{Message}

-- No select takes the branch of `t.killch`.
abbrev pub open_all : ℕ → Bool
open_all j = false

-- The commands of a stream of `n` messages behind the first.
abbrev pub stream_commands : List Codec → Client → ℕ → Message → List ℕ → ℕ → List Txproto
stream_commands cs c a msg encoded n =
    let key = (c.endpoint.heap a).opaque in
    sync_command (first_bytes starts cs c a msg encoded) false
    ∷ (replicate n (stream_command cs key msg encoded false) ++ close_command key ∷ [])

module _ (cs : List Codec) (msg : Message) (encoded : List ℕ) (key a : ℕ) where
  stream_many-Streams :
      (n k : ℕ) (c : Client)
      → Streamable cs msg encoded key c.endpoint.transport (c.endpoint.heap a)
      → c.txcmd ≡ n + k
      → (c' : Client) × (stream_many c a msg n open_all ≡ returned c')
        × Streams cs msg encoded key a k
            (replicate n (stream_command cs key msg encoded false))
            c
            c'
  unfolding stream_many
  stream_many-Streams zero k c can free = (
    c,
    refl,
    record { txch = sym (append-nil c.txch); txcmd = free ∙ omega arith; again = can; rxch = refl },
  )
  stream_many-Streams (suc n) k c can free =
      let (c1, sends, first) =
        stream_on-Streams cs msg encoded key a c (n + k) false can (omega (arith, free)) in
      let (c2, runs, rest) = stream_many-Streams n k c1 first.again first.txcmd in
      (
        c2,
        rw sends runs,
        Streams-trans cs msg encoded key a (n + k) k (stream_command cs key msg encoded false ∷ [])
            (replicate n (stream_command cs key msg encoded false)) c c1 c2 first rest,
      )

-- What a caller leaves behind it that opened a stream and closed it again.
pub record Streamed (cs : List Codec) (c c' : Client) (a : ℕ) (msg : Message) (encoded : List ℕ)
    (n k : ℕ) : Type 0 where
  pub txch : c'.txch ≡ c.txch ++ stream_commands cs c a msg encoded n
  pub rxch : c'.rxch ≡ c.rxch ++ told a ∷ []
  pub txcmd : c'.txcmd ≡ k

pub do_stream_tx-Streamed :
    (cs : List Codec) (c : Client) (a : ℕ) (rest : List ℕ) (n k callb : ℕ) (msg : Message)
    (encoded : List ℕ)
    → c.endpoint.pool ≡ a ∷ rest
    → c.txcmd ≡ n + suc k
    → Streamable cs msg encoded
        ((c.endpoint.heap a).opaque)
        c.endpoint.transport
        (record (c.endpoint.heap a) { rxcallb = some callb })
    → (c' : Client) × (do_stream_tx c n msg callb
          (answered (length (first_bytes starts cs c a msg encoded)) none)
          open_all
          false
        ≡ returned (c', a))
      × Streamed cs c c' a msg encoded n k
unfolding do_stream_tx
do_stream_tx-Streamed cs c a rest n k callb msg encoded pooled free can =
    let key = (c.endpoint.heap a).opaque in
    let bytes = first_bytes starts cs c a msg encoded in
    let (c1, o, queued, opens) =
      stream_open-Opening cs c a rest (n + k) msg false callb (answered (length bytes) none) encoded
        pooled (omega (arith, free)) can.room can.small can.ready in
    let opened : Streamable cs msg encoded key c1.endpoint.transport (c1.endpoint.heap a) =
      Streamable-same cs msg encoded key c.endpoint.transport c1.endpoint.transport
        (record (c.endpoint.heap a) { rxcallb = some callb }) (c1.endpoint.heap a) o.tagenc
        o.buffersize o.opaque o.data_buf o.out_room o.tagout_room can in
    let (c2, runs, many) =
      stream_many-Streams cs msg encoded key a n (suc k) c1 opened (o.txcmd ∙ free) in
    let (c3, closes, last) = close_stream-Streams cs msg encoded key a c2 k many.again many.txcmd in
    let w =
      Streams-trans cs msg encoded key a (suc k) k
        (replicate n (stream_command cs key msg encoded false)) (close_command key ∷ []) c1 c2 c3
        many last in
    (
      c3,
      rw (opens, ==_refl (length bytes), runs, closes) refl,
      record {
        txch =
            w.txch
            ∙ ap
                (λ (l : List Txproto).
                  l
                  ++ (replicate n (stream_command cs key msg encoded false)
                      ++ close_command key ∷ []))
                queued
            ∙ append_assoc c.txch (sync_command bytes false ∷ [])
                (replicate n (stream_command cs key msg encoded false) ++ close_command key ∷ []);
        rxch = w.rxch ∙ o.rxch;
        txcmd = w.txcmd;
      },
    )
