-- ===== src/DoTx.antt =====
-- go_tx.go with the `txproto` of tx.go: packets are collected in a batch and written to the
-- connection at once. One command at a time comes out of `t.txch`.
pub mod Batches
pub mod Told
pub mod Order
pub mod Accepted
use gofast.Base.{
  ℕ, zero, suc, ◌+◌, ◌*◌, Bool, true, false, ◌||◌, List, [], ◌∷◌, ◌++◌, Option, none, some, Result,
  ok, ◌>>=◌, ltb, leb, ◌==◌, if◌then◌else◌, length,
}
use gofast.Bytes.{copy_in, emit, slice_to}
use gofast.Rx.{Error, other}
use gofast.Types.{Stats, Transport, add_uint64}
use gofast.Base.{codes}

-- What of a command `doTx` reads; `packet` is what the sender copied into it.
pub record Txproto : Type 0 where
  pub packet : List ℕ
  pub flush : Bool
  pub async : Bool

-- A command that is handed back, to its sender or to the pool `t.pTxcmd`, with `arg.n` and `arg.err`.
pub data Reply : Type 0 where
  to_sender to_pool : Txproto → ℕ → Option Error → Reply

-- The state of `doTx`. `sent` lists the arguments of the calls of `conn.Write`, and `replies` what
-- was handed back, each in order.
pub record Sender : Type 0 where
  pub transport : Transport
  pub batch : List Txproto
  pub tcpwrite_buf : List ℕ
  pub sent : List (List ℕ)
  pub replies : List Reply

-- What `drainbuffers` has consolidated: the buffer, `n`, and the packets counted.
unfoldable pub consolidate : List Txproto → List ℕ × ℕ × ℕ → Result (List ℕ × ℕ × ℕ)
consolidate [] st = ok st
consolidate (arg ∷ batch) (buf, n, packets) =
    if ltb 0 (length arg.packet)
    then (emit (copy_in arg.packet) (buf, n) >>= λ (buf', n').
        consolidate batch (buf', n', packets + 1))
    else consolidate batch (buf, n, packets)

-- `wrote only %d, expected %d`, less the numbers.
abbrev pub wrote_only : Error
wrote_only = other (codes "wrote only")

abbrev pub reply : Option Error → Txproto → Reply
reply err arg =
    if arg.async then to_pool arg (length arg.packet) err else to_sender arg (length arg.packet) err

abbrev pub reply_all : Option Error → List Txproto → List Reply
reply_all err [] = []
reply_all err (arg ∷ batch) = reply err arg ∷ reply_all err batch

-- `conn.Write` is the environment's: what it answers to a write, after those before.
module _ (conn_write : List (List ℕ) → List ℕ → ℕ × Option Error) where
  -- The write of `n` bytes, when there are any: the calls made, `m` and `err`.
  unfoldable pub send_bytes : List (List ℕ) → List ℕ → List (List ℕ) × ℕ × Option Error
  send_bytes sent [] = (sent, 0, none)
  send_bytes sent (b ∷ bs) =
      let (m, err) = conn_write sent (b ∷ bs) in
      (sent ++ (b ∷ bs) ∷ [], m, if m == length (b ∷ bs) then err else some wrote_only)

  unfoldable pub drainbuffers : Sender → Result Sender
  drainbuffers s = do
    (buf, n, packets) ← consolidate s.batch (s.tcpwrite_buf, 0, 0)
    bytes ← slice_to buf n
    let (sent, m, err) = send_bytes s.sent bytes
    let t = s.transport
    let stats = record (t.stats) {
      n_flushes = add_uint64 t.n_flushes 1;
      n_tx = add_uint64 t.n_tx packets;
      n_txbyte = add_uint64 t.n_txbyte m;
    }
    ok (record {
      transport = record t { stats = stats };
      batch = [];
      tcpwrite_buf = buf;
      sent = sent;
      replies = s.replies ++ reply_all err s.batch;
    })

  -- One round of the loop, on what came out of `t.txch`.
  unfoldable pub tx_step : Sender → Txproto → Result Sender
  tx_step s arg =
      let s' = record s { batch = s.batch ++ arg ∷ [] } in
      if arg.flush || leb s.transport.batchsize (length s'.batch) then drainbuffers s' else ok s'

  -- `doTx` on what is received before `t.killch` is closed.
  unfoldable pub do_tx : Sender → List Txproto → Result Sender
  do_tx s [] = ok s
  do_tx s (arg ∷ args) = tx_step s arg >>= λ s'. do_tx s' args
