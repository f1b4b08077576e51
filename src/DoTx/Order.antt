-- ===== src/DoTx/Order.antt =====
-- What `doTx` writes, and whom it answers.
use native.Mathlib.Nat.{mul-le-mul_right}
use gofast.Base.{
  ℕ, ◌+◌, ◌*◌, ◌≤◌, ◌<◌, ◌≡◌, refl, sym, ap, ◌∙◌, Bool, true, false, ◌||◌, List, [], ◌∷◌, ◌++◌,
  append_assoc, append-nil, Option, ok, leb, inl, inr, Bool-cases, length, length-append, All,
  All-append, All-map, subst, arith,
}
use gofast.Bytes.Written.{overwrite, slice_to-overwrite, length-overwrite}
use gofast.DoTx.{Txproto, Reply, Sender, reply_all, send_bytes, drainbuffers, tx_step, do_tx}
use gofast.DoTx.Told.{IsTold, IsTold-grow, reply_all-IsTold, send_bytes-more}
use gofast.Rx.{Error}
use gofast.Types.{add_uint64}
use gofast.DoTx.Batches.{
  bytes_of, joined, answered, non_empty, bytes_of-append, joined-append, answered-append,
  answered-reply_all, consolidate-overwrite, length-bytes_of,
}

-- The loop between two rounds: the buffer is as it was made, each packet fits in its part of it,
-- and the batch waits for more.
pub record Waiting (s : Sender) : Type 0 where
  pub room : length s.tcpwrite_buf ≡ s.transport.batchsize * s.transport.buffersize
  pub fits : All (λ arg. length arg.packet ≤ s.transport.buffersize) s.batch
  pub short : length s.batch < s.transport.batchsize
  pub patient : All (λ (arg : Txproto). arg.flush ≡ false) s.batch

-- What became of the commands `args` that came in between `s` and `s'`.
pub record Serves (conn_write : List (List ℕ) → List ℕ → ℕ × Option Error) (s s' : Sender)
    (args : List Txproto) : Type 0 where
  pub waiting : Waiting s'
  pub same_buffersize : s'.transport.buffersize ≡ s.transport.buffersize
  pub written :
      joined s'.sent ++ bytes_of s'.batch ≡ (joined s.sent ++ bytes_of s.batch) ++ bytes_of args
  pub answers : answered s'.replies ++ s'.batch ≡ (answered s.replies ++ s.batch) ++ args
  pub told :
      (news : List Reply) × (more : List (List ℕ)) × (s'.replies ≡ s.replies ++ news)
      × (s'.sent ≡ s.sent ++ more)
      × All (IsTold conn_write s'.sent) news

pub batch_fits :
    (s : Sender) (arg : Txproto)
    → Waiting s
    → length arg.packet ≤ s.transport.buffersize
    → length (bytes_of (s.batch ++ arg ∷ [])) ≤ length s.tcpwrite_buf
batch_fits s arg w h =
    let size = s.transport.buffersize in
    let batch = s.batch ++ arg ∷ [] in
    let count : length batch ≤ s.transport.batchsize =
      omega (arith, length-append s.batch (arg ∷ []), w.short) in
    omega (
      arith,
      length-bytes_of size batch (
          All-append (λ (arg : Txproto). length arg.packet ≤ size) s.batch (arg ∷ []) w.fits
            (h, tt)),
      mul-le-mul_right size count,
      w.room,
    )

or_false : (a b : Bool) → (a || b) ≡ false → (a ≡ false) × (b ≡ false)
or_false true b e = absurd cc
or_false false b e = (refl, e)

module _ (conn_write : List (List ℕ) → List ℕ → ℕ × Option Error) where
  joined-send_bytes :
      (sent : List (List ℕ)) (bs : List ℕ)
      → joined ((send_bytes conn_write sent bs).0) ≡ joined sent ++ bs
  unfolding send_bytes
  joined-send_bytes sent [] = sym (append-nil (joined sent))
  joined-send_bytes sent (b ∷ bs) =
      joined-append sent ((b ∷ bs) ∷ [])
      ∙ ap (λ (x : List ℕ). joined sent ++ x) (append-nil (b ∷ bs))

  unfoldable pub drained : Sender → Sender
  drained s =
      let bytes = bytes_of s.batch in
      let (sent, m, err) = send_bytes conn_write s.sent bytes in
      let t = s.transport in
      let stats = record (t.stats) {
        n_flushes = add_uint64 t.n_flushes 1;
        n_tx = add_uint64 t.n_tx (0 + non_empty s.batch);
        n_txbyte = add_uint64 t.n_txbyte m;
      } in
      record {
        transport = record t { stats = stats };
        batch = [];
        tcpwrite_buf = overwrite bytes s.tcpwrite_buf;
        sent = sent;
        replies = s.replies ++ reply_all err s.batch;
      }

  pub drainbuffers-drained :
      (s : Sender)
      → length (bytes_of s.batch) ≤ length s.tcpwrite_buf
      → drainbuffers conn_write s ≡ ok (drained s)
  unfolding drainbuffers drained
  drainbuffers-drained s h = rw (
    consolidate-overwrite s.batch [] s.tcpwrite_buf 0 h,
    slice_to-overwrite (bytes_of s.batch) s.tcpwrite_buf h,
  )

  drained-Serves :
      (s : Sender) (arg : Txproto)
      → Waiting s
      → length arg.packet ≤ s.transport.buffersize
      → Serves conn_write s (drained (record s { batch = s.batch ++ arg ∷ [] })) (arg ∷ [])
  unfolding drained
  drained-Serves s arg w h =
      let batch = s.batch ++ arg ∷ [] in
      let err = (send_bytes conn_write s.sent (bytes_of batch)).2 in
      record {
        waiting = record {
          room = length-overwrite (bytes_of batch) s.tcpwrite_buf (batch_fits s arg w h) ∙ w.room;
          fits = tt;
          short = omega (arith, w.short);
          patient = tt;
        };
        same_buffersize = refl;
        written =
            append-nil _
            ∙ joined-send_bytes s.sent (bytes_of batch)
            ∙ ap (λ (x : List ℕ). joined s.sent ++ x) (bytes_of-append s.batch (arg ∷ []))
            ∙ sym (append_assoc (joined s.sent) (bytes_of s.batch) (bytes_of (arg ∷ [])));
        answers =
            append-nil _
            ∙ answered-append s.replies (reply_all err batch)
            ∙ ap (λ (x : List Txproto). answered s.replies ++ x) (answered-reply_all err batch)
            ∙ sym (append_assoc (answered s.replies) s.batch (arg ∷ []));
        told =
            let (more, grown) = send_bytes-more conn_write s.sent (bytes_of batch) in
            (
              reply_all err batch,
              more,
              refl,
              grown,
              reply_all-IsTold conn_write s.sent (bytes_of batch) [] batch refl,
            );
      }

  kept-Serves :
      (s : Sender) (arg : Txproto)
      → Waiting s
      → length arg.packet ≤ s.transport.buffersize
      → arg.flush ≡ false
      → length (s.batch ++ arg ∷ []) < s.transport.batchsize
      → Serves conn_write s (record s { batch = s.batch ++ arg ∷ [] }) (arg ∷ [])
  kept-Serves s arg w h f short = record {
    waiting = record {
      room = w.room;
      fits =
          All-append (λ (arg : Txproto). length arg.packet ≤ s.transport.buffersize) s.batch
            (arg ∷ []) w.fits (h, tt);
      short = short;
      patient =
          All-append (λ (arg : Txproto). arg.flush ≡ false) s.batch (arg ∷ []) w.patient (f, tt);
    };
    same_buffersize = refl;
    written =
        ap (λ (x : List ℕ). joined s.sent ++ x) (bytes_of-append s.batch (arg ∷ []))
        ∙ sym (append_assoc (joined s.sent) (bytes_of s.batch) (bytes_of (arg ∷ [])));
    answers = sym (append_assoc (answered s.replies) s.batch (arg ∷ []));
    told = ([], [], sym (append-nil s.replies), sym (append-nil s.sent), tt);
  }

  pub tx_step-Serves :
      (s : Sender) (arg : Txproto)
      → Waiting s
      → length arg.packet ≤ s.transport.buffersize
      → (s' : Sender) × (tx_step conn_write s arg ≡ ok s') × Serves conn_write s s' (arg ∷ [])
  unfolding tx_step
  tx_step-Serves s arg w h =
      let s1 = record s { batch = s.batch ++ arg ∷ [] } in
      elim (Bool-cases (arg.flush || leb s.transport.batchsize (length s1.batch))) [
        | inl go ↦ (
          drained s1,
          rw go (drainbuffers-drained s1 (batch_fits s arg w h)),
          drained-Serves s arg w h,
        )
        | inr stay ↦
            let both = or_false arg.flush (leb s.transport.batchsize (length s1.batch)) stay in
            (s1, rw stay, kept-Serves s arg w h both.0 (ground (arith, both.1)))
      ]

  Serves-trans :
      (s s' s'' : Sender) (args args' : List Txproto)
      → Serves conn_write s s' args
      → Serves conn_write s' s'' args'
      → Serves conn_write s s'' (args ++ args')
  Serves-trans s s' s'' args args' a b = record {
    waiting = b.waiting;
    same_buffersize = b.same_buffersize ∙ a.same_buffersize;
    written =
        b.written
        ∙ ap (λ (x : List ℕ). x ++ bytes_of args') a.written
        ∙ append_assoc (joined s.sent ++ bytes_of s.batch) (bytes_of args) (bytes_of args')
        ∙ ap (λ (x : List ℕ). (joined s.sent ++ bytes_of s.batch) ++ x)
            (sym (bytes_of-append args args'));
    answers =
        b.answers
        ∙ ap (λ (x : List Txproto). x ++ args') a.answers
        ∙ append_assoc (answered s.replies ++ s.batch) args args';
    told =
        let (news, more, replies, grown, all) = a.told in
        let (news', more', replies', grown', all') = b.told in
        let older =
          All-map (IsTold conn_write s'.sent) (IsTold conn_write (s'.sent ++ more')) news
            (λ r h. IsTold-grow conn_write s'.sent more' r h) all in
        (
          news ++ news',
          more ++ more',
          replies'
              ∙ ap (λ (l : List Reply). l ++ news') replies
              ∙ append_assoc s.replies news news',
          grown' ∙ ap (λ (l : List (List ℕ)). l ++ more') grown ∙ append_assoc s.sent more more',
          All-append (IsTold conn_write s''.sent) news news'
              (subst (λ (l : List (List ℕ)). All (IsTold conn_write l) news) (sym grown') older)
              all',
        );
  }

  -- Whatever the connection answers to a write, and whatever commands come in whose packets fit a
  -- buffer, `doTx` returns: the bytes handed to `conn.Write` and those of the batch are the bytes of
  -- the packets, each once and in order; each command is answered once and in order, but for those
  -- of the batch; a command that a sender waits for is answered to its sender, and one that no
  -- sender waits for goes to the pool; the count told is the packet's length, and where no error is
  -- told the packet is empty or stands in a write that the connection took in full; and the batch
  -- that waits is shorter than `batchsize` and holds no command to flush.
  pub do_tx-Serves :
      (s : Sender) (args : List Txproto)
      → Waiting s
      → All (λ arg. length arg.packet ≤ s.transport.buffersize) args
      → (s' : Sender) × (do_tx conn_write s args ≡ ok s') × Serves conn_write s s' args
  unfolding do_tx
  do_tx-Serves s [] w h = (
    s,
    refl,
    record {
      waiting = w;
      same_buffersize = refl;
      written = sym (append-nil _);
      answers = sym (append-nil _);
      told = ([], [], sym (append-nil s.replies), sym (append-nil s.sent), tt);
    },
  )
  do_tx-Serves s (arg ∷ args) w h =
      let (s1, steps, first) = tx_step-Serves s arg w h.0 in
      let (s2, runs, rest) = do_tx-Serves s1 args first.waiting (rw first.same_buffersize h.1) in
      (s2, rw steps runs, Serves-trans s s1 s2 (arg ∷ []) args first rest)
