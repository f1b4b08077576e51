-- ===== src/DoTx/Accepted.antt =====
-- What `doTx` answers where the connection takes all that is written to it.
use gofast.Base.{
  ℕ, ◌≤◌, ◌≡◌, refl, sym, subst, ap, ◌∙◌, Bool, true, false, ◌||◌, List, [], ◌∷◌, ◌++◌, Option,
  none, ok, leb, inl, inr, Bool-cases, ==_refl, length, All,
}
use gofast.DoTx.Batches.{answered, answered-append, answered-reply_all}
use gofast.DoTx.Order.{Waiting, batch_fits, drained, drainbuffers-drained, tx_step-Serves}
use gofast.DoTx.{Txproto, Reply, Sender, reply, reply_all, send_bytes, tx_step, do_tx}
use gofast.Rx.{Error}

reply_all-append :
    (err : Option Error) (xs ys : List Txproto)
    → reply_all err (xs ++ ys) ≡ reply_all err xs ++ reply_all err ys
reply_all-append err [] ys = refl
reply_all-append err (x ∷ xs) ys =
    ap (λ (l : List Reply). reply err x ∷ l) (reply_all-append err xs ys)

-- All answers were without an error.
abbrev pub Clean : Sender → Type 0
Clean s = s.replies ≡ reply_all none (answered s.replies)

or_true : (b : Bool) → (b || true) ≡ true
or_true true = refl
or_true false = refl

module _ (conn_write : List (List ℕ) → List ℕ → ℕ × Option Error)
    (full : (sent : List (List ℕ)) (bs : List ℕ) → conn_write sent bs ≡ (length bs, none)) where
  send_bytes_full : (sent : List (List ℕ)) (bs : List ℕ) → (send_bytes conn_write sent bs).2 ≡ none
  unfolding send_bytes
  send_bytes_full sent [] = refl
  send_bytes_full sent (b ∷ bs) = rw (full sent (b ∷ bs), ==_refl (length (b ∷ bs))) refl

  drained-Clean : (s : Sender) → Clean s → Clean (drained conn_write s)
  unfolding drained
  drained-Clean s h = rw (send_bytes_full s.sent _) (
      ap (λ (l : List Reply). l ++ reply_all none s.batch) h
      ∙ sym (reply_all-append none (answered s.replies) s.batch)
      ∙ ap (λ (l : List Txproto). reply_all none (answered s.replies ++ l))
          (sym (answered-reply_all none s.batch))
      ∙ ap (reply_all none) (sym (answered-append s.replies (reply_all none s.batch))))

  tx_step-Clean :
      (s : Sender) (arg : Txproto)
      → Waiting s
      → length arg.packet ≤ s.transport.buffersize
      → Clean s
      → (s' : Sender) × (tx_step conn_write s arg ≡ ok s') × Clean s'
  unfolding tx_step
  tx_step-Clean s arg w h c =
      let s1 = record s { batch = s.batch ++ arg ∷ [] } in
      elim (Bool-cases (arg.flush || leb s.transport.batchsize (length s1.batch))) [
        | inl go ↦ (
          drained conn_write s1,
          rw go (drainbuffers-drained conn_write s1 (batch_fits s arg w h)),
          drained-Clean s1 c,
        )
        | inr stay ↦ (s1, rw stay, c)
      ]

  -- Then so does every command that comes in.
  pub do_tx-Clean :
      (s : Sender) (args : List Txproto)
      → Waiting s
      → All (λ arg. length arg.packet ≤ s.transport.buffersize) args
      → Clean s
      → (s' : Sender) × (do_tx conn_write s args ≡ ok s') × Clean s'
  unfolding do_tx
  do_tx-Clean s [] w h c = (s, refl, c)
  do_tx-Clean s (arg ∷ args) w h c =
      let (s1, steps, first) = tx_step-Serves conn_write s arg w h.0 in
      let (s2, again, clean) = tx_step-Clean s arg w h.0 c in
      let same : s2 ≡ s1 = cc (steps, again) in
      let (s3, runs, rest) =
        do_tx-Clean s1 args first.waiting (rw first.same_buffersize h.1) (subst Clean same clean) in
      (s3, rw steps runs, rest)

  -- Where a batch is one command, an idle `doTx` answers it at once, to the sender that waits.
  pub tx_step-alone :
      (s : Sender) (arg : Txproto)
      → Waiting s
      → s.batch ≡ []
      → s.replies ≡ []
      → s.transport.batchsize ≡ 1
      → length arg.packet ≤ s.transport.buffersize
      → (s' : Sender) × (tx_step conn_write s arg ≡ ok s') × (s'.replies ≡ reply none arg ∷ [])
  unfolding tx_step drained
  tx_step-alone s arg w none_before quiet one h =
      let s1 = record s { batch = s.batch ++ arg ∷ [] } in
      let alone : s.batch ++ arg ∷ [] ≡ arg ∷ [] =
        ap (λ (l : List Txproto). l ++ arg ∷ []) none_before in
      let full_batch : leb s.transport.batchsize (length s1.batch) ≡ true =
        rw (one, ap length alone) refl in
      (
        drained conn_write s1,
        rw (full_batch, or_true arg.flush)
            (drainbuffers-drained conn_write s1 (batch_fits s arg w h)),
        rw (send_bytes_full s.sent _, quiet, alone) refl,
      )
