-- ===== src/Exchange/Pipe.antt =====
-- doTx of go_tx.go into doRx of go_rx.go at the other end of the connection.
use gofast.Base.{
  ℕ, ◌≤◌, ◌<◌, ◌≡◌, refl, sym, ap, ◌∙◌, Bool, true, false, List, [], ◌∷◌, ◌++◌, append-nil, Option,
  none, subst, ok, length, map, All,
}
use gofast.DoRx.Conversation.{Frame, wires, frame_delivered, Fit, Fit-behind, do_rx-delivered}
use gofast.DoRx.{do_rx}
use gofast.DoTx.Batches.{bytes_of, joined, answered}
use gofast.DoTx.Order.{Waiting, do_tx-Serves}
use gofast.DoTx.Accepted.{Clean, do_tx-Clean}
use gofast.DoTx.{Txproto, Reply, Sender, reply_all, do_tx}
use gofast.Exchange.{arriving}
use gofast.Rx.{Error, Receiver, eof}

-- The flag of the last command.
flush_of : List Txproto → Bool
flush_of [] = false
flush_of (x ∷ []) = x.flush
flush_of (x ∷ y ∷ xs) = flush_of (y ∷ xs)

flush_of-append :
    (xs : List Txproto) (b : Txproto) (bs : List Txproto)
    → flush_of (xs ++ b ∷ bs) ≡ flush_of (b ∷ bs)
unfolding flush_of
flush_of-append [] b bs = refl
flush_of-append (x ∷ []) b bs = refl
flush_of-append (x ∷ y ∷ xs) b bs = flush_of-append (y ∷ xs) b bs

flush_of_patient :
    (bs : List Txproto) → All (λ (arg : Txproto). arg.flush ≡ false) bs → flush_of bs ≡ false
unfolding flush_of
flush_of_patient [] h = refl
flush_of_patient (b ∷ []) h = h.0
flush_of_patient (b ∷ c ∷ bs) h = flush_of_patient (c ∷ bs) h.1

-- Where the last command is to be flushed, a batch in which none is cannot end in it.
batch_empty :
    (xs ys bs : List Txproto) (last : Txproto)
    → xs ++ bs ≡ ys ++ last ∷ []
    → All (λ (arg : Txproto). arg.flush ≡ false) bs
    → last.flush ≡ true
    → bs ≡ []
unfolding flush_of
batch_empty xs ys [] last e patient f = refl
batch_empty xs ys (b ∷ bs) last e patient f =
    let quiet : flush_of (xs ++ b ∷ bs) ≡ false =
      flush_of-append xs b bs ∙ flush_of_patient (b ∷ bs) patient in
    let loud : flush_of (xs ++ b ∷ bs) ≡ true = ap flush_of e ∙ flush_of-append ys last [] ∙ f in
    absurd (cc (quiet, loud))

-- A sender that has nothing behind it.
pub record Idle (s : Sender) : Type 0 where
  pub waiting : Waiting s
  pub sent : s.sent ≡ []
  pub batch : s.batch ≡ []
  pub replies : s.replies ≡ []

-- What comes of commands that hold the frames of `ss`, at both ends.
pub record Carries (conn_write : List (List ℕ) → List ℕ → ℕ × Option Error) (s : Sender)
    (args : List Txproto) (rounds fuel : ℕ) (r : Receiver) (ss : List Frame) : Type 0 where
  pub after : Sender
  pub last : Receiver
  pub sends : do_tx conn_write s args ≡ ok after
  pub batch : after.batch ≡ []
  pub replies : after.replies ≡ reply_all none args
  pub receives : do_rx rounds fuel (arriving r after.sent) ≡ ok (map frame_delivered ss, last, eof)

module _ (conn_write : List (List ℕ) → List ℕ → ℕ × Option Error)
    (full : (sent : List (List ℕ)) (bs : List ℕ) → conn_write sent bs ≡ (length bs, none)) where
  -- From one end of the connection to the other: where the connection takes all that is written to
  -- it and hands it on, and the commands that come to an idle `doTx` hold frames that the receiver
  -- has the decoders and the room for, each command fits a buffer and the last is to be flushed,
  -- `doTx` writes all of them and answers each command, in order, without an error; and `doRx` at
  -- the other end delivers the messages and the ends of streams of all the frames, in order, under
  -- the flags and the opaque values that they were sent with, however the frames were batched.
  pub do_tx-do_rx :
      (s : Sender) (args : List Txproto) (last : Txproto) (rounds fuel : ℕ) (r : Receiver)
      (ss : List Frame)
      → Idle s
      → All (λ arg. length arg.packet ≤ s.transport.buffersize) (args ++ last ∷ [])
      → last.flush ≡ true
      → bytes_of (args ++ last ∷ []) ≡ wires ss
      → length ss < rounds
      → All (Fit fuel r) ss
      → Carries conn_write s (args ++ last ∷ []) rounds fuel r ss
  do_tx-do_rx s args last rounds fuel r ss idle small flush frames enough fit =
      let all = args ++ last ∷ [] in
      let (s', runs, w) = do_tx-Serves conn_write s all idle.waiting small in
      let none_before : answered s.replies ++ s.batch ≡ [] = rw (idle.replies, idle.batch) refl in
      let answers : answered s'.replies ++ s'.batch ≡ all =
        w.answers ∙ ap (λ (l : List Txproto). l ++ all) none_before in
      let emptied : s'.batch ≡ [] =
        batch_empty (answered s'.replies) args s'.batch last answers w.waiting.patient flush in
      let whom : answered s'.replies ≡ all =
        sym (append-nil (answered s'.replies))
        ∙ ap (λ (l : List Txproto). answered s'.replies ++ l) (sym emptied)
        ∙ answers in
      let (s2, again, clean) =
        do_tx-Clean conn_write full s all idle.waiting small (
          idle.replies ∙ ap (λ (l : List Reply). reply_all none (answered l)) (sym idle.replies)) in
      let same : s2 ≡ s' = cc (runs, again) in
      let input : joined s'.sent ≡ wires ss =
        sym (append-nil (joined s'.sent))
        ∙ ap (λ (l : List Txproto). joined s'.sent ++ bytes_of l) (sym emptied)
        ∙ w.written
        ∙ ap (λ (x : List (List ℕ)). (joined x ++ bytes_of s.batch) ++ bytes_of all) idle.sent
        ∙ ap (λ (x : List Txproto). bytes_of x ++ bytes_of all) idle.batch
        ∙ frames in
      let (end, got, emptied_input) =
        do_rx-delivered rounds fuel (arriving r s'.sent) ss enough
          (Fit-behind fuel r (arriving r s'.sent).conn r.transport.stats r.tagouts (λ k. refl) ss
            fit)
          input refl in
      record {
        after = s';
        last = end;
        sends = runs;
        batch = emptied;
        replies = subst Clean same clean ∙ ap (reply_all none) whom;
        receives = got;
      }
