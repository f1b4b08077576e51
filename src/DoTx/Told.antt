-- ===== src/DoTx/Told.antt =====
-- Whom `doTx` answers, and what it tells of the write.
use gofast.Base.{
  ℕ, ◌≡◌, refl, sym, ap, ◌∙◌, Bool, true, false, List, [], ◌∷◌, ◌++◌, append_assoc, append-nil, ◌⊎◌,
  inl, inr, Option, none, ◌==◌, Bool-cases, if◌then◌else◌, length, All, arith,
}
use gofast.DoTx.Batches.{bytes_of}
use gofast.DoTx.{Txproto, Reply, to_sender, to_pool, reply_all, send_bytes}
use gofast.Rx.{Error}

module _ (conn_write : List (List ℕ) → List ℕ → ℕ × Option Error) where
  -- Bytes that stand in one of the writes made, of which the connection took all.
  abbrev pub Taken : List (List ℕ) → List ℕ → Type 0
  Taken sent packet =
      (before after : List (List ℕ)) × (bs front back : List ℕ) × (sent ≡ before ++ bs ∷ after)
      × (bs ≡ front ++ (packet ++ back))
      × (conn_write before bs ≡ (length bs, none))

  -- What a command is answered: its length, and no error only where the connection took it.
  abbrev pub Outcome : List (List ℕ) → Txproto → ℕ → Option Error → Type 0
  Outcome sent arg n err =
      (n ≡ length arg.packet) × (err ≡ none → (arg.packet ≡ []) ⊎ Taken sent arg.packet)

  -- The sender is answered if it waits, and the pool gets the command back if it does not.
  abbrev pub IsTold : List (List ℕ) → Reply → Type 0
  IsTold sent (to_sender arg n err) = (arg.async ≡ false) × Outcome sent arg n err
  IsTold sent (to_pool arg n err) = (arg.async ≡ true) × Outcome sent arg n err

  Outcome-grow :
      (sent more : List (List ℕ)) (arg : Txproto) (n : ℕ) (err : Option Error)
      → Outcome sent arg n err
      → Outcome (sent ++ more) arg n err
  Outcome-grow sent more arg n err (count, taken) = (
    count,
    λ e. elim (taken e) [
      | inl empty ↦ inl empty
      | inr (before, after, bs, front, back, stands, holds, took) ↦ inr (
        before,
        after ++ more,
        bs,
        front,
        back,
        ap (λ (l : List (List ℕ)). l ++ more) stands ∙ append_assoc before (bs ∷ after) more,
        holds,
        took,
      )
    ],
  )

  pub IsTold-grow :
      (sent more : List (List ℕ)) (r : Reply) → IsTold sent r → IsTold (sent ++ more) r
  IsTold-grow sent more (to_sender arg n err) (h, o) = (h, Outcome-grow sent more arg n err o)
  IsTold-grow sent more (to_pool arg n err) (h, o) = (h, Outcome-grow sent more arg n err o)

  send_bytes-accepted :
      (sent : List (List ℕ)) (bs : List ℕ)
      → (send_bytes conn_write sent bs).2 ≡ none
      → (bs ≡ [])
        ⊎ (((send_bytes conn_write sent bs).0 ≡ sent ++ bs ∷ [])
            × (conn_write sent bs ≡ (length bs, none)))
  unfolding send_bytes
  send_bytes-accepted sent [] e = inl refl
  send_bytes-accepted sent (b ∷ bs) e =
      let (m, err) = conn_write sent (b ∷ bs) in
      elim (Bool-cases (m == length (b ∷ bs))) [
        | inl y ↦
            let all : m ≡ length (b ∷ bs) = ground (arith, y) in
            let fine : err ≡ none = rw y at e in inr (refl, cc (all, fine))
        | inr n ↦ absurd (cc (rw n at e))
      ]

  packet_empty : (front packet back : List ℕ) → front ++ (packet ++ back) ≡ [] → packet ≡ []
  packet_empty [] [] back e = refl
  packet_empty [] (b ∷ bs) back e = absurd cc
  packet_empty (b ∷ bs) packet back e = absurd cc

  reply-IsTold :
      (sent : List (List ℕ)) (arg : Txproto) (err : Option Error) (async : Bool)
      → arg.async ≡ async
      → Outcome sent arg (length arg.packet) err
      → IsTold sent (
          if async
          then to_pool arg (length arg.packet) err
          else to_sender arg (length arg.packet) err)
  reply-IsTold sent arg err true h o = (h, o)
  reply-IsTold sent arg err false h o = (h, o)

  -- The commands of a batch are told of the one write that is made of their bytes.
  pub reply_all-IsTold :
      (sent : List (List ℕ)) (bs front : List ℕ) (batch : List Txproto)
      → bs ≡ front ++ bytes_of batch
      → All
          (IsTold ((send_bytes conn_write sent bs).0))
          (reply_all ((send_bytes conn_write sent bs).2) batch)
  reply_all-IsTold sent bs front [] e = tt
  reply_all-IsTold sent bs front (arg ∷ batch) e = (
    reply-IsTold _ arg _ (arg.async) refl (
      refl,
      λ fine. elim (send_bytes-accepted sent bs fine) [
        | inl none_there ↦ inl (packet_empty front arg.packet (bytes_of batch) (sym e ∙ none_there))
        | inr (calls, took) ↦ inr (sent, [], bs, front, bytes_of batch, calls, e, took)
      ],
    ),
    reply_all-IsTold sent bs (front ++ arg.packet) batch
        (e ∙ sym (append_assoc front arg.packet (bytes_of batch))),
  )

  pub send_bytes-more :
      (sent : List (List ℕ)) (bs : List ℕ)
      → (more : List (List ℕ)) × ((send_bytes conn_write sent bs).0 ≡ sent ++ more)
  unfolding send_bytes
  send_bytes-more sent [] = ([], sym (append-nil sent))
  send_bytes-more sent (b ∷ bs) = ((b ∷ bs) ∷ [], refl)
