-- ===== src/Responses/Unanswered.antt =====
-- Calls to which no response comes: what the end of syncRx in go_syncrx.go tells their callbacks.
use gofast.Base.{
  ℕ, zero, suc, ◌+◌, ◌≡◌, ◌≢◌, refl, sym, ap, ◌∙◌, Bool, true, false, List, [], ◌∷◌, ◌++◌,
  append_assoc, append-nil, Option, none, some, Result, ok, panic, ◌==◌, ==_refl, ==→ne, ne→==,
  ==_iff, inl, inr, Bool-cases, Option-cases, All, map, replicate, arith, subst,
}
use native.Mathlib.Nat.{zero-add, suc-add}
use gofast.Bytes.{get_uint16, index}
use gofast.Messages.{VersionOps, Whoami, ping_decode, whoami_decode}
use gofast.Responses.{waiting_for, on_response, on_responses, ping_into, whoami_into}
use gofast.SyncRx.Order.{Held, stream_msgs, sync_run-told_to}
use gofast.SyncRx.Aside.{told_to, told_to-append}
use gofast.SyncRx.{
  Endpoint, RxItem, called, told, packet, log, call_stream, tell_all, flushrxch, sync_run, sync_rx,
}
use gofast.Types.{BinMessage, no_message, RxPacket, Stream, find_key}

-- What a callback is told at the end.
abbrev pub the_end : BinMessage × Bool
the_end = (no_message, false)

replicate-append :
    {A : Type 0} (n m : ℕ) (x : A) → replicate n x ++ replicate m x ≡ replicate (n + m) x
replicate-append zero m x = rw zero-add refl
replicate-append (suc n) m x = rw suc-add (ap (◌∷◌ x) (replicate-append n m x))

-- The callback of the stream at an address hears of the end `n` times and nothing else, and no
-- stream changes.
record Ends (a n : ℕ) (e e' : Endpoint) : Type 0 where
  pub heap : e'.heap ≡ e.heap
  pub told : told_to a e'.events ≡ told_to a e.events ++ replicate n the_end

module _ (a : ℕ) where
  Ends-trans :
      {e e' e'' : Endpoint} (n m : ℕ) → Ends a n e e' → Ends a m e' e'' → Ends a (n + m) e e''
  Ends-trans {e} n m p q = record {
    heap = q.heap ∙ p.heap;
    told =
        q.told
        ∙ ap (λ (l : List (BinMessage × Bool)). l ++ replicate m the_end) p.told
        ∙ append_assoc (told_to a e.events) (replicate n the_end) (replicate m the_end)
        ∙ ap (λ (l : List (BinMessage × Bool)). told_to a e.events ++ l)
            (replicate-append n m the_end);
  }

  Ends-refl : (e : Endpoint) → Ends a 0 e e
  Ends-refl e = record { heap = refl; told = sym (append-nil (told_to a e.events)) }

  -- The stream itself, with its callback set.
  own-Ends :
      (e : Endpoint) (c : ℕ)
      → (e.heap a).rxcallb ≡ some c
      → Ends a 1 e (call_stream e a no_message false)
  own-Ends e c set =
      rw (set, call_stream)
        (record {
          heap = refl;
          told = told_to-append a e.events (called a c no_message false ∷ []) ∙ rw (==_refl a) refl;
        })

  other-Ends : (e : Endpoint) (b c : ℕ) → b ≢ a → Ends a 0 e (log e (called b c no_message false))
  other-Ends e b c apart = record {
    heap = refl;
    told = told_to-append a e.events (called b c no_message false ∷ []) ∙ rw (ne→== b a apart) refl;
  }

  any-Ends : (e : Endpoint) (b : ℕ) → (n : ℕ) × Ends a n e (call_stream e b no_message false)
  any-Ends e b = elim (Option-cases ((e.heap b).rxcallb)) [
    | inl unset ↦ (0, rw (unset, call_stream) (Ends-refl e))
    | inr (c, set) ↦ elim (Bool-cases (b == a)) [
      | inl same ↦
          let eq : b ≡ a = (==_iff b a).0 same in
          (
            1,
            subst (λ (x : ℕ). Ends a 1 e (call_stream e x no_message false)) (sym eq)
                (own-Ends e c (ap (λ (x : ℕ). (e.heap x).rxcallb) (sym eq) ∙ set)),
          )
      | inr apart ↦ (0, rw (set, call_stream) (other-Ends e b c (==→ne b a apart)))
    ]
  ]

  tell_all-Ends : (e : Endpoint) (l : List (ℕ × ℕ)) → (n : ℕ) × Ends a n e (tell_all e l)
  unfolding tell_all
  tell_all-Ends e [] = (0, Ends-refl e)
  tell_all-Ends e ((j, b) ∷ l) =
      let (n, first) = any-Ends e b in
      let (m, rest) = tell_all-Ends (call_stream e b no_message false) l in
      (n + m, Ends-trans n m first rest)

  flushrxch-Ends : (e : Endpoint) (items : List RxItem) → (n : ℕ) × Ends a n e (flushrxch e items)
  unfolding flushrxch
  flushrxch-Ends e [] = (0, Ends-refl e)
  flushrxch-Ends e (told b ∷ items) =
      let (n, first) = any-Ends e b in
      let (m, rest) = flushrxch-Ends (call_stream e b no_message false) items in
      (n + m, Ends-trans n m first rest)
  flushrxch-Ends e (packet pkt ∷ items) = flushrxch-Ends e items

  -- A live stream is told at least once.
  tell_all-told :
      (e : Endpoint) (k c : ℕ) (l : List (ℕ × ℕ))
      → find_key k l ≡ some a
      → (e.heap a).rxcallb ≡ some c
      → (n : ℕ) × Ends a (suc n) e (tell_all e l)
  unfolding tell_all
  tell_all-told e k c [] found set = absurd (cc found)
  tell_all-told e k c ((j, b) ∷ l) found set = elim (Bool-cases (j == k)) [
    | inl here ↦
        let eq : b ≡ a = cc (rw here at found) in
        let (m, rest) = tell_all-Ends (call_stream e b no_message false) l in
        let one : 1 + m ≡ suc m = omega arith in
        let first : Ends a 1 e (call_stream e b no_message false) =
          subst (λ (x : ℕ). Ends a 1 e (call_stream e x no_message false)) (sym eq)
            (own-Ends e c set) in
        (
          m,
          subst (λ (i : ℕ). Ends a i e (tell_all (call_stream e b no_message false) l)) one
              (Ends-trans 1 m first rest),
        )
    | inr there ↦
        let (n, first) = any-Ends e b in
        let (m, rest) =
          tell_all-told (call_stream e b no_message false) k c l (rw there at found)
            (ap (λ (h : ℕ → Stream). (h a).rxcallb) first.heap ∙ set) in
        let more : n + suc m ≡ suc (n + m) = omega arith in
        (
          n + m,
          subst (λ (i : ℕ). Ends a i e (tell_all (call_stream e b no_message false) l)) more
              (Ends-trans n (suc m) first rest),
        )
  ]

no_msgs :
    (k : ℕ) (pkts : List RxPacket)
    → All (λ (p : RxPacket). p.opaque ≢ k) pkts
    → stream_msgs k pkts ≡ []
no_msgs k [] h = refl
no_msgs k (p ∷ pkts) h = rw (ne→== p.opaque k h.0) (no_msgs k pkts h.1)

none_ends :
    (k : ℕ) (pkts : List RxPacket)
    → All (λ (p : RxPacket). p.opaque ≢ k) pkts
    → All (λ (p : RxPacket). p.opaque ≡ k → p.finish ≡ false) pkts
none_ends k [] h = tt
none_ends k (p ∷ pkts) h = ((λ same. absurd (h.0 same)), none_ends k pkts h.1)

ping_into_nothing : (old : List ℕ) → ping_into old [] ≡ panic
unfolding ping_into ping_decode get_uint16
ping_into_nothing old = refl

whoami_into_nothing :
    {V : Type 0} (ops : VersionOps V) (old : Whoami V) → whoami_into ops old [] ≡ panic
unfolding whoami_into whoami_decode index
whoami_into_nothing ops old = refl

-- A callback that decodes nothing breaks at the end, and one without a `resp` closes `donech`.
ends_panic :
    {A : Type 0} (decode : A → List ℕ → Result A) (resp : A) (n : ℕ)
    → decode resp [] ≡ panic
    → on_responses decode (waiting_for (some resp)) (replicate (suc n) the_end) ≡ panic
unfolding on_responses on_response
ends_panic decode resp n breaks = rw breaks refl

ends_done :
    {A : Type 0} (decode : A → List ℕ → Result A) (done : Bool) (n : ℕ)
    → on_responses decode (record { resp = none; done = done }) (replicate (suc n) the_end)
      ≡ ok (record { resp = none; done = true })
unfolding on_responses on_response
ends_done decode done zero = refl
ends_done decode done (suc n) = ends_done decode true n

-- A request to which no response comes: while a stream is live with its callback set, no packet
-- comes under its opaque value, and the transport is then closed, with whatever is left in
-- `t.rxch`, its callback is told that nothing more comes, at least once, and nothing else. On that,
-- the callback of a ping and that of a whoami panic, whatever they held, since they decode no
-- bytes; and the callback of a request that expects no message closes `donech`, as it does for a
-- response.
pub sync_rx_unanswered :
    {V : Type 0} (ops : VersionOps V) (reply : ℕ → Option ℕ → BinMessage → Option ℕ) (k a c : ℕ)
    (e : Endpoint) (pkts : List RxPacket) (left : List RxItem) (echo : List ℕ) (wai : Whoami V)
    → Held k a c e
    → All (λ (p : RxPacket). p.opaque ≢ k) pkts
    → (n : ℕ) × (told_to a (sync_rx reply e (map packet pkts) left).events
        ≡ told_to a e.events ++ replicate (suc n) the_end)
      × (on_responses ping_into (waiting_for (some echo)) (replicate (suc n) the_end) ≡ panic)
      × (on_responses (whoami_into ops) (waiting_for (some wai)) (replicate (suc n) the_end)
          ≡ panic)
      × (on_responses ping_into (waiting_for none) (replicate (suc n) the_end)
          ≡ ok (record { resp = none; done = true }))
unfolding sync_rx
sync_rx_unanswered ops reply k a c e pkts left echo wai held apart =
    let (held', said, _) = sync_run-told_to k a c reply e pkts held (none_ends k pkts apart) in
    let e1 = sync_run reply e (map packet pkts) in
    let (n, ended) = tell_all-told a e1 k c e1.live held'.live held'.callb in
    let (m, flushed) = flushrxch-Ends a (tell_all e1 e1.live) left in
    let all = Ends-trans a (suc n) m ended flushed in
    let count : suc n + m ≡ suc (n + m) = omega arith in
    (
      n + m,
      all.told
          ∙ ap (λ (l : List (BinMessage × Bool)). l ++ replicate (suc n + m) the_end)
              (said
                ∙ ap (λ (l : List (BinMessage × Bool)). told_to a e.events ++ l)
                    (no_msgs k pkts apart)
                ∙ append-nil (told_to a e.events))
          ∙ ap (λ (i : ℕ). told_to a e.events ++ replicate i the_end) count,
      ends_panic ping_into echo (n + m) (ping_into_nothing echo),
      ends_panic (whoami_into ops) wai (n + m) (whoami_into_nothing ops wai),
      ends_done ping_into false (n + m),
    )
