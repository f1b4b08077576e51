-- ===== src/SyncRx/Aside.antt =====
-- What a round of the loop of `syncRx` leaves alone of a stream that it is not about.
use gofast.Base.{
  ℕ, ◌≡◌, ◌≢◌, refl, sym, ap, ◌∙◌, Bool, false, not, List, [], ◌∷◌, ◌++◌, append-nil, Option, some,
  ◌==◌, ne→==, inl, inr, if◌then◌else◌, Bool-cases, Option-cases,
}
use gofast.SyncRx.Pool.{Inv, All-find_key}
use gofast.SyncRx.{
  Endpoint, Event, called, handled, log, putstream, call_stream, handle_finish, handle_live,
}
use gofast.Types.Keys.{find-delete_other}
use gofast.Types.{BinMessage, no_message, RxPacket, Transport, find_key}

-- The calls of the callback of the stream at an address.
abbrev pub told_to : ℕ → List Event → List (BinMessage × Bool)
told_to a [] = []
told_to a (called b c msg good ∷ events) =
    let rest = told_to a events in if b == a then (msg, good) ∷ rest else rest
told_to a (handled h s msg ∷ events) = told_to a events

pub told_to-append :
    (a : ℕ) (xs ys : List Event) → told_to a (xs ++ ys) ≡ told_to a xs ++ told_to a ys
told_to-append a [] ys = refl
told_to-append a (called b c msg good ∷ xs) ys = elim (Bool-cases (b == a)) [
  | inl t ↦ rw t (ap (λ (l : List (BinMessage × Bool)). (msg, good) ∷ l) (told_to-append a xs ys))
  | inr f ↦ rw f (told_to-append a xs ys)
]
told_to-append a (handled h s msg ∷ xs) ys = told_to-append a xs ys

-- What a step that is about another stream leaves alone.
pub record Aside (k a : ℕ) (e e' : Endpoint) : Type 0 where
  pub live : find_key k e'.live ≡ find_key k e.live
  pub stream : e'.heap a ≡ e.heap a
  pub told : told_to a e'.events ≡ told_to a e.events

module _ (k a : ℕ) where
  pub Aside-refl : (e : Endpoint) → Aside k a e e
  Aside-refl e = record { live = refl; stream = refl; told = refl }

  pub call_stream-Aside :
      (e : Endpoint) (b : ℕ) (msg : BinMessage) (good : Bool)
      → b ≢ a
      → Aside k a e (call_stream e b msg good)
  call_stream-Aside e b msg good other = elim (Option-cases ((e.heap b).rxcallb)) [
    | inl n ↦ rw (n, call_stream) (Aside-refl e)
    | inr (c, s) ↦
        rw (s, call_stream)
          (record {
            live = refl;
            stream = refl;
            told =
                told_to-append a e.events (called b c msg good ∷ [])
                ∙ rw (ne→== b a other) (append-nil (told_to a e.events));
          })
  ]

  pub handled-Aside :
      (e : Endpoint) (h : ℕ) (s : Option ℕ) (msg : BinMessage)
      → Aside k a e (log e (handled h s msg))
  handled-Aside e h s msg = record {
    live = refl;
    stream = refl;
    told = told_to-append a e.events (handled h s msg ∷ []) ∙ append-nil (told_to a e.events);
  }

  -- The streams under other keys are other streams.
  pub live_other :
      (e : Endpoint) (j b : ℕ)
      → Inv e
      → find_key k e.live ≡ some a
      → find_key j e.live ≡ some b
      → j ≢ k
      → b ≢ a
  live_other e j b o mine theirs other same = other (
      sym (All-find_key (λ (p : ℕ × ℕ). (e.heap p.1).opaque ≡ p.0) j b e.live o.live_opaque theirs)
      ∙ ap (λ (x : ℕ). (e.heap x).opaque) same
      ∙ All-find_key (λ (p : ℕ × ℕ). (e.heap p.1).opaque ≡ p.0) k a e.live o.live_opaque mine)

  pub Aside-trans : {e e' e'' : Endpoint} → Aside k a e e' → Aside k a e' e'' → Aside k a e e''
  Aside-trans p q = record {
    live = q.live ∙ p.live;
    stream = q.stream ∙ p.stream;
    told = q.told ∙ p.told;
  }

  pub putstream-Aside : (e : Endpoint) (b : ℕ) → Aside k a e (putstream e b)
  unfolding putstream
  putstream-Aside e b = elim (Bool-cases ((e.heap b).remote)) [
    | inl r ↦ rw (r, putstream) (Aside-refl e)
    | inr l ↦ rw (l, putstream) (record { live = refl; stream = refl; told = refl })
  ]

  pub finish_some-Aside :
      (e : Endpoint) (j b : ℕ) → j ≢ k → b ≢ a → Aside k a e (handle_finish e j (some b))
  unfolding handle_finish
  finish_some-Aside e j b other apart =
      let called = call_stream-Aside e b no_message false apart in
      let put = Aside-trans called (putstream-Aside (call_stream e b no_message false) b) in
      record {
        live = find-delete_other k j _ other ∙ put.live;
        stream = put.stream;
        told = put.told;
      }

  pub handle_live-Aside :
      (e : Endpoint) (pkt : RxPacket) (b : ℕ) → b ≢ a → Aside k a e (handle_live e pkt b)
  unfolding handle_live
  handle_live-Aside e pkt b apart =
      let called = call_stream-Aside e b pkt.msg (not pkt.request) apart in
      elim (Bool-cases pkt.request) [
        | inl r ↦ rw (r, handle_live) (stats_only (rw r at called))
        | inr r ↦ elim (Bool-cases pkt.strmsg) [
          | inl m ↦ rw (r, m, handle_live) (stats_only (rw r at called))
          | inr m ↦ rw (r, m, handle_live) (stats_only (rw r at called))
        ]
      ]
    where
      stats_only :
          {e e' : Endpoint} {t : Transport}
          → Aside k a e e'
          → Aside k a e (record e' { transport = t })
      stats_only p = record { live = p.live; stream = p.stream; told = p.told }
