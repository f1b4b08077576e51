-- ===== src/Setup/Addresses.antt =====
-- The streams of the pool at the addresses that `NewTransport` of transport.go gives them.
use gofast.Base.{
  ℕ, zero, suc, ◌+◌, ◌≤◌, ◌<◌, ◌≡◌, ◌≢◌, refl, ap, true, false, List, [], ◌∷◌, ◌++◌, Bool-cases,
  length, ◌==◌, All, All-map, inl, inr, arith,
}
use gofast.Opaque.Range.{Rising, has_opaque}
use gofast.Setup.{Settings, first_endpoint, stream_at, addresses}
use gofast.SyncRx.Pool.{Once, NotLive, Inv}
use gofast.Types.{Stream}

-- The addresses count up from the first.
addresses-above : (a : ℕ) (ss : List Stream) → All (λ b. a ≤ b) (addresses a ss)
addresses-above a [] = tt
addresses-above a (s ∷ ss) = (
  omega arith,
  All-map (λ b. a + 1 ≤ b) (λ b. a ≤ b) (addresses (a + 1) ss) (λ b h. omega arith)
      (addresses-above (a + 1) ss),
)

addresses-below : (a : ℕ) (ss : List Stream) → All (λ b. b < a + length ss) (addresses a ss)
addresses-below a [] = tt
addresses-below a (s ∷ ss) = (
  omega arith,
  All-map (λ b. b < a + 1 + length ss) (λ b. b < a + length (s ∷ ss)) (addresses (a + 1) ss)
      (λ b h. omega arith) (addresses-below (a + 1) ss),
)

addresses-Once : (a : ℕ) (ss : List Stream) → Once (addresses a ss)
addresses-Once a [] = tt
addresses-Once a (s ∷ ss) = (
  All-map (λ b. a + 1 ≤ b) (λ b. b ≢ a) (addresses (a + 1) ss) (λ b h e. absurd (omega arith))
      (addresses-above (a + 1) ss),
  addresses-Once (a + 1) ss,
)

All-any : (P : ℕ → Type 0) (xs : List ℕ) → ((a : ℕ) → P a) → All P xs
All-any P [] h = tt
All-any P (x ∷ xs) h = (h x, All-any P xs h)

stream_at-local :
    (ss : List Stream) (a : ℕ)
    → All (λ (s : Stream). s.remote ≡ false) ss
    → (stream_at ss a).remote ≡ false
stream_at-local [] a h = refl
stream_at-local (s ∷ ss) zero h = h.0
stream_at-local (s ∷ ss) (suc a) h = stream_at-local ss a h.1

pub first_endpoint-Inv :
    (s : Settings) (ss : List Stream)
    → All (λ (u : Stream). u.remote ≡ false) ss
    → Inv (first_endpoint s ss)
first_endpoint-Inv s ss locals = record {
  live_opaque = tt;
  live_below = tt;
  pool_local =
      All-any (λ a. (stream_at ss a).remote ≡ false) (addresses 0 ss)
        (λ a. stream_at-local ss a locals);
  pool_below =
      All-map (λ b. b < 0 + length ss) (λ b. b < length ss) (addresses 0 ss) (λ b h. omega arith)
        (addresses-below 0 ss);
  pool_once = addresses-Once 0 ss;
  pool_idle = All-any (NotLive []) (addresses 0 ss) (λ a. tt);
  rx_remote = tt;
  rx_below = tt;
  rx_once = tt;
  rx_idle = tt;
}

pub stream_at-All :
    (P : Stream → Type 0) (ss : List Stream) (a : ℕ) → All P ss → a < length ss → P (stream_at ss a)
stream_at-All P [] a h below = absurd (omega arith)
stream_at-All P (s ∷ ss) zero h below = h.0
stream_at-All P (s ∷ ss) (suc a) h below = stream_at-All P ss a h.1 (omega arith)

pub stream_at-Rising :
    (ss : List Stream) (a b : ℕ)
    → Rising ss
    → a < b
    → b < length ss
    → (stream_at ss a).opaque < (stream_at ss b).opaque
stream_at-Rising [] a b h less below = absurd (omega arith)
stream_at-Rising (s ∷ ss) a zero h less below = absurd (omega arith)
stream_at-Rising (s ∷ ss) zero (suc b) h less below =
    stream_at-All (λ (u : Stream). s.opaque < u.opaque) ss b h.0 (omega arith)
stream_at-Rising (s ∷ ss) (suc a) (suc b) h less below =
    stream_at-Rising ss a b h.1 (omega arith) (omega arith)

-- What has an opaque value stands at one of the addresses.
pub stream_at-has_opaque :
    (v base : ℕ) (ss : List Stream)
    → has_opaque v ss ≡ true
    → (i : ℕ) × (before after : List ℕ) × ((stream_at ss i).opaque ≡ v)
      × (addresses base ss ≡ before ++ (base + i) ∷ after)
stream_at-has_opaque v base [] h = absurd cc
stream_at-has_opaque v base (s ∷ ss) h = elim (Bool-cases (s.opaque == v)) [
  | inl y ↦
      let same : base + 0 ≡ base = omega arith in
      (0, [], addresses (base + 1) ss, ground arith, rw same refl)
  | inr n ↦
      let (i, before, after, named, there) = stream_at-has_opaque v (base + 1) ss (rw n at h) in
      let same : base + suc i ≡ base + 1 + i = omega arith in
      (suc i, base ∷ before, after, named, rw same (ap (λ l. base ∷ l) there))
]
