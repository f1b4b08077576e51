-- ===== src/SyncRx/Pool.antt =====
-- Who owns a stream: the pool of local streams, the pool of used remote streams, or the map of
-- live streams.
use gofast.Base.{
  ℕ, ◌+◌, ◌<◌, ◌≡◌, ◌≢◌, refl, sym, ap, ◌∙◌, true, false, List, [], ◌∷◌, ◌++◌, some, inl, inr, ◌==◌,
  ==_iff, ==→ne, Bool-cases, All, All-append, All-map, All-zip, arith,
}
use mathlib.Core.Path.{subst₂}
use gofast.SyncRx.{Endpoint}
use gofast.Types.{Stream, find_key, delete_key, insert_key}

abbrev pub NotIn : ℕ → List ℕ → Type 0
NotIn a xs = All (λ b. b ≢ a) xs

abbrev pub Once : List ℕ → Type 0
Once [] = Unit {0}
Once (x ∷ xs) = NotIn x xs × Once xs

abbrev pub NotLive : List (ℕ × ℕ) → ℕ → Type 0
NotLive live a = All (λ (p : ℕ × ℕ). p.1 ≢ a) live

pub record Owned (heap : ℕ → Stream) (fresh : ℕ) (rx_pool pool : List ℕ) (live : List (ℕ × ℕ))
    : Type 0 where
  pub live_opaque : All (λ (p : ℕ × ℕ). (heap p.1).opaque ≡ p.0) live
  pub live_below : All (λ (p : ℕ × ℕ). p.1 < fresh) live
  pub pool_local : All (λ a. (heap a).remote ≡ false) pool
  pub pool_below : All (λ a. a < fresh) pool
  pub pool_once : Once pool
  pub pool_idle : All (NotLive live) pool
  pub rx_remote : All (λ a. (heap a).remote ≡ true) rx_pool
  pub rx_below : All (λ a. a < fresh) rx_pool
  pub rx_once : Once rx_pool
  pub rx_idle : All (NotLive live) rx_pool

abbrev pub Inv : Endpoint → Type 0
Inv e = Owned e.heap e.fresh e.rx_pool e.pool e.live

All-delete_key {ℓ} :
    (P : ℕ × ℕ → Type ℓ) (k : ℕ) (m : List (ℕ × ℕ)) → All P m → All P (delete_key k m)
All-delete_key P k [] h = tt
All-delete_key P k ((j, v) ∷ m) h = elim (Bool-cases (j == k)) [
  | inl e ↦ rw e (All-delete_key P k m h.1)
  | inr e ↦ rw e (h.0, All-delete_key P k m h.1)
]

pub All-find_key {ℓ} :
    (P : ℕ × ℕ → Type ℓ) (k a : ℕ) (m : List (ℕ × ℕ)) → All P m → find_key k m ≡ some a → P (k, a)
All-find_key P k a [] h e = cc
All-find_key P k a ((j, v) ∷ m) h e = elim (Bool-cases (j == k)) [
  | inl t ↦
      let key : j ≡ k = (==_iff j k).0 t in
      let value : v ≡ a = ground arith in subst₂ (λ (x y : ℕ). P (x, y)) key value h.0
  | inr t ↦ All-find_key P k a m h.1 (rw t at e)
]

-- Deleting the key of a live stream takes its address out.
pub NotLive-delete_key :
    (heap : ℕ → Stream) (a : ℕ) (m : List (ℕ × ℕ))
    → All (λ (p : ℕ × ℕ). (heap p.1).opaque ≡ p.0) m
    → NotLive (delete_key ((heap a).opaque) m) a
NotLive-delete_key heap a [] h = tt
NotLive-delete_key heap a ((j, v) ∷ m) h = elim (Bool-cases (j == (heap a).opaque)) [
  | inl t ↦ rw t (NotLive-delete_key heap a m h.1)
  | inr t ↦ rw t (
    (λ e. ==→ne j _ t (sym h.0 ∙ ap (λ (x : ℕ). (heap x).opaque) e)),
    NotLive-delete_key heap a m h.1,
  )
]

Once-append : (xs : List ℕ) (a : ℕ) → Once xs → NotIn a xs → Once (xs ++ a ∷ [])
Once-append [] a h k = (tt, tt)
Once-append (x ∷ xs) a h k =
    (All-append (λ b. b ≢ x) xs (a ∷ []) h.0 ((λ e. k.0 (sym e)), tt), Once-append xs a h.1 k.1)

module _ (heap : ℕ → Stream) (fresh : ℕ) (rx_pool pool : List ℕ) (live : List (ℕ × ℕ)) where
  -- Forgetting a key keeps everything.
  pub Owned-delete :
      (k : ℕ)
      → Owned heap fresh rx_pool pool live
      → Owned heap fresh rx_pool pool (delete_key k live)
  Owned-delete k o = record {
    live_opaque = All-delete_key (λ (p : ℕ × ℕ). (heap p.1).opaque ≡ p.0) k live o.live_opaque;
    live_below = All-delete_key (λ (p : ℕ × ℕ). p.1 < fresh) k live o.live_below;
    pool_idle =
        All-map (NotLive live) (NotLive (delete_key k live)) pool
          (λ a. All-delete_key (λ (p : ℕ × ℕ). p.1 ≢ a) k live) o.pool_idle;
    rx_idle =
        All-map (NotLive live) (NotLive (delete_key k live)) rx_pool
          (λ a. All-delete_key (λ (p : ℕ × ℕ). p.1 ≢ a) k live) o.rx_idle;
    pool_local = o.pool_local;
    pool_below = o.pool_below;
    pool_once = o.pool_once;
    rx_remote = o.rx_remote;
    rx_below = o.rx_below;
    rx_once = o.rx_once;
  }

  -- A local stream that is nowhere else may be put into the pool.
  pub Owned-put :
      (a : ℕ)
      → a < fresh
      → (heap a).remote ≡ false
      → NotIn a pool
      → NotLive live a
      → Owned heap fresh rx_pool pool live
      → Owned heap fresh rx_pool (pool ++ a ∷ []) live
  Owned-put a below local out idle o = record {
    pool_local = All-append (λ b. (heap b).remote ≡ false) pool (a ∷ []) o.pool_local (local, tt);
    pool_below = All-append (λ b. b < fresh) pool (a ∷ []) o.pool_below (below, tt);
    pool_once = Once-append pool a o.pool_once out;
    pool_idle = All-append (NotLive live) pool (a ∷ []) o.pool_idle (idle, tt);
    live_opaque = o.live_opaque;
    live_below = o.live_below;
    rx_remote = o.rx_remote;
    rx_below = o.rx_below;
    rx_once = o.rx_once;
    rx_idle = o.rx_idle;
  }

  -- A stream that is in neither pool may become live under its own opaque value.
  pub Owned-insert :
      (a : ℕ)
      → a < fresh
      → NotIn a pool
      → NotIn a rx_pool
      → Owned heap fresh rx_pool pool live
      → Owned heap fresh rx_pool pool (insert_key ((heap a).opaque) a live)
  Owned-insert a below out rx_out o =
      let k = (heap a).opaque in
      let d = Owned-delete k o in
      let rest = delete_key k live in
      record {
        live_opaque = (refl, d.live_opaque);
        live_below = (below, d.live_below);
        pool_idle =
            All-zip (λ b. b ≢ a) (NotLive rest) (NotLive (insert_key k a live)) pool
              (λ b ne idle. ((λ e. ne (sym e)), idle)) out d.pool_idle;
        rx_idle =
            All-zip (λ b. b ≢ a) (NotLive rest) (NotLive (insert_key k a live)) rx_pool
              (λ b ne idle. ((λ e. ne (sym e)), idle)) rx_out d.rx_idle;
        pool_local = d.pool_local;
        pool_below = d.pool_below;
        pool_once = d.pool_once;
        rx_remote = d.rx_remote;
        rx_below = d.rx_below;
        rx_once = d.rx_once;
      }

  -- Nothing depends on a stream that is in no pool and not live.
  pub Owned-write :
      (heap' : ℕ → Stream) (a : ℕ)
      → ((b : ℕ) → b ≢ a → heap' b ≡ heap b)
      → NotIn a pool
      → NotIn a rx_pool
      → NotLive live a
      → Owned heap fresh rx_pool pool live
      → Owned heap' fresh rx_pool pool live
  Owned-write heap' a off out rx_out idle o = record {
    live_opaque =
        All-zip (λ (p : ℕ × ℕ). p.1 ≢ a) (λ (p : ℕ × ℕ). (heap p.1).opaque ≡ p.0)
          (λ (p : ℕ × ℕ). (heap' p.1).opaque ≡ p.0) live
          (λ p ne e. ap (λ (s : Stream). s.opaque) (off p.1 ne) ∙ e) idle o.live_opaque;
    pool_local =
        All-zip (λ b. b ≢ a) (λ b. (heap b).remote ≡ false) (λ b. (heap' b).remote ≡ false) pool
          (λ b ne e. ap (λ (s : Stream). s.remote) (off b ne) ∙ e) out o.pool_local;
    rx_remote =
        All-zip (λ b. b ≢ a) (λ b. (heap b).remote ≡ true) (λ b. (heap' b).remote ≡ true) rx_pool
          (λ b ne e. ap (λ (s : Stream). s.remote) (off b ne) ∙ e) rx_out o.rx_remote;
    live_below = o.live_below;
    pool_below = o.pool_below;
    pool_once = o.pool_once;
    pool_idle = o.pool_idle;
    rx_below = o.rx_below;
    rx_once = o.rx_once;
    rx_idle = o.rx_idle;
  }

  pub Owned-grow : Owned heap fresh rx_pool pool live → Owned heap (fresh + 1) rx_pool pool live
  Owned-grow o = record {
    live_below =
        All-map (λ (p : ℕ × ℕ). p.1 < fresh) (λ (p : ℕ × ℕ). p.1 < fresh + 1) live
          (λ p h. omega arith) o.live_below;
    pool_below =
        All-map (λ a. a < fresh) (λ a. a < fresh + 1) pool (λ a h. omega arith) o.pool_below;
    rx_below =
        All-map (λ a. a < fresh) (λ a. a < fresh + 1) rx_pool (λ a h. omega arith) o.rx_below;
    live_opaque = o.live_opaque;
    pool_local = o.pool_local;
    pool_once = o.pool_once;
    pool_idle = o.pool_idle;
    rx_remote = o.rx_remote;
    rx_once = o.rx_once;
    rx_idle = o.rx_idle;
  }
