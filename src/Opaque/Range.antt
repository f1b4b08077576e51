-- ===== src/Opaque/Range.antt =====
-- What `setOpaqueRange` leaves in the pools.
use gofast.Base.{
  ℕ, zero, suc, ◌+◌, ◌-◌, ◌%◌, ◌^◌, ◌≤◌, ◌<◌, ◌≡◌, ◌≢◌, refl, Bool, true, false, List, [], ◌∷◌, ok,
  le→ltb, ◌==◌, inl, inr, Bool-cases, if◌then◌else◌, length, replicate, All, All-map, arith,
}
use gofast.Bytes.{IsU64}
use gofast.Cbor.{tag_msg}
use gofast.Opaque.{istagok, new_stream, new_streams, set_opaque_range, Pools}
use gofast.Types.{Stream}

-- A stream of the pool with an opaque value of the range that the protocol does not reserve.
abbrev pub InRange : ℕ → ℕ → ℕ → Stream → Type 0
InRange buffersize start stop s =
    (s ≡ new_stream buffersize s.opaque)
    × (istagok s.opaque ≡ true)
    × (start ≤ s.opaque)
    × (s.opaque ≤ stop)

-- The opaque values rise, so no two streams share one.
abbrev pub Rising : List Stream → Type 0
Rising [] = Unit {0}
Rising (s ∷ ss) = All (λ (u : Stream). s.opaque < u.opaque) ss × Rising ss

-- Whether a stream of the list has an opaque value.
abbrev pub has_opaque : ℕ → List Stream → Bool
has_opaque v [] = false
has_opaque v (s ∷ ss) = let rest = has_opaque v ss in if s.opaque == v then true else rest

new_streams-InRange :
    (size opaque count stop : ℕ)
    → opaque + count ≤ suc stop
    → All (InRange size opaque stop) (new_streams size opaque count)
unfolding new_streams
new_streams-InRange size opaque zero stop h = tt
new_streams-InRange size opaque (suc count) stop h =
    let rest =
      All-map (InRange size (opaque + 1) stop) (InRange size opaque stop)
        (new_streams size (opaque + 1) count)
        (λ s (made, named, lo, hi). (made, named, omega arith, hi))
        (new_streams-InRange size (opaque + 1) count stop (omega arith)) in
    elim (Bool-cases (istagok opaque)) [
      | inl y ↦ rw y ((refl, y, omega arith, omega arith), rest)
      | inr n ↦ rw n rest
    ]

new_streams-Rising : (size opaque count : ℕ) → Rising (new_streams size opaque count)
unfolding new_streams
new_streams-Rising size opaque zero = tt
new_streams-Rising size opaque (suc count) =
    let rest = new_streams-Rising size (opaque + 1) count in
    let above =
      All-map (InRange size (opaque + 1) (opaque + 1 + count)) (λ (u : Stream). opaque < u.opaque)
        (new_streams size (opaque + 1) count) (λ s (made, named, lo, hi). omega arith)
        (new_streams-InRange size (opaque + 1) count (opaque + 1 + count) (omega arith)) in
    elim (Bool-cases (istagok opaque)) [ inl y ↦ rw y (above, rest) | inr n ↦ rw n rest ]

length-new_streams : (size opaque count : ℕ) → length (new_streams size opaque count) ≤ count
unfolding new_streams
length-new_streams size opaque zero = omega arith
length-new_streams size opaque (suc count) =
    ground (arith, length-new_streams size (opaque + 1) count)

new_streams-has_opaque :
    (size opaque count v : ℕ)
    → istagok v ≡ true
    → opaque ≤ v
    → v < opaque + count
    → has_opaque v (new_streams size opaque count) ≡ true
unfolding new_streams
new_streams-has_opaque size opaque zero v y lo hi = absurd (omega arith)
new_streams-has_opaque size opaque (suc count) v y lo hi = elim (Bool-cases (opaque == v)) [
  | inl same ↦
      let e : opaque ≡ v = ground arith in let y' : istagok opaque ≡ true = rw e y in rw (y', same)
  | inr ne ↦
      let more : opaque + 1 ≤ v = ground arith in
      let rest = new_streams-has_opaque size (opaque + 1) count v y more (omega arith) in
      elim (Bool-cases (istagok opaque)) [ inl t ↦ rw (t, ne) rest | inr f ↦ rw f rest ]
]

-- What the pools hold: streams that may carry a frame, as many as their channel takes.
pub record Pooled (size batchsize start stop : ℕ) (p : Pools) : Type 0 where
  pub in_range : All (InRange size start stop) p.strms
  pub rising : Rising p.strms
  pub complete : (v : ℕ) → istagok v ≡ true → start ≤ v → v ≤ stop → has_opaque v p.strms ≡ true
  pub room : length p.strms ≤ p.strms_cap
  pub txcmd : p.txcmd ≡ replicate (stop - start + 1 + batchsize) (replicate size 0)

-- For a range within the bounds of the protocol `setOpaqueRange` returns: the pool has one fresh
-- local stream for each value of the range that is not reserved, each with its own buffers, no
-- two with the same value, and no more than the channel's capacity, so that no send on it
-- blocks; and there are commands for the whole range and a batch more.
pub set_opaque_range-Pooled :
    (chan_limit size batchsize start stop : ℕ)
    → 266 ≤ start
    → start ≤ stop
    → stop ≤ 15309735
    → batchsize < 2 ^ 63
    → stop - start + 1 + batchsize ≤ chan_limit
    → (p : Pools) × (set_opaque_range chan_limit size batchsize start stop ≡ ok p)
      × Pooled size batchsize start stop p
unfolding set_opaque_range
set_opaque_range-Pooled chan_limit size batchsize start stop lo some_range hi batch limit =
    let cap : (stop + 2 ^ 64 - start + 1) % 2 ^ 64 ≡ stop - start + 1 = omega arith in
    let cmds : (stop - start + 1 + batchsize) % 2 ^ 64 ≡ stop - start + 1 + batchsize =
      omega arith in
    let streams = new_streams size start (stop + 1 - start) in
    (
      record {
        strms = streams;
        strms_cap = stop - start + 1;
        txcmd = replicate (stop - start + 1 + batchsize) (replicate size 0);
      },
      rw (
        cap,
        cmds,
        le→ltb start 266 lo,
        le→ltb 15309735 stop hi,
        le→ltb chan_limit (stop - start + 1) (omega arith),
        le→ltb chan_limit (stop - start + 1 + batchsize) limit,
      ),
      record {
        in_range = new_streams-InRange size start (stop + 1 - start) stop (omega arith);
        rising = new_streams-Rising size start (stop + 1 - start);
        complete =
            λ v y a b. new_streams-has_opaque size start (stop + 1 - start) v y a (omega arith);
        room = omega (arith, length-new_streams size start (stop + 1 - start));
        txcmd = refl;
      },
    )

-- A value that `istagok` lets through is one that the receiver reads back from a frame: it is not
-- the tag of the message, it fits a uint64, and it takes three bytes or five as a tag.
pub istagok-opaque :
    (v : ℕ) → istagok v ≡ true → (v ≢ tag_msg) × IsU64 v × (256 ≤ v) × (v ≤ 15309735)
unfolding istagok
istagok-opaque v y =
    let lo : 266 ≤ v = ground arith in
    let hi : v ≤ 15309735 = ground arith in
    ((λ e. absurd (omega arith)), omega arith, omega arith, hi)
