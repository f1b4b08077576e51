-- ===== src/Pauses/Recent.antt =====
-- What `newPauseNs` of http/handlers.go returns.
use gofast.Base.{
  ℕ, zero, suc, ◌+◌, ◌-◌, ◌%◌, ◌^◌, ◌≤◌, ◌<◌, ◌≡◌, refl, sym, ap, ◌∙◌, List, [], ◌∷◌, ◌++◌,
  append_assoc, ok, lt→ltb, le→ltb, lt→leb, length, length-append, drop, arith,
}
use gofast.Bytes.Written.{slice_to-overwrite}
use gofast.Bytes.{index, set_byte, slice_to}
use gofast.Pauses.{pause_loop, new_pause_ns}

-- An entry of the ring.
abbrev pub entry : List ℕ → ℕ → ℕ
entry [] k = 0
entry (x ∷ xs) zero = x
entry (x ∷ xs) (suc k) = entry xs k

-- The pause of the j-th collection and those behind it, `n` in all: the ring has that of the j-th
-- collection at j + 255 modulo 256.
abbrev pub recent : List ℕ → ℕ → ℕ → List ℕ
recent ring j zero = []
recent ring j (suc n) = entry ring ((j + 255) % 256) ∷ recent ring (j + 1) n

length-recent : (ring : List ℕ) (j n : ℕ) → length (recent ring j n) ≡ n
length-recent ring j zero = refl
length-recent ring j (suc n) = ap suc (length-recent ring (j + 1) n)

index-entry : (ring : List ℕ) (k : ℕ) → k < length ring → index ring k ≡ ok (entry ring k)
unfolding index
index-entry [] k h = absurd (omega arith)
index-entry (x ∷ xs) zero h = refl
index-entry (x ∷ xs) (suc k) h = index-entry xs k (omega arith)

set_byte-append :
    (front : List ℕ) (x y : ℕ) (rest : List ℕ)
    → set_byte (front ++ x ∷ rest) (length front) y ≡ ok (front ++ y ∷ rest)
set_byte-append [] x y rest = refl
set_byte-append (b ∷ front) x y rest = rw (set_byte-append front x y rest)

pause_loop-recent :
    (fuel n : ℕ) (front old ring : List ℕ) (j newcount : ℕ)
    → n < fuel
    → n ≤ length old
    → length ring ≡ 256
    → newcount + 1 ≡ j + n
    → newcount + 1 < 2 ^ 32
    → pause_loop fuel (front ++ old) ring (length front) j newcount
      ≡ ok (front ++ (recent ring j n ++ drop n old))
unfolding pause_loop
pause_loop-recent zero n front old ring j newcount more room size span small = absurd (omega arith)
pause_loop-recent (suc fuel) zero front old ring j newcount more room size span small =
    rw (lt→ltb newcount j (omega arith))
pause_loop-recent (suc fuel) (suc n) front [] ring j newcount more room size span small =
    absurd (omega arith)
pause_loop-recent (suc fuel) (suc n) front (x ∷ old) ring j newcount more room size span small =
    let place : (j + 255) % 2 ^ 32 % 256 ≡ (j + 255) % 256 = omega arith in
    let next : (j + 1) % 2 ^ 32 ≡ j + 1 = omega arith in
    let y = entry ring ((j + 255) % 256) in
    let step : length front + 1 ≡ length (front ++ y ∷ []) =
      omega (arith, length-append front (y ∷ [])) in
    rw
      (
        le→ltb newcount j (omega arith),
        place,
        index-entry ring ((j + 255) % 256) (omega arith),
        set_byte-append front x y old,
        next,
        step,
        ← append_assoc front (y ∷ []) old,
      )
      (pause_loop-recent fuel n (front ++ y ∷ []) old ring (j + 1) newcount (omega arith)
          (omega arith) size (omega arith) small
        ∙ ap ok (append_assoc front (y ∷ []) (recent ring (j + 1) n ++ drop n old)))

-- The loop ends, and the last pauses are returned: where fewer than 256 collections were made since
-- the last call, their count is not at the end of its 32 bits, and both arrays have 256 entries,
-- as many rounds as there were collections, and one more, are enough to return one entry of the
-- ring for each collection since the last call, in their order.
pub new_pause_ns-recent :
    (fuel : ℕ) (pad ring : List ℕ) (oldcount newcount : ℕ)
    → oldcount ≤ newcount
    → newcount - oldcount < 256
    → newcount + 1 < 2 ^ 32
    → length pad ≡ 256
    → length ring ≡ 256
    → newcount - oldcount < fuel
    → new_pause_ns fuel pad ring oldcount newcount
      ≡ ok (recent ring (oldcount + 1) (newcount - oldcount))
unfolding new_pause_ns
new_pause_ns-recent fuel pad ring oldcount newcount rising few small pad_size ring_size more =
    let n = newcount - oldcount in
    let diff : (newcount + 2 ^ 32 - oldcount) % 2 ^ 32 ≡ n = omega arith in
    let first : (oldcount + 1) % 2 ^ 32 ≡ oldcount + 1 = omega arith in
    let last = recent ring (oldcount + 1) n in
    let count : length last ≡ n = length-recent ring (oldcount + 1) n in
    rw
      (
        diff,
        lt→leb 256 n few,
        first,
        pause_loop-recent fuel n [] pad ring (oldcount + 1) newcount more (omega arith) ring_size
            (omega arith) small,
      )
      (ap (λ (k : ℕ). slice_to (last ++ drop k pad) k) (sym count)
        ∙ slice_to-overwrite last pad (omega arith))
