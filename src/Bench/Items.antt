-- ===== src/Bench/Items.antt =====
-- `cborItemLength` of perf/cbor.go beside that of cbor.go, and the version of perf/msg.go.
use gofast.Base.{
  ℕ, suc, ◌-◌, ◌<◌, ◌^◌, ◌≡◌, refl, ap, ◌∙◌, List, [], ◌∷◌, ◌++◌, Result, ok, panic, stuck, ◌>>=◌,
  ℤ, pos, negsuc, int64, uint64, ltb, lt→ltb, le→ltb, ◌==◌, if◌then◌else◌, inl, inr, Bool-cases,
  length, arith,
}
use gofast.Bench.{item_length, test_version_encode, test_version_decode}
use gofast.Bytes.Written.{slice_to-overwrite}
use gofast.Bytes.{IsU64, index, get_uint16, get_uint32, get_uint64}
use gofast.Cbor.Decode.{cbor_item_length-head}
use gofast.Cbor.Encode.{head, length-head, valuint642cbor-Writes}
use gofast.Cbor.{cbor_info, cbor_info24, cbor_info25, cbor_info26, cbor_item_length}
use gofast.Messages.RoundTrip.{length-fixbuffer}
use gofast.Messages.{fixbuffer}

-- A width that is negative is no answer.
abbrev pub answer_of : ℤ × ℤ → Result (ℤ × ℕ)
answer_of (v, pos k) = ok (v, k)
answer_of (v, negsuc k) = panic

short8 : (rest : List ℕ) → length rest < 1 → index rest 0 ≡ panic
unfolding index
short8 [] h = refl
short8 (a ∷ rest) h = absurd (omega arith)

short16 : (rest : List ℕ) → length rest < 2 → get_uint16 rest ≡ panic
unfolding get_uint16
short16 [] h = refl
short16 (a ∷ []) h = refl
short16 (a ∷ b ∷ rest) h = absurd (omega arith)

short32 : (rest : List ℕ) → length rest < 4 → get_uint32 rest ≡ panic
unfolding get_uint32
short32 [] h = refl
short32 (a ∷ []) h = refl
short32 (a ∷ b ∷ []) h = refl
short32 (a ∷ b ∷ c ∷ []) h = refl
short32 (a ∷ b ∷ c ∷ d ∷ rest) h = absurd (omega arith)

short64 : (rest : List ℕ) → length rest < 8 → get_uint64 rest ≡ panic
unfolding get_uint64
short64 [] h = refl
short64 (a ∷ []) h = refl
short64 (a ∷ b ∷ []) h = refl
short64 (a ∷ b ∷ c ∷ []) h = refl
short64 (a ∷ b ∷ c ∷ d ∷ []) h = refl
short64 (a ∷ b ∷ c ∷ d ∷ e ∷ []) h = refl
short64 (a ∷ b ∷ c ∷ d ∷ e ∷ f ∷ []) h = refl
short64 (a ∷ b ∷ c ∷ d ∷ e ∷ f ∷ g ∷ []) h = refl
short64 (a ∷ b ∷ c ∷ d ∷ e ∷ f ∷ g ∷ i ∷ rest) h = absurd (omega arith)

answer_of-bind :
    (r : Result ℕ) (f : ℕ → ℤ) (k : ℕ)
    → (r >>= λ v. ok (f v, k)) ≡ ((r >>= λ v. ok (f v, pos k)) >>= answer_of)
answer_of-bind (ok v) f k = refl
answer_of-bind panic f k = refl
answer_of-bind stuck f k = refl

-- The wide forms, on a buffer that holds what follows the head or not.
wide-answer_of :
    (b : ℕ) (rest : List ℕ) (k : ℕ) (r : Result ℕ) (f : ℕ → ℤ)
    → (length rest < k → r ≡ panic)
    → (r >>= λ v. ok (f v, suc k)) ≡ (
        (if ltb (length (b ∷ rest)) (suc k)
          then ok (negsuc 0, negsuc 0)
          else (r >>= λ v. ok (f v, pos (suc k))))
        >>= answer_of)
wide-answer_of b rest k r f short = elim (Bool-cases (ltb (length (b ∷ rest)) (suc k))) [
  | inl t ↦ rw (short (ground arith), t) refl
  | inr e ↦ rw e (answer_of-bind r f (suc k))
]

-- The performance tool reads the head of an item as the package does, on every buffer: where the
-- package answers that the buffer is cut short the tool panics, as both do on an empty buffer, and
-- otherwise both give the same value and width.
pub item_length-cbor_item_length :
    (bs : List ℕ) → item_length bs ≡ (cbor_item_length bs >>= answer_of)
unfolding item_length cbor_item_length
item_length-cbor_item_length [] = refl
item_length-cbor_item_length (b ∷ rest) =
    let y = cbor_info b in
    elim (Bool-cases (ltb y cbor_info24)) [
      | inl t ↦ rw t refl
      | inr e ↦ elim (Bool-cases (y == cbor_info24)) [
        | inl t ↦ rw (e, t) (wide-answer_of b rest 1 (index rest 0) pos (short8 rest))
        | inr e4 ↦ elim (Bool-cases (y == cbor_info25)) [
          | inl t ↦ rw (e, e4, t) (wide-answer_of b rest 2 (get_uint16 rest) pos (short16 rest))
          | inr e5 ↦ elim (Bool-cases (y == cbor_info26)) [
            | inl t ↦
                rw (e, e4, e5, t) (wide-answer_of b rest 4 (get_uint32 rest) pos (short32 rest))
            | inr e6 ↦
                rw (e, e4, e5, e6) (wide-answer_of b rest 8 (get_uint64 rest) int64 (short64 rest))
          ]
        ]
      ]
    ]

-- An int of 64 bits.
abbrev pub IsInt64 : ℤ → Type 0
IsInt64 (pos n) = n < 2 ^ 63
IsInt64 (negsuc n) = n < 2 ^ 63

int64-uint64 : (v : ℤ) → IsInt64 v → (int64 (uint64 v) ≡ v) × IsU64 (uint64 v)
int64-uint64 (pos n) h = (rw (lt→ltb n (2 ^ 63) h), omega arith)
int64-uint64 (negsuc n) h =
    (rw (le→ltb (2 ^ 64 - suc n) (2 ^ 63) (omega arith)) (ap negsuc (omega arith)), omega arith)

-- The tool's version, any int of 64 bits, encodes to the head of its two's complement, whatever the
-- buffer, and is decoded back, negative or not, whatever follows.
pub test_version_encode-decode :
    (v : ℤ) (out rest : List ℕ)
    → IsInt64 v
    → (test_version_encode v out ≡ ok (head 0 (uint64 v)))
      × (test_version_decode (head 0 (uint64 v) ++ rest) ≡ ok (v, length (head 0 (uint64 v))))
unfolding test_version_encode test_version_decode
test_version_encode-decode v out rest h =
    let (same, fits) = int64-uint64 v h in
    let bs = head 0 (uint64 v) in
    let buf = fixbuffer out 32 in
    let room : length buf ≡ 32 = length-fixbuffer out 32 (omega arith) in
    (
      rw (valuint642cbor-Writes (uint64 v) buf (omega (arith, length-head 0 (uint64 v))))
          (slice_to-overwrite bs buf (omega (arith, length-head 0 (uint64 v)))),
      item_length-cbor_item_length (bs ++ rest)
          ∙ rw (cbor_item_length-head 0 (uint64 v) rest (omega arith) fits)
              (ap (λ (w : ℤ). ok (w, length bs)) same),
    )
