-- ===== src/Cbor/Decode.antt =====
-- `cbor_item_length` reads back what the encoders write, and stays within the buffer it is given.
use gofast.Base.{
  ℕ, suc, ◌+◌, ◌*◌, ◌^◌, ◌≤◌, ◌<◌, ◌≡◌, refl, sym, subst, ◌∙◌, List, [], ◌∷◌, ◌++◌, ◌⊎◌, inl, inr,
  Result, ok, ◌>>=◌, ◌==◌, ℤ, pos, negsuc, int64, ltb, ltb→lt, lt→ltb, if◌then◌else◌, Bool-cases,
  length, arith,
}
use gofast.Bytes.{IsU64, index, get_uint16, get_uint32, get_uint64}
use gofast.Bytes.Words.{be16, be32, be64, get_uint16-be16, get_uint32-be32, get_uint64-be64}
use gofast.Cbor.{cbor_info, cbor_item_length}
use gofast.Cbor.Encode.{head, head_tiny, head_byte, head_half, head_word, head_long}
use gofast.Cbor.Head.{cbor_info-eq}

pub info-major : (major x : ℕ) → major < 8 → x < 32 → cbor_info (major * 32 + x) ≡ x
info-major major x h k = cbor_info-eq (major * 32 + x) (omega arith) ∙ omega arith

abbrev Reads : List ℕ → List ℕ → ℤ → Type 0
Reads bs rest v = cbor_item_length (bs ++ rest) ≡ ok (v, pos (length bs))

module _ (major : ℕ) (small : major < 8) (rest : List ℕ) where
  read_tiny : (v : ℕ) → v < 24 → Reads ((major * 32 + v) ∷ []) rest (pos v)
  unfolding cbor_item_length
  read_tiny v h = ground (arith, info-major major v)

  read_byte : (v : ℕ) → Reads ((major * 32 + 24) ∷ v ∷ []) rest (pos v)
  unfolding cbor_item_length index
  read_byte v = ground (arith, info-major major 24)

  read_half : (v : ℕ) → v < 65536 → Reads ((major * 32 + 25) ∷ be16 v) rest (pos v)
  unfolding cbor_item_length
  read_half v h = ground (arith, info-major major 25, get_uint16-be16 v rest)

  read_word : (v : ℕ) → v < 4294967296 → Reads ((major * 32 + 26) ∷ be32 v) rest (pos v)
  unfolding cbor_item_length
  read_word v h = ground (arith, info-major major 26, get_uint32-be32 v rest)

  read_long : (v : ℕ) → IsU64 v → Reads ((major * 32 + 27) ∷ be64 v) rest (int64 v)
  unfolding cbor_item_length
  read_long v h = ground (arith, info-major major 27, get_uint64-be64 v rest)

pub int64_small : (v : ℕ) → v < 2 ^ 63 → int64 v ≡ pos v
int64_small v h = rw (lt→ltb v (2 ^ 63) h)

-- Behind the head that an encoder wrote, whatever its major type and whatever follows it, the
-- decoder reads the encoded uint64 as an int64 and the width of the head.
pub cbor_item_length-head :
    (major v : ℕ) (rest : List ℕ)
    → major < 8
    → IsU64 v
    → cbor_item_length (head major v ++ rest) ≡ ok (int64 v, pos (length (head major v)))
cbor_item_length-head major v rest h fits = elim (Bool-cases (ltb v 24)) [
  | inl a ↦
      subst (λ bs. Reads bs rest (int64 v)) (sym (head_tiny major v (ltb→lt v 24 a)))
        (rw (int64_small v (ground arith)) (read_tiny major h rest v (ltb→lt v 24 a)))
  | inr a ↦ elim (Bool-cases (ltb v 256)) [
    | inl b ↦
        subst (λ bs. Reads bs rest (int64 v))
          (sym (head_byte major v (ground arith) (ltb→lt v 256 b)))
          (rw (int64_small v (ground arith)) (read_byte major h rest v))
    | inr b ↦ elim (Bool-cases (ltb v 65536)) [
      | inl c ↦
          subst (λ bs. Reads bs rest (int64 v))
            (sym (head_half major v (ground arith) (ltb→lt v 65536 c)))
            (rw (int64_small v (ground arith)) (read_half major h rest v (ltb→lt v 65536 c)))
      | inr c ↦ elim (Bool-cases (ltb v 4294967296)) [
        | inl d ↦
            subst (λ bs. Reads bs rest (int64 v))
              (sym (head_word major v (ground arith) (ltb→lt v 4294967296 d)))
              (rw (int64_small v (ground arith)) (read_word major h rest v (ground arith)))
        | inr d ↦
            subst (λ bs. Reads bs rest (int64 v)) (sym (head_long major v (ground arith)))
              (read_long major h rest v fits)
      ]
    ]
  ]
]

-- How many bytes a head takes by its additional information, RFC 7049, 2.1.
abbrev pub item_width : List ℕ → ℕ
item_width [] = 1
item_width (b ∷ rest) =
    let info = cbor_info b in
    if ltb info 24
    then 1
    else if info == 24
    then 2
    else if info == 25
    then 3
    else if info == 26
    then 5
    else 9

-- What the decoder answers on a non-empty buffer: (-1, -1) where the head does not lie within the
-- buffer, and else its width.
abbrev Answers : ℕ → List ℕ → Result (ℤ × ℤ) → Type 0
Answers width buf r =
    ((r ≡ ok (negsuc 0, negsuc 0)) × (length buf < width))
    ⊎ ((v : ℤ) × (k : ℕ) × (r ≡ ok (v, pos k)) × (1 ≤ k) × (k ≤ 9) × (k ≤ length buf) × (k ≡ width))

abbrev pub IsItem : List ℕ → Result (ℤ × ℤ) → Type 0
IsItem buf r = Answers (item_width buf) buf r

word8 : (rest : List ℕ) → 1 ≤ length rest → (v : ℕ) × (index rest 0 ≡ ok v)
unfolding index
word8 [] h = absurd (omega arith)
word8 (a ∷ rest) h = (a, refl)

word16 : (rest : List ℕ) → 2 ≤ length rest → (v : ℕ) × (get_uint16 rest ≡ ok v)
unfolding get_uint16
word16 [] h = absurd (omega arith)
word16 (a ∷ []) h = absurd (omega arith)
word16 (a ∷ b ∷ rest) h = (a * 2 ^ 8 + b, refl)

word32 : (rest : List ℕ) → 4 ≤ length rest → (v : ℕ) × (get_uint32 rest ≡ ok v)
unfolding get_uint32
word32 [] h = absurd (omega arith)
word32 (a ∷ []) h = absurd (omega arith)
word32 (a ∷ b ∷ []) h = absurd (omega arith)
word32 (a ∷ b ∷ c ∷ []) h = absurd (omega arith)
word32 (a ∷ b ∷ c ∷ d ∷ rest) h = (_, refl)

word64 : (rest : List ℕ) → 8 ≤ length rest → (v : ℕ) × (get_uint64 rest ≡ ok v)
unfolding get_uint64
word64 [] h = absurd (omega arith)
word64 (a ∷ []) h = absurd (omega arith)
word64 (a ∷ b ∷ []) h = absurd (omega arith)
word64 (a ∷ b ∷ c ∷ []) h = absurd (omega arith)
word64 (a ∷ b ∷ c ∷ d ∷ []) h = absurd (omega arith)
word64 (a ∷ b ∷ c ∷ d ∷ e ∷ []) h = absurd (omega arith)
word64 (a ∷ b ∷ c ∷ d ∷ e ∷ f ∷ []) h = absurd (omega arith)
word64 (a ∷ b ∷ c ∷ d ∷ e ∷ f ∷ g ∷ []) h = absurd (omega arith)
word64 (a ∷ b ∷ c ∷ d ∷ e ∷ f ∷ g ∷ i ∷ rest) h = (_, refl)

-- The wide forms, on a buffer that holds what follows the head or not.
wide-IsItem :
    (b : ℕ) (rest : List ℕ) (k : ℕ) (get : List ℕ → Result ℕ) (f : ℕ → ℤ)
    → k ≤ 8
    → (k ≤ length rest → (v : ℕ) × (get rest ≡ ok v))
    → Answers (suc k) (b ∷ rest) (
        if ltb (length (b ∷ rest)) (suc k)
        then ok (negsuc 0, negsuc 0)
        else (get rest >>= λ v. ok (f v, pos (suc k))))
wide-IsItem b rest k get f h word = elim (Bool-cases (ltb (length (b ∷ rest)) (suc k))) [
  | inl cut ↦ rw cut (inl (refl, omega (arith, ltb→lt (length (b ∷ rest)) (suc k) cut)))
  | inr whole ↦
      let fits : k ≤ length rest = ground arith in
      let (v, e) = word fits in
      rw (whole, e) (inr (f v, suc k, refl, omega arith, omega arith, omega arith, refl))
]

-- On any buffer that is not empty the decoder returns: (-1, -1) exactly where the buffer is shorter
-- than the width that the additional information announces, and else that width, of one to nine
-- bytes, all within the buffer.
pub cbor_item_length-IsItem :
    (b : ℕ) (rest : List ℕ) → IsItem (b ∷ rest) (cbor_item_length (b ∷ rest))
unfolding cbor_item_length
cbor_item_length-IsItem b rest = elim (Bool-cases (ltb (cbor_info b) 24)) [
  | inl p ↦ rw p (inr (pos (cbor_info b), 1, refl, omega arith, omega arith, omega arith, refl))
  | inr p ↦ elim (Bool-cases (cbor_info b == 24)) [
    | inl q ↦ rw (p, q) (wide-IsItem b rest 1 (λ r. index r 0) pos (omega arith) (word8 rest))
    | inr q ↦ elim (Bool-cases (cbor_info b == 25)) [
      | inl r ↦ rw (p, q, r) (wide-IsItem b rest 2 get_uint16 pos (omega arith) (word16 rest))
      | inr r ↦ elim (Bool-cases (cbor_info b == 26)) [
        | inl s ↦ rw (p, q, r, s) (wide-IsItem b rest 4 get_uint32 pos (omega arith) (word32 rest))
        | inr s ↦
            rw (p, q, r, s) (wide-IsItem b rest 8 get_uint64 int64 (omega arith) (word64 rest))
      ]
    ]
  ]
]
