-- ===== src/Cbor/Encode.antt =====
-- The bytes that each encoder writes, and that it writes them to any buffer with room for them.
use gofast.Base.{
  ℕ, suc, ◌+◌, ◌*◌, ◌%◌, ◌^◌, ◌≤◌, ◌<◌, ◌≡◌, refl, sym, ap, subst, ◌∙◌, List, [], ◌∷◌, ◌++◌, inl,
  inr, Result, ok, ltb, ltb→lt, le→leb, if◌then◌else◌, Bool-cases, length, drop, length-append,
  append_assoc, bit_and, bit_or, arith,
}
use gofast.Bytes.{within, put_uint16, put_uint32, put_uint64, copy}
use gofast.Bytes.Words.{
  be16, be32, be64, put_uint16-overwrite, put_uint32-overwrite, put_uint64-overwrite,
}
use gofast.Bytes.Written.{overwrite, Writes, within-overwrite, copy-overwrite}
use gofast.Cbor.{
  cbor_hdr, valuint82cbor, valuint162cbor, valuint322cbor, valuint642cbor, fix_type, tag2cbor,
  valbytes2cbor, valtext2cbor, array_start, map_start, break_stop, head_then,
}
use gofast.Cbor.Head.{low_five, join_type2, join_type3, join_type6, cbor_hdr_small}

-- The shortest head for `v`: its lower five bits, and the bytes that follow.
unfoldable pub head_info : ℕ → ℕ
head_info v =
    if ltb v 24
    then v
    else if ltb v 256
    then 24
    else if ltb v 65536
    then 25
    else if ltb v 4294967296
    then 26
    else 27

unfoldable pub head_tail : ℕ → List ℕ
head_tail v =
    if ltb v 24
    then []
    else if ltb v 256
    then v ∷ []
    else if ltb v 65536
    then be16 v
    else if ltb v 4294967296
    then be32 v
    else be64 v

-- The head of the major type whose number is `major`.
abbrev pub head : ℕ → ℕ → List ℕ
head major v = (major * 32 + head_info v) ∷ head_tail v

pub length-head : (major v : ℕ) → (1 ≤ length (head major v)) × (length (head major v) ≤ 9)
unfolding head_tail
length-head major v = ground arith

-- The head of a number below 4G fits what the first read of a frame has of the packet.
pub length-head_word : (major v : ℕ) → v < 2 ^ 32 → length (head major v) ≤ 5
unfolding head_tail
length-head_word major v h = ground arith

pub length-head_byte : (major v : ℕ) → 24 ≤ v → 2 ≤ length (head major v)
unfolding head_tail
length-head_byte major v h = ground arith

pub head_info-lt : (v : ℕ) → head_info v < 28
unfolding head_info
head_info-lt v = ground arith

-- A definite-length string of major type `major`.
abbrev pub item : ℕ → List ℕ → List ℕ
item major bs = head major (length bs) ++ bs

head_then-Writes :
    (b n : ℕ) (put : List ℕ → Result (List ℕ)) (bs : List ℕ)
    → n ≡ suc (length bs)
    → ((buf : List ℕ) → length bs ≤ length buf → put buf ≡ ok (overwrite bs buf))
    → Writes (head_then b put n) (b ∷ bs)
unfolding within
head_then-Writes b n put bs e w [] h = absurd (omega arith)
head_then-Writes b n put bs e w (x ∷ xs) h =
    rw (le→leb 1 (suc (length xs)) (omega arith), w xs (omega arith), e)

-- Which form the head takes.
module _ (major v : ℕ) where
  pub head_tiny : v < 24 → head major v ≡ (major * 32 + v) ∷ []
  unfolding head_info head_tail
  head_tiny h = ground arith

  pub head_byte : 24 ≤ v → v < 256 → head major v ≡ (major * 32 + 24) ∷ v ∷ []
  unfolding head_info head_tail
  head_byte lo h = ground arith

  pub head_half : 256 ≤ v → v < 65536 → head major v ≡ (major * 32 + 25) ∷ be16 v
  unfolding head_info head_tail
  head_half lo h = ground arith

  pub head_word : 65536 ≤ v → v < 4294967296 → head major v ≡ (major * 32 + 26) ∷ be32 v
  unfolding head_info head_tail
  head_word lo h = ground arith

  pub head_long : 4294967296 ≤ v → head major v ≡ (major * 32 + 27) ∷ be64 v
  unfolding head_info head_tail
  head_long lo = ground arith

valuint82cbor_byte : (v : ℕ) → 24 ≤ v → Writes (valuint82cbor v) (24 ∷ v ∷ [])
unfolding valuint82cbor cbor_hdr
valuint82cbor_byte v h [] k = absurd (omega arith)
valuint82cbor_byte v h (x ∷ []) k = absurd (omega arith)
valuint82cbor_byte v h (x ∷ y ∷ xs) k = ground arith

valuint82cbor_tiny : (v : ℕ) → v < 24 → Writes (valuint82cbor v) ((0 * 32 + v) ∷ [])
unfolding valuint82cbor
valuint82cbor_tiny v h [] k = absurd (omega arith)
valuint82cbor_tiny v h (x ∷ xs) k = ground (arith, cbor_hdr_small v)

valuint82cbor-Writes : (v : ℕ) → v < 256 → Writes (valuint82cbor v) (head 0 v)
valuint82cbor-Writes v h = elim (Bool-cases (ltb v 24)) [
  | inl small ↦
      subst (Writes _) (sym (head_tiny 0 v (ltb→lt v 24 small)))
        (valuint82cbor_tiny v (ltb→lt v 24 small))
  | inr large ↦
      subst (Writes _) (sym (head_byte 0 v (ground arith) h)) (valuint82cbor_byte v (ground arith))
]

valuint162cbor-Writes : (v : ℕ) → v < 65536 → Writes (valuint162cbor v) (head 0 v)
unfolding valuint162cbor cbor_hdr
valuint162cbor-Writes v h = elim (Bool-cases (ltb v 256)) [
  | inl small ↦
      let low : v % 256 ≡ v = ground arith in
      λ buf k. rw (small, low) (valuint82cbor-Writes v (ltb→lt v 256 small) buf k)
  | inr large ↦
      let lo : 256 ≤ v = ground arith in
      subst (Writes (valuint162cbor v)) (sym (head_half 0 v lo h)) (λ buf k.
        rw large
          (head_then-Writes 25 3 (put_uint16 v) (be16 v) refl (put_uint16-overwrite v) buf k))
]

valuint322cbor-Writes : (v : ℕ) → v < 4294967296 → Writes (valuint322cbor v) (head 0 v)
unfolding valuint322cbor cbor_hdr
valuint322cbor-Writes v h = elim (Bool-cases (ltb v 65536)) [
  | inl small ↦
      let low : v % 2 ^ 16 ≡ v = ground arith in
      λ buf k. rw (small, low) (valuint162cbor-Writes v (ltb→lt v 65536 small) buf k)
  | inr large ↦
      let lo : 65536 ≤ v = ground arith in
      subst (Writes (valuint322cbor v)) (sym (head_word 0 v lo h)) (λ buf k.
        rw large
          (head_then-Writes 26 5 (put_uint32 v) (be32 v) refl (put_uint32-overwrite v) buf k))
]

-- Every uint64 is written as its shortest head, and nothing else of the buffer changes.
pub valuint642cbor-Writes : (v : ℕ) → Writes (valuint642cbor v) (head 0 v)
unfolding valuint642cbor cbor_hdr
valuint642cbor-Writes v = elim (Bool-cases (ltb v 4294967296)) [
  | inl small ↦
      let low : v % 2 ^ 32 ≡ v = ground arith in
      λ buf k. rw (small, low) (valuint322cbor-Writes v (ltb→lt v 4294967296 small) buf k)
  | inr large ↦
      let lo : 4294967296 ≤ v = ground arith in
      subst (Writes (valuint642cbor v)) (sym (head_long 0 v lo)) (λ buf k.
        rw large
          (head_then-Writes 27 9 (put_uint64 v) (be64 v) refl (put_uint64-overwrite v) buf k))
]

-- The head of one major type is that of another but for the initial byte.
fix_type-head :
    (bits major other v : ℕ) (rest : List ℕ)
    → ((x : ℕ) → x < 32 → bit_or x bits ≡ x + bits)
    → bits ≡ major * 32
    → other < 8
    → fix_type bits (head other v ++ rest) ≡ ok (head major v ++ rest)
unfolding fix_type
fix_type-head bits major other v rest join e h =
    let low : bit_and (other * 32 + head_info v) 0x1f ≡ head_info v =
      low_five (other * 32 + head_info v) (omega (arith, head_info-lt v))
      ∙ omega (arith, head_info-lt v) in
    rw (low, join (head_info v) (omega (arith, head_info-lt v)))
      (ap (λ (b : ℕ). ok (b ∷ (head_tail v ++ rest))) (omega (arith, e)))

pub tag2cbor-Writes : (tag : ℕ) → Writes (tag2cbor tag) (head 6 tag)
unfolding tag2cbor
tag2cbor-Writes tag buf h =
    rw (valuint642cbor-Writes tag buf h, fix_type-head 0xc0 6 0 tag _ join_type6 refl (omega arith))

-- A byte string is written whole to any buffer with room for it.
pub valbytes2cbor-Writes : (bs : List ℕ) → Writes (valbytes2cbor bs) (item 2 bs)
unfolding valbytes2cbor
valbytes2cbor-Writes bs buf h = rw (
  valuint642cbor-Writes (length bs) buf (omega (arith, length-append (head 2 (length bs)) bs)),
  fix_type-head 0x40 2 0 (length bs) _ join_type2 refl (omega arith),
  within-overwrite (λ sub. ok (copy sub bs, 0)) (head 2 (length bs)) bs buf 0
      (λ sub k. ap (λ (x : List ℕ). ok (x, 0)) (copy-overwrite bs sub k))
      (omega (arith, length-append (head 2 (length bs)) bs)),
  length-append (head 2 (length bs)) bs,
)

-- Text is written whole, under the head of a text string, to any buffer with room for it.
pub valtext2cbor-Writes : (bs : List ℕ) → Writes (valtext2cbor bs) (item 3 bs)
unfolding valtext2cbor
valtext2cbor-Writes bs buf h = rw (
  valbytes2cbor-Writes bs buf h,
  append_assoc (head 2 (length bs)) bs (drop (length (item 2 bs)) buf),
  fix_type-head 0x60 3 2 (length bs) _ join_type3 refl (omega arith),
  append_assoc (head 3 (length bs)) bs (drop (length (item 2 bs)) buf),
)

pub array_start-Writes : Writes array_start (0x9f ∷ [])
unfolding array_start cbor_hdr
array_start-Writes [] h = absurd (omega arith)
array_start-Writes (x ∷ xs) h = refl

pub map_start-Writes : Writes map_start (0xbf ∷ [])
unfolding map_start cbor_hdr
map_start-Writes [] h = absurd (omega arith)
map_start-Writes (x ∷ xs) h = refl

pub break_stop-Writes : Writes break_stop (0xff ∷ [])
unfolding break_stop cbor_hdr
break_stop-Writes [] h = absurd (omega arith)
break_stop-Writes (x ∷ xs) h = refl
