-- ===== src/Bytes/Written.antt =====
-- What a sequence of writes leaves in a buffer: the bytes written, then the buffer's old tail.
use gofast.Base.{
  Result, ℕ, ◌+◌, ◌≤◌, ◌≡◌, refl, sym, ap, List, [], ◌∷◌, ◌++◌, append_assoc, ok, le→leb, length,
  take, drop, length-append, length-drop, take-append_length, drop-append_length, drop-drop,
  take_all, arith,
}
use gofast.Bytes.{copied, copy_in, counted, slice_to, Writer, copy, within, emit, put_byte}

abbrev pub overwrite : List ℕ → List ℕ → List ℕ
overwrite bs buf = bs ++ drop (length bs) buf

-- `f` writes exactly the bytes `bs` to any buffer that has room for them.
abbrev pub Writes : Writer → List ℕ → Type 0
Writes f bs = (buf : List ℕ) → length bs ≤ length buf → f buf ≡ ok (overwrite bs buf, length bs)

pub length-overwrite :
    (bs buf : List ℕ) → length bs ≤ length buf → length (overwrite bs buf) ≡ length buf
length-overwrite bs buf h =
    omega (arith, length-append bs (drop (length bs) buf), length-drop (length bs) buf)

pub overwrite-append :
    (front bs buf : List ℕ)
    → front ++ overwrite bs (drop (length front) buf) ≡ overwrite (front ++ bs) buf
overwrite-append front bs buf =
    rw (drop-drop (length bs) (length front) buf, length-append front bs)
      (sym (append_assoc front bs _))

pub take-overwrite : (bs buf : List ℕ) → take (length bs) (overwrite bs buf) ≡ bs
take-overwrite bs buf = take-append_length bs _

pub drop-overwrite : (bs buf : List ℕ) → drop (length bs) (overwrite bs buf) ≡ drop (length bs) buf
drop-overwrite bs buf = drop-append_length bs _

-- A write behind what was written extends it, whatever count the writer returns.
pub within-overwrite :
    (f : Writer) (front bs buf : List ℕ) (k : ℕ)
    → ((sub : List ℕ) → length bs ≤ length sub → f sub ≡ ok (overwrite bs sub, k))
    → length front + length bs ≤ length buf
    → within (length front) f (overwrite front buf) ≡ ok (overwrite (front ++ bs) buf, k)
unfolding within
within-overwrite f front bs buf k w h =
    rw
      (
        le→leb (length front) (length (overwrite front buf))
            (omega (arith, length-overwrite front buf (omega arith))),
        drop-overwrite front buf,
        w (drop (length front) buf) (omega (arith, length-drop (length front) buf)),
        take-overwrite front buf,
      )
      (ap (λ (x : List ℕ). ok (x, k)) (overwrite-append front bs buf))

pub emit-Writes :
    (f : Writer) (front bs buf : List ℕ)
    → Writes f bs
    → length (front ++ bs) ≤ length buf
    → emit f (overwrite front buf, length front)
      ≡ ok (overwrite (front ++ bs) buf, length (front ++ bs))
unfolding emit
emit-Writes f front bs buf w h = rw (
  within-overwrite f front bs buf (length bs) w (omega (arith, length-append front bs)),
  length-append front bs,
)

pub put_byte-Writes : (b : ℕ) → Writes (put_byte b) (b ∷ [])
unfolding put_byte
put_byte-Writes b [] h = absurd (omega arith)
put_byte-Writes b (x ∷ xs) h = refl

pub copy-overwrite : (src dst : List ℕ) → length src ≤ length dst → copy dst src ≡ overwrite src dst
copy-overwrite src dst h = rw (take_all (length dst) src h)

pub copy_in-Writes : (src : List ℕ) → Writes (copy_in src) src
unfolding copy_in
copy_in-Writes src buf h =
    let all : copied buf src ≡ length src = omega arith in rw (all, copy-overwrite src buf h)

pub counted-Writes :
    (put : List ℕ → Result (List ℕ)) (bs : List ℕ)
    → ((buf : List ℕ) → length bs ≤ length buf → put buf ≡ ok (overwrite bs buf))
    → Writes (counted put (length bs)) bs
counted-Writes put bs w buf h = rw (w buf h)

-- What was written may be cut off again.
pub slice_to-overwrite :
    (bs buf : List ℕ) → length bs ≤ length buf → slice_to (overwrite bs buf) (length bs) ≡ ok bs
slice_to-overwrite bs buf h = rw (
  le→leb (length bs) (length (overwrite bs buf)) (omega (arith, length-overwrite bs buf h)),
  take-overwrite bs buf,
)
