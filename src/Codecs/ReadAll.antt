-- ===== src/Codecs/ReadAll.antt =====
-- The loop of `readAll` of tag_lzw.go.
use gofast.Base.{
  take_all, drop_all, append-nil, ℕ, zero, suc, ◌+◌, ◌-◌, ◌≤◌, ◌≡◌, refl, ap, ◌∙◌, List, [], ◌++◌,
  append_assoc, none, some, ok, stuck, length, length-append, take, drop, length-drop, arith,
}
use gofast.Bytes.Written.{
  overwrite, length-overwrite, take-overwrite, drop-overwrite, overwrite-append, copy-overwrite,
}
use gofast.Bytes.{copy}
use gofast.Codecs.{eof, Reader, read_all}

-- From the k-th call on, on slices with `room` in all, the reader returns `bs` and the end of its
-- input, within so many calls and never with more than there is room for.
pub data Yields (read : Reader) : ℕ → ℕ → ℕ → List ℕ → Type 0 where
  last :
      {k room rounds : ℕ} {bs : List ℕ}
      → read k room ≡ (bs, some eof)
      → length bs ≤ room
      → Yields read k room (suc rounds) bs
  more :
      {k room rounds : ℕ} {c bs : List ℕ}
      → read k room ≡ (c, none)
      → length c ≤ room
      → Yields read (suc k) (room - length c) rounds bs
      → Yields read k room (suc rounds) (c ++ bs)

read_chunk :
    (front c buf : List ℕ)
    → length front + length c ≤ length buf
    → take (length front) (overwrite front buf)
        ++ copy (drop (length front) (overwrite front buf)) c
      ≡ overwrite (front ++ c) buf
read_chunk front c buf h =
    rw
      (
        take-overwrite front buf,
        drop-overwrite front buf,
        copy-overwrite c (drop (length front) buf) (omega (arith, length-drop (length front) buf)),
      )
      (overwrite-append front c buf)

module _ (fuel : ℕ) (read : Reader) (k : ℕ) (out : List ℕ) (n : ℕ) (c : List ℕ) where
  read_all_more :
      read k (length out - n) ≡ (c, none)
      → read_all (suc fuel) read k out n
        ≡ read_all fuel read (suc k) (take n out ++ copy (drop n out) c) (n + length c)
  unfolding read_all
  read_all_more e = rw (e, read_all, e)

  read_all_last :
      read k (length out - n) ≡ (c, some eof)
      → read_all (suc fuel) read k out n
        ≡ ok (take n out ++ copy (drop n out) c, n + length c, none)
  unfolding read_all
  read_all_last e = rw (e, read_all, e)

pub read_all-Yields :
    (fuel : ℕ) (read : Reader) {k room rounds : ℕ} (front : List ℕ) {bs : List ℕ} (buf : List ℕ)
    → Yields read k room rounds bs
    → rounds ≤ fuel
    → length front + room ≡ length buf
    → read_all fuel read k (overwrite front buf) (length front)
      ≡ ok (overwrite (front ++ bs) buf, length (front ++ bs), none)
unfolding read_all
read_all-Yields zero read front buf (last e fits) h size = absurd (omega arith)
read_all-Yields zero read front buf (more e fits y) h size = absurd (omega arith)
read_all-Yields (suc fuel) read {k} {room} front {bs} buf (last e fits) h size =
    let left : length (overwrite front buf) - length front ≡ room =
      omega (arith, length-overwrite front buf (omega arith)) in
    read_all_last fuel read k (overwrite front buf) (length front) bs (rw left e)
    ∙ rw (read_chunk front bs buf (omega arith), length-append front bs)
read_all-Yields (suc fuel) read {k} {room} front buf (more {c} {bs} e fits y) h size =
    let left : length (overwrite front buf) - length front ≡ room =
      omega (arith, length-overwrite front buf (omega arith)) in
    read_all_more fuel read k (overwrite front buf) (length front) c (rw left e)
    ∙ rw (read_chunk front c buf (omega arith), ← length-append front c)
        (read_all-Yields fuel read (front ++ c) buf y (omega arith)
            (omega (arith, length-append front c))
          ∙ ap (λ (x : List ℕ). ok (overwrite x buf, length x, none)) (append_assoc front c bs))

-- On a full buffer, a reader that returns nothing and no error where there is no room.
read_all_full :
    (fuel : ℕ) (read : Reader) (k : ℕ) (out : List ℕ)
    → ((j : ℕ) → read j 0 ≡ ([], none))
    → read_all fuel read k out (length out) ≡ stuck
unfolding read_all
read_all_full zero read k out idle = refl
read_all_full (suc fuel) read k out idle =
    let full : length out - length out ≡ 0 = omega arith in
    let same : take (length out) out ++ copy (drop (length out) out) [] ≡ out =
      rw (drop_all (length out) out (omega arith), take_all (length out) out (omega arith))
        (append-nil out) in
    let count : length out + 0 ≡ length out = omega arith in
    read_all_more fuel read k out (length out) [] (rw full (idle k))
    ∙ rw (same, count) (read_all_full fuel read (suc k) out idle)

-- A reader whose first call fills the buffer without an end of the input, and that returns nothing
-- and no error on the empty slice that is then left, keeps `readAll` in its loop for ever: no
-- amount of fuel is enough.
pub read_all_hang :
    (fuel : ℕ) (read : Reader) (out c : List ℕ)
    → read 0 (length out) ≡ (c, none)
    → length c ≡ length out
    → ((j : ℕ) → read j 0 ≡ ([], none))
    → read_all fuel read 0 out 0 ≡ stuck
unfolding read_all
read_all_hang zero read out c e fills idle = refl
read_all_hang (suc fuel) read out c e fills idle =
    let whole : length out - 0 ≡ length out = omega arith in
    let held : copy out c ≡ c =
      copy-overwrite c out (omega arith)
      ∙ rw (drop_all (length c) out (omega arith)) (append-nil c) in
    let count : 0 + length c ≡ length c = omega arith in
    read_all_more fuel read 0 out 0 c (rw whole e)
    ∙ rw (held, count) (read_all_full fuel read 1 c idle)
