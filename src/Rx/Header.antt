-- ===== src/Rx/Header.antt =====
-- `unmessage` on the header map of a message, and `readtp` on what the sender tags.
use gofast.Base.{
  ℕ, ◌+◌, ◌<◌, ◌^◌, ◌≡◌, ◌≢◌, false, List, [], ◌∷◌, ◌++◌, append_assoc, Option, some, ok, ℤ, pos,
  int64, uint64-int64, is_pos, ne→==, ◌==◌, length, arith,
}
use gofast.Bytes.{IsU64}
use gofast.Bytes.Slices.{
  slice_from-append, index-append, slice-string, slice_from-second, slice-string_second,
}
use gofast.Cbor.{tag_msg, tag_id, tag_data, cbor_item_length}
use gofast.Cbor.Decode.{cbor_item_length-head, int64_small}
use gofast.Cbor.Encode.{head, item, head_info, head_tail, head_info-lt}
use gofast.Rx.{readtp, read_field}

pub is_pos-int64 : (v k : ℕ) → v < 2 ^ 63 → is_pos (int64 v) k ≡ (v == k)
is_pos-int64 v k h = rw (int64_small v h)

pub not-is_pos : (v k : ℕ) → v ≢ k → k < 2 ^ 63 → is_pos (int64 v) k ≡ false
not-is_pos v k h lt = ground arith

pub cbor_item_length-item :
    (bs rest : List ℕ)
    → length bs < 2 ^ 63
    → cbor_item_length (item 2 bs ++ rest) ≡ ok (pos (length bs), pos (length (head 2 (length bs))))
cbor_item_length-item bs rest small = rw (
  append_assoc (head 2 (length bs)) bs rest,
  cbor_item_length-head 2 (length bs) (bs ++ rest) (omega arith) (omega arith),
  int64_small (length bs) small,
)

-- A tag other than `tagMsg` around a byte string, and `tagMsg` before anything.
pub readtp-item :
    (tag : ℕ) (bs rest : List ℕ)
    → tag ≢ tag_msg
    → IsU64 tag
    → length bs < 2 ^ 63
    → readtp (head 6 tag ++ (item 2 bs ++ rest)) ≡ ok (tag, bs)
unfolding readtp
readtp-item tag bs rest other fits small = rw (
  cbor_item_length-head 6 tag (item 2 bs ++ rest) (omega arith) fits,
  not-is_pos tag tag_msg other (omega arith),
  index-append (head 6 tag) (64 + head_info (length bs)) _,
  slice_from-append (head 6 tag) (item 2 bs ++ rest),
  ne→== (64 + head_info (length bs)) 255 (λ e. absurd (omega (arith, head_info-lt (length bs)))),
  cbor_item_length-item bs rest small,
  slice-string (head 6 tag) (head 2 (length bs)) bs rest,
  uint64-int64 tag fits,
)

pub readtp-tag_msg : (rest : List ℕ) → readtp (head 6 tag_msg ++ rest) ≡ ok (tag_msg, rest)
unfolding readtp
readtp-tag_msg rest = rw (
  cbor_item_length-head 6 tag_msg rest (omega arith) (omega arith),
  slice_from-append (head 6 tag_msg) rest,
)

-- The end-packet: the break behind the opaque tag's empty string is not looked at.
pub readtp_end :
    (opaque : ℕ)
    → opaque ≢ tag_msg
    → IsU64 opaque
    → readtp ((head 6 opaque ++ (0x40 ∷ [])) ++ (0xff ∷ [])) ≡ ok (opaque, [])
unfolding head_info head_tail
readtp_end opaque other fits =
    rw (append_assoc (head 6 opaque) (0x40 ∷ []) (0xff ∷ []))
      (readtp-item opaque [] (0xff ∷ []) other fits (omega arith))

-- One round of the loop, at a place that is known as the length of what stands before it.
module _ (front : List ℕ) where
  pub read_id :
      (id : ℕ) (rest : List ℕ) (v : ℤ) (body : Option (List ℕ))
      → IsU64 id
      → read_field
          (front ++ (head 6 tag_id ++ (head 0 id ++ rest)))
          (record { n = pos (length front); id = v; body = body })
        ≡ ok (record {
          n = pos (length front + length (head 6 tag_id) + length (head 0 id));
          id = int64 id;
          body = body;
        })
  unfolding read_field
  read_id id rest v body fits = rw (
    slice_from-append front (head 6 tag_id ++ (head 0 id ++ rest)),
    cbor_item_length-head 6 tag_id (head 0 id ++ rest) (omega arith) (omega arith),
    slice_from-second front (head 6 tag_id) (head 0 id ++ rest),
    cbor_item_length-head 0 id rest (omega arith) fits,
  )

  pub read_data :
      (bs rest : List ℕ) (v : ℤ) (body : Option (List ℕ))
      → length bs < 2 ^ 63
      → read_field
          (front ++ (head 6 tag_data ++ (item 2 bs ++ rest)))
          (record { n = pos (length front); id = v; body = body })
        ≡ ok (record {
          n =
              pos
                (length front + length (head 6 tag_data) + length (head 2 (length bs)) + length bs);
          id = v;
          body = some bs;
        })
  unfolding read_field
  read_data bs rest v body small = rw (
    slice_from-append front (head 6 tag_data ++ (item 2 bs ++ rest)),
    cbor_item_length-head 6 tag_data (item 2 bs ++ rest) (omega arith) (omega arith),
    slice_from-second front (head 6 tag_data) (item 2 bs ++ rest),
    cbor_item_length-item bs rest small,
    slice-string_second front (head 6 tag_data) (head 2 (length bs)) bs rest,
  )
