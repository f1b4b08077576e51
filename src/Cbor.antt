-- ===== src/Cbor.antt =====
-- cbor.go: the subset of CBOR that frames and packets are made of. The encoders write into a
-- buffer and return the bytes used; `cbor_item_length` reads the head of an item.
pub mod Head
pub mod Encode
pub mod Decode
use gofast.Base.{
  ℕ, zero, ◌+◌, ◌%◌, ◌^◌, ◌≤◌, ◌<◌, Bool, true, false, ◌&&◌, ◌||◌, List, [], ◌∷◌, Result, ok, panic,
  ◌>>=◌, ℤ, pos, negsuc, int64, ltb, leb, ◌==◌, if◌then◌else◌, length, drop, bit_and, bit_or,
}
use gofast.Bytes.{
  Writer, index, set_byte, copy, within, put_uint16, put_uint32, put_uint64, get_uint16, get_uint32,
  get_uint64,
}

abbrev pub cbor_max_small_int : ℕ
cbor_max_small_int = 23

-- Major types, in the upper three bits.
abbrev pub cbor_type0 : ℕ
cbor_type0 = 0x00

abbrev pub cbor_type2 : ℕ
cbor_type2 = 0x40

abbrev pub cbor_type3 : ℕ
cbor_type3 = 0x60

abbrev pub cbor_type4 : ℕ
cbor_type4 = 0x80

abbrev pub cbor_type5 : ℕ
cbor_type5 = 0xa0

abbrev pub cbor_type6 : ℕ
cbor_type6 = 0xc0

abbrev pub cbor_type7 : ℕ
cbor_type7 = 0xe0

-- Associated information, in the lower five bits: the width of what follows.
abbrev pub cbor_info24 : ℕ
cbor_info24 = 24

abbrev pub cbor_info25 : ℕ
cbor_info25 = 25

abbrev pub cbor_info26 : ℕ
cbor_info26 = 26

abbrev pub cbor_info27 : ℕ
cbor_info27 = 27

abbrev pub cbor_indefinite_length : ℕ
cbor_indefinite_length = 31

abbrev pub cbor_item_break : ℕ
cbor_item_break = 31

-- Tag values.
abbrev pub tag_msg : ℕ
tag_msg = 43

abbrev pub tag_id : ℕ
tag_id = 44

abbrev pub tag_data : ℕ
tag_data = 45

abbrev pub tag_gzip : ℕ
tag_gzip = 46

abbrev pub tag_lzw : ℕ
tag_lzw = 47

abbrev pub tag_cbor_prefix : ℕ
tag_cbor_prefix = 55799

unfoldable pub cbor_major : ℕ → ℕ
cbor_major b = bit_and b 0xe0

unfoldable pub cbor_info : ℕ → ℕ
cbor_info b = bit_and b 0x1f

unfoldable pub cbor_hdr : ℕ → ℕ → ℕ
cbor_hdr major info = bit_or (bit_and major 0xe0) (bit_and info 0x1f)

unfoldable pub valuint82cbor : ℕ → Writer
valuint82cbor item buf =
    if leb item cbor_max_small_int
    then (do buf ← set_byte buf 0 (cbor_hdr cbor_type0 item); ok (buf, 1))
    else (do
      buf ← set_byte buf 0 (cbor_hdr cbor_type0 cbor_info24)
      buf ← set_byte buf 1 item
      ok (buf, 2))

-- `buf[0] = head` and then a number behind it, as the wider encoders write.
abbrev pub head_then : ℕ → (List ℕ → Result (List ℕ)) → ℕ → Writer
head_then head put n buf = do
  buf ← set_byte buf 0 head
  (buf, _) ← within 1 (λ sub. put sub >>= λ sub'. ok (sub', 0)) buf
  ok (buf, n)

unfoldable pub valuint162cbor : ℕ → Writer
valuint162cbor item buf =
    if ltb item 256
    then valuint82cbor (item % 256) buf
    else head_then (cbor_hdr cbor_type0 cbor_info25) (put_uint16 item) 3 buf

unfoldable pub valuint322cbor : ℕ → Writer
valuint322cbor item buf =
    if ltb item 65536
    then valuint162cbor (item % 2 ^ 16) buf
    else head_then (cbor_hdr cbor_type0 cbor_info26) (put_uint32 item) 5 buf

unfoldable pub valuint642cbor : ℕ → Writer
valuint642cbor item buf =
    if ltb item 4294967296
    then valuint322cbor (item % 2 ^ 32) buf
    else head_then (cbor_hdr cbor_type0 cbor_info27) (put_uint64 item) 9 buf

-- `buf[0] = (buf[0] & 0x1f) | major`
unfoldable pub fix_type : ℕ → List ℕ → Result (List ℕ)
fix_type major [] = panic
fix_type major (b ∷ bs) = ok (bit_or (bit_and b 0x1f) major ∷ bs)

unfoldable pub tag2cbor : ℕ → Writer
tag2cbor tag buf = do (buf, n) ← valuint642cbor tag buf; buf ← fix_type cbor_type6 buf; ok (buf, n)

-- Where the buffer is too short for `item`, `copy` stops at its end and the count says nothing of it.
unfoldable pub valbytes2cbor : List ℕ → Writer
valbytes2cbor item buf = do
  (buf, n) ← valuint642cbor (length item) buf
  buf ← fix_type cbor_type2 buf
  (buf, _) ← within n (λ sub. ok (copy sub item, 0)) buf
  ok (buf, n + length item)

-- A string is the list of its bytes.
unfoldable pub valtext2cbor : List ℕ → Writer
valtext2cbor item buf = do
  (buf, n) ← valbytes2cbor item buf
  buf ← fix_type cbor_type3 buf
  ok (buf, n)

unfoldable pub array_start : Writer
array_start buf = do buf ← set_byte buf 0 (cbor_hdr cbor_type4 cbor_indefinite_length); ok (buf, 1)

unfoldable pub map_start : Writer
map_start buf = do buf ← set_byte buf 0 (cbor_hdr cbor_type5 cbor_indefinite_length); ok (buf, 1)

unfoldable pub break_stop : Writer
break_stop buf = do buf ← set_byte buf 0 (cbor_hdr cbor_type7 cbor_item_break); ok (buf, 1)

-- The item's value or length, and the width of its head; (-1, -1) where the buffer is cut short.
unfoldable pub cbor_item_length : List ℕ → Result (ℤ × ℤ)
cbor_item_length [] = panic
cbor_item_length (b ∷ rest) =
    let y = cbor_info b in
    let n = length (b ∷ rest) in
    let short = ok (negsuc 0, negsuc 0) in
    if ltb y cbor_info24
    then ok (pos y, pos 1)
    else if y == cbor_info24
    then (if ltb n 2 then short else (index rest 0 >>= λ v. ok (pos v, pos 2)))
    else if y == cbor_info25
    then (if ltb n 3 then short else (get_uint16 rest >>= λ v. ok (pos v, pos 3)))
    else if y == cbor_info26
    then (if ltb n 5 then short else (get_uint32 rest >>= λ v. ok (pos v, pos 5)))
    else if ltb n 9
    then short
    else (get_uint64 rest >>= λ v. ok (int64 v, pos 9))
