-- ===== src/Example/Lost.antt =====
-- What the message of example/msg.go loses between its `Encode` and its `Decode`.
use gofast.Base.{
  ℕ, zero, suc, ◌+◌, ◌≤◌, ◌<◌, ◌^◌, ◌≡◌, ◌==◌, false, lt→ltb, refl, sym, ap, ◌∙◌, List, [], ◌∷◌,
  ◌++◌, append_assoc, Result, ok, pos, lt→leb, drop, length, length-append, length-replicate,
  replicate, arith,
}
use gofast.Bench.Data.{held_after, copy_held}
use gofast.Bytes.Slices.{slice-middle, slice_from-append}
use gofast.Bytes.Words.{be64, get_uint64-be64, put_uint64-overwrite}
use gofast.Bytes.Written.{
  overwrite, length-overwrite, emit-Writes, copy_in-Writes, slice_to-overwrite,
}
use gofast.Bytes.{slice_from, copy, copied, copy_in, get_uint64}
use gofast.Example.{KeyValue, key_value_size, key_value_encode, key_value_decode, part}
use gofast.Messages.{fixbuffer}

abbrev zeros : ℕ → List ℕ
zeros n = replicate n 0

length-zeros : (n : ℕ) → length (zeros n) ≡ n
length-zeros n = length-replicate n 0

drop-zeros : (n m : ℕ) → drop n (zeros (n + m)) ≡ zeros m
drop-zeros zero m = ap zeros (omega arith)
drop-zeros (suc n) m =
    let next : suc n + m ≡ suc (n + m) = omega arith in
    ap (λ (k : ℕ). drop (suc n) (zeros k)) next ∙ drop-zeros n m

zeros-append : (n m : ℕ) → zeros (n + m) ≡ zeros n ++ zeros m
zeros-append zero m = ap zeros (omega arith)
zeros-append (suc n) m =
    let next : suc n + m ≡ suc (n + m) = omega arith in
    ap zeros next ∙ ap (◌∷◌ 0) (zeros-append n m)

-- Behind what is written a buffer of zeros has zeros.
zeros_behind :
    (bs : List ℕ) (n m : ℕ)
    → overwrite bs (zeros (length bs + (n + m)))
      ≡ overwrite (bs ++ zeros n) (zeros (length bs + (n + m)))
zeros_behind bs n m =
    let size : length (bs ++ zeros n) ≡ length bs + n =
      omega (arith, length-append bs (zeros n), length-zeros n) in
    let regroup : length bs + (n + m) ≡ length bs + n + m = omega arith in
    ap (λ (l : List ℕ). bs ++ l) (drop-zeros (length bs) (n + m) ∙ zeros-append n m)
    ∙ sym (append_assoc bs (zeros n) (zeros m))
    ∙ ap (λ (l : List ℕ). (bs ++ zeros n) ++ l)
        (sym (drop-zeros (length bs + n) m)
          ∙ ap (λ (k : ℕ). drop k (zeros (length bs + n + m))) (sym size)
          ∙ ap (λ (k : ℕ). drop (length (bs ++ zeros n)) (zeros k)) (sym regroup))

-- The length of the value stands where that of the key should, and zeros where it should itself.
abbrev pub key_value_bytes : KeyValue → List ℕ
key_value_bytes msg = ((be64 (length msg.value) ++ msg.key) ++ zeros 8) ++ msg.value

second_length :
    (v w : ℕ) (bs buf : List ℕ)
    → overwrite (be64 w) (overwrite (be64 v ++ bs) buf) ≡ overwrite (be64 w ++ bs) buf
second_length v w bs buf = refl

fixbuffer-zeros : (n : ℕ) → 0 < n → fixbuffer [] n ≡ zeros n
unfolding fixbuffer
fixbuffer-zeros n h =
    let some_size : (n == 0) ≡ false = ground arith in rw (some_size, lt→ltb 0 n h)

key_value_encode-bytes :
    (msg : KeyValue)
    → length msg.key + length msg.value + 16 < 2 ^ 63
    → key_value_encode msg [] ≡ ok (key_value_bytes msg)
unfolding key_value_encode key_value_size fixbuffer
key_value_encode-bytes msg small =
    let k = length msg.key in
    let v = length msg.value in
    let front = be64 v ++ msg.key in
    let gap = front ++ zeros 8 in
    let size : 8 + k + 8 + v ≡ length front + (8 + v) = omega arith in
    let buf = zeros (length front + (8 + v)) in
    let room : length buf ≡ length front + (8 + v) = length-zeros (length front + (8 + v)) in
    let at : length front + 8 ≡ length gap = omega (arith, length-append front (zeros 8)) in
    let fits : length (gap ++ msg.value) ≤ length buf =
      omega (arith, length-append gap msg.value) in
    let first_fits : length (be64 k ++ msg.key) ≤ length buf = omega arith in
    let fixed : fixbuffer [] (8 + k + 8 + v) ≡ buf =
      fixbuffer-zeros (8 + k + 8 + v) (omega arith) ∙ ap zeros size in
    let written = length-overwrite (be64 k ++ msg.key) buf first_fits in
    rw
      (
        fixed,
        put_uint64-overwrite k buf (omega arith),
        emit-Writes (copy_in msg.key) (be64 k) msg.key buf (copy_in-Writes msg.key) first_fits,
        put_uint64-overwrite v (overwrite (be64 k ++ msg.key) buf) (omega (arith, written)),
        second_length k v msg.key buf,
        zeros_behind front 8 v,
        at,
        emit-Writes (copy_in msg.value) gap msg.value buf (copy_in-Writes msg.value) fits,
      )
      (slice_to-overwrite (gap ++ msg.value) buf fits)

zero_length : (rest : List ℕ) → get_uint64 (zeros 8 ++ rest) ≡ ok 0
unfolding get_uint64
zero_length rest = refl

part-middle :
    (front middle rest : List ℕ) (n : ℕ)
    → n ≡ length front
    → length middle < 2 ^ 63
    → part (front ++ (middle ++ rest)) n (length middle) ≡ ok middle
part-middle front middle rest n at small =
    rw (at, lt→leb (2 ^ 63) (length middle) small) (slice-middle front middle rest)

decode_steps :
    (old : KeyValue) (bs key rest more : List ℕ) (ln k ln2 : ℕ)
    → get_uint64 bs ≡ ok ln
    → part bs 8 ln ≡ ok key
    → copied (fixbuffer old.key ln) key ≡ k
    → slice_from bs (pos (8 + k)) ≡ ok rest
    → get_uint64 rest ≡ ok ln2
    → part bs (8 + k + 8) ln2 ≡ ok more
    → key_value_decode old bs
      ≡ ok (
        record {
          key = copy (fixbuffer old.key ln) key;
          value = copy (fixbuffer old.value ln2) more;
        },
        8 + k + 8 + copied (fixbuffer old.value ln2) more,
      )
unfolding key_value_decode
decode_steps old bs key rest more ln k ln2 a b c d e f = rw (a, b, c, d, e, f)

key_value_decode-bytes :
    (msg old : KeyValue)
    → length msg.key ≡ length msg.value
    → length msg.value < 2 ^ 62
    → key_value_decode old (key_value_bytes msg)
      ≡ ok (record { key = held_after old.key msg.key; value = old.value }, 16 + length msg.key)
unfolding key_value_decode
key_value_decode-bytes msg old same small =
    let v = length msg.value in
    let front = be64 v ++ msg.key in
    let behind = zeros 8 ++ msg.value in
    let bytes = be64 v ++ (msg.key ++ behind) in
    let regroup : key_value_bytes msg ≡ bytes =
      append_assoc front (zeros 8) msg.value ∙ append_assoc (be64 v) msg.key behind in
    let whole : bytes ≡ front ++ behind = sym (append_assoc (be64 v) msg.key behind) in
    let key_part : part bytes 8 v ≡ ok msg.key =
      ap (part bytes 8) (sym same) ∙ part-middle (be64 v) msg.key behind 8 refl (omega arith) in
    let held = copy_held old.key msg.key in
    let held_value = copy_held old.value [] in
    let key_held : copy (fixbuffer old.key v) msg.key ≡ held_after old.key msg.key =
      ap (λ (k : ℕ). copy (fixbuffer old.key k) msg.key) (sym same) ∙ held.0 in
    let key_count : copied (fixbuffer old.key v) msg.key ≡ length msg.key =
      ap (λ (k : ℕ). copied (fixbuffer old.key k) msg.key) (sym same) ∙ held.1 in
    let n : length front ≡ 8 + length msg.key = omega arith in
    let second : slice_from bytes (pos (8 + length msg.key)) ≡ ok behind =
      ap (λ (k : ℕ). slice_from bytes (pos k)) (sym n)
      ∙ ap (λ (l : List ℕ). slice_from l (pos (length front))) whole
      ∙ slice_from-append front behind in
    let no_value : part bytes (8 + length msg.key + 8) 0 ≡ ok [] =
      ap (λ (l : List ℕ). part l (8 + length msg.key + 8) 0) (sym regroup)
      ∙ part-middle (front ++ zeros 8) [] msg.value (8 + length msg.key + 8)
          (omega (arith, length-append front (zeros 8))) (omega arith) in
    ap (key_value_decode old) regroup
    ∙ decode_steps old bytes msg.key behind [] v (length msg.key) 0
        (get_uint64-be64 v (msg.key ++ behind) (omega arith)) key_part key_count second
        (zero_length msg.value) no_value
    ∙ result key_held held_value.0 (omega (arith, held_value.1))
  where
    result :
        {k k' v' : List ℕ} {m m' : ℕ}
        → k ≡ k'
        → v' ≡ old.value
        → m ≡ m'
        → Path
            (Result (KeyValue × ℕ))
            (ok (record { key = k; value = v' }, m))
            (ok (record { key = k'; value = old.value }, m'))
    result a b c = cc

-- The value is lost: a message of the example whose key and value are of one length, of less than
-- 2^61 bytes, encodes without an error into a new buffer, and from what it encodes to the key is
-- decoded, but the value is left as it was in the message that is decoded into.
pub key_value_encode-decode :
    (msg old : KeyValue)
    → length msg.key ≡ length msg.value
    → length msg.value < 2 ^ 61
    → (key_value_encode msg [] ≡ ok (key_value_bytes msg))
      × (key_value_decode old (key_value_bytes msg)
          ≡ ok
              (record { key = held_after old.key msg.key; value = old.value }, 16 + length msg.key))
key_value_encode-decode msg old same small =
    (key_value_encode-bytes msg (omega arith), key_value_decode-bytes msg old same (omega arith))
