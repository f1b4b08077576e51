-- ===== src/Example.antt =====
-- The message of the example programs, example/msg.go. The example's `fixbuffer` and its CBOR are copies
-- of the package's.
pub mod Lost
use gofast.Base.{ℕ, ◌+◌, ◌^◌, List, Result, ok, panic, ◌>>=◌, ℤ, pos, leb, if◌then◌else◌, length}
use gofast.Bytes.{slice, slice_from, slice_to, copy, copied, copy_in, emit, put_uint64, get_uint64}
use gofast.Messages.{fixbuffer}

-- `msgPost`
pub record KeyValue : Type 0 where
  pub key : List ℕ
  pub value : List ℕ

unfoldable pub key_value_size : KeyValue → ℕ
key_value_size msg = 8 + length msg.key + 8 + length msg.value

-- Both lengths are written at the start of the buffer.
unfoldable pub key_value_encode : KeyValue → List ℕ → Result (List ℕ)
unfolding key_value_size
key_value_encode msg out = do
  out ← put_uint64 (length msg.key) (fixbuffer out (key_value_size msg))
  (out, n) ← emit (copy_in msg.key) (out, 8)
  out ← put_uint64 (length msg.value) out
  (out, n) ← emit (copy_in msg.value) (out, n + 8)
  slice_to out n

-- `in[n:n+ln]` for an int64 that was a uint64.
abbrev pub part : List ℕ → ℕ → ℕ → Result (List ℕ)
part data_in n ln = if leb (2 ^ 63) ln then panic else slice data_in (pos n) (pos ln)

-- `Decode` into a message that holds `old`, with the bytes used.
unfoldable pub key_value_decode : KeyValue → List ℕ → Result (KeyValue × ℕ)
key_value_decode old data_in = do
  ln ← get_uint64 data_in
  bytes ← part data_in 8 ln
  let key = fixbuffer old.key ln
  let n = 8 + copied key bytes
  rest ← slice_from data_in (pos n)
  ln ← get_uint64 rest
  more ← part data_in (n + 8) ln
  let value = fixbuffer old.value ln
  ok (record { key = copy key bytes; value = copy value more }, n + 8 + copied value more)
