-- ===== src/Bench.antt =====
-- The performance tool under perf/: its messages (msg.go), its copy of `cborItemLength` (cbor.go), its
-- counters (avgint.go, without the squares, and addCounts of util.go), and the handler of its server
-- that answers requests (server.go). Its other encoders of cbor.go, and its `fixbuffer`, are copies
-- of the package's, and stand for them here.
pub mod Data
pub mod Traffic
pub mod Streams
pub mod Items
pub mod Samples
use gofast.Base.{
  ℕ, zero, suc, ◌+◌, ◌%◌, ◌^◌, Bool, true, false, ◌||◌, List, [], ◌∷◌, Option, none, some, Result,
  ok, panic, ◌>>=◌, ℤ, pos, negsuc, ◌+ℤ◌, ltb_ℤ, is_pos, int64, uint64, ltb, leb, ◌==◌,
  if◌then◌else◌, length,
}
use gofast.Bytes.{
  index, slice, slice_to, copy, copied, copy_in, emit, put_uint64, get_uint16, get_uint32,
  get_uint64,
}
use gofast.Calls.{Call, call_then, run, Client, respond}
use gofast.Cbor.{cbor_info, cbor_info24, cbor_info25, cbor_info26, valuint642cbor}
use gofast.Messages.{fixbuffer}
use gofast.Registry.{Named, stat, add_stats}
use gofast.Types.{BinMessage, Message, Stats}

-- The data messages: a length of eight bytes, then the data.
unfoldable pub data_size : List ℕ → ℕ
data_size bytes = 8 + length bytes

unfoldable pub data_encode : List ℕ → List ℕ → Result (List ℕ)
unfolding data_size
data_encode bytes out = do
  out ← put_uint64 (length bytes) (fixbuffer out (data_size bytes))
  (out, n) ← emit (copy_in bytes) (out, 8)
  slice_to out n

-- `Decode` into a message that holds `old`: what it holds then, and the bytes used. A length of
-- 2^63 or more is a negative int64, for which the slices panic.
unfoldable pub data_decode : List ℕ → List ℕ → Result (List ℕ × ℕ)
data_decode old data_in = do
  ln ← get_uint64 data_in
  bytes ← if leb (2 ^ 63) ln then panic else slice data_in (pos 8) (pos ln)
  let held = fixbuffer old ln
  ok (copy held bytes, 8 + copied held bytes)

-- A message type of the tool: `ID`, `Size`, `Encode` and `Decode` of a message.
pub record DataMsg : Type 0 where
  pub id : ℕ
  pub size : ℕ
  pub encode : List ℕ → Result (List ℕ)
  pub decode : List ℕ → Result (List ℕ × ℕ)

abbrev pub as_message : DataMsg → Message
as_message msg = record { id = msg.id; encode = msg.encode; is_whoami = false }

abbrev pub msg_post : List ℕ → DataMsg
msg_post bytes = record {
  id = 111;
  size = data_size bytes;
  encode = data_encode bytes;
  decode = data_decode bytes;
}

abbrev pub msg_reqsp : List ℕ → DataMsg
msg_reqsp bytes = record {
  id = 112;
  size = data_size bytes;
  encode = data_encode bytes;
  decode = data_decode bytes;
}

abbrev pub msg_stream_rx : List ℕ → DataMsg
msg_stream_rx bytes = record {
  id = 113;
  size = data_size bytes;
  encode = data_encode bytes;
  decode = data_decode bytes;
}

abbrev pub msg_stream_tx : List ℕ → DataMsg
msg_stream_tx bytes = record {
  id = 114;
  size = data_size bytes;
  encode = data_encode bytes;
  decode = data_decode bytes;
}

-- `cborItemLength` of perf/cbor.go, which does not look at the buffer's length.
unfoldable pub item_length : List ℕ → Result (ℤ × ℕ)
item_length [] = panic
item_length (b ∷ rest) =
    let y = cbor_info b in
    if ltb y cbor_info24
    then ok (pos y, 1)
    else if y == cbor_info24
    then (index rest 0 >>= λ v. ok (pos v, 2))
    else if y == cbor_info25
    then (get_uint16 rest >>= λ v. ok (pos v, 3))
    else if y == cbor_info26
    then (get_uint32 rest >>= λ v. ok (pos v, 5))
    else (get_uint64 rest >>= λ v. ok (int64 v, 9))

-- `testVersion`, an int.
unfoldable pub test_version_less : ℤ → ℤ → Bool
test_version_less v ver = ltb_ℤ v ver

unfoldable pub test_version_equal : ℤ → ℤ → Bool
test_version_equal (pos v) (pos ver) = v == ver
test_version_equal (negsuc v) (negsuc ver) = v == ver
test_version_equal v ver = false

unfoldable pub test_version_encode : ℤ → List ℕ → Result (List ℕ)
test_version_encode v out = do
  (out, n) ← valuint642cbor (uint64 v) (fixbuffer out 32)
  slice_to out n

unfoldable pub test_version_decode : List ℕ → Result (ℤ × ℕ)
unfolding item_length
test_version_decode data_in = item_length data_in

-- `averageInt64`, without the sum of the squares, which is a float.
pub record Average : Type 0 where
  pub n : ℤ
  pub minval : ℤ
  pub maxval : ℤ
  pub sum : ℤ
  pub init : Bool

abbrev pub no_samples : Average
no_samples = record { n = pos 0; minval = pos 0; maxval = pos 0; sum = pos 0; init = false }

-- `atomic.AddInt64`
abbrev pub add_int64 : ℤ → ℤ → ℤ
add_int64 a b = int64 ((uint64 a + uint64 b) % 2 ^ 64)

-- `av.add(sample)`, with no other goroutine in between.
unfoldable pub add_sample : Average → ℤ → Average
add_sample av sample =
    let low = if av.init then ltb_ℤ sample av.minval else true in
    record {
      n = add_int64 av.n (pos 1);
      minval = if low then sample else av.minval;
      maxval = if ltb_ℤ av.maxval sample then sample else av.maxval;
      sum = add_int64 av.sum sample;
      init = if low then true else av.init;
    }

unfoldable pub add_samples : Average → List ℤ → Average
unfolding add_sample
add_samples av [] = av
add_samples av (sample ∷ samples) = add_samples (add_sample av sample) samples

-- `addCounts(transs...)`; nil is `none`.
unfoldable pub add_counts : List Stats → Option (Named ℕ)
add_counts [] = none
add_counts (first ∷ rest) = some (add_rest (stat first) rest)
  where
    add_rest : Named ℕ → List Stats → Named ℕ
    add_rest counts [] = counts
    add_rest counts (s ∷ rest) = add_rest (add_stats counts (stat s)) rest

-- The server's handler of a request: the data that came are the response's, flushed. An error, of
-- which the program ends, is returned.
unfoldable pub serve_request : Client → ℕ → BinMessage → Bool → Call (Client × Bool)
unfolding data_decode
serve_request c a msg killed =
    let bytes : List ℕ = elim msg.body [ none ↦ [] | some bytes ↦ bytes ] in
    call_then (run ((msg_reqsp []).decode bytes))
      (λ (held, n). respond c a (as_message (msg_reqsp held)) true killed)
