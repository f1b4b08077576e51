-- ===== src/Messages.antt =====
-- The messages that the transport itself defines: msg_heartbeat.go, msg_ping.go, msg_whoami.go, and
-- msg.go's range of reserved ids, with version64.go and `fixbuffer` of util.go. A buffer that is
-- encoded into has its length for capacity, and nil is the empty list; so has the data that is
-- decoded.
pub mod RoundTrip
use gofast.Base.{
  ℕ, ◌+◌, ◌%◌, ◌^◌, Bool, ◌&&◌, List, [], ◌∷◌, Result, ok, ◌>>=◌, ℤ, pos, ◌+ℤ◌, uint64, ltb, leb,
  ◌==◌, if◌then◌else◌, length, take, replicate,
}
use gofast.Bytes.{
  index, slice, slice_from, slice_to, copy_in, counted, emit, put_byte, put_uint16, put_uint64,
  get_uint16, get_uint64,
}
use gofast.Cbor.{valuint642cbor, cbor_item_length}

abbrev pub msg_start : ℕ
msg_start = 0x1000

abbrev pub msg_ping : ℕ
msg_ping = 0x1001

abbrev pub msg_whoami : ℕ
msg_whoami = 0x1002

abbrev pub msg_heartbeat : ℕ
msg_heartbeat = 0x1003

abbrev pub msg_end : ℕ
msg_end = 0x100f

unfoldable pub is_reserved_msg : ℕ → Bool
is_reserved_msg id = leb msg_start id && leb id msg_end

unfoldable pub fixbuffer : List ℕ → ℕ → List ℕ
fixbuffer buffer size =
    if size == 0
    then buffer
    else if ltb (length buffer) size
    then replicate size 0
    else take size buffer

-- `heartbeatMsg`
unfoldable pub heartbeat_encode : ℕ → List ℕ → Result (List ℕ)
heartbeat_encode count out = do out ← put_uint64 count (fixbuffer out 8); slice_to out 8

-- A decoder returns the message and the bytes used.
unfoldable pub heartbeat_decode : List ℕ → Result (ℕ × ℕ)
heartbeat_decode data_in = do count ← get_uint64 data_in; ok (count, 8)

-- `pingMsg`
unfoldable pub ping_size : List ℕ → ℕ
ping_size echo = 2 + length echo

unfoldable pub ping_encode : List ℕ → List ℕ → Result (List ℕ)
unfolding ping_size
ping_encode echo out = do
  out ← put_uint16 (length echo % 2 ^ 16) (fixbuffer out (ping_size echo))
  (out, n) ← emit (copy_in echo) (out, 2)
  slice_to out n

unfoldable pub ping_decode : List ℕ → Result (List ℕ × ℕ)
ping_decode data_in = do
  ln ← get_uint16 data_in
  echo ← slice data_in (pos 2) (pos ln)
  ok (echo, 2 + ln)

-- The interface `Version`, without its order: `Decode` returns a count that may be negative.
pub record VersionOps (V : Type 0) : Type 0 where
  pub size : V → ℕ
  pub encode : V → List ℕ → Result (List ℕ)
  pub decode : List ℕ → Result (V × ℤ)

-- `Version64`
unfoldable pub version64_less : ℕ → ℕ → Bool
version64_less v other = ltb v other

unfoldable pub version64_equal : ℕ → ℕ → Bool
version64_equal v other = v == other

unfoldable pub version64_encode : ℕ → List ℕ → Result (List ℕ)
version64_encode v out = do (out, n) ← valuint642cbor v (fixbuffer out 9); slice_to out n

unfoldable pub version64_decode : List ℕ → Result (ℕ × ℤ)
version64_decode data_in = do (val, n) ← cbor_item_length data_in; ok (uint64 val, n)

abbrev pub version64 : VersionOps ℕ
version64 = record { size = λ v. 9; encode = version64_encode; decode = version64_decode }

-- `whoamiMsg`
pub record Whoami (V : Type 0) : Type 0 where
  pub name : List ℕ
  pub version : V
  pub buffersize : ℕ
  pub tags : List ℕ

module _ {V : Type 0} (ops : VersionOps V) where
  unfoldable pub whoami_size : Whoami V → ℕ
  whoami_size msg = 1 + length msg.name + ops.size msg.version + 8 + 2 + length msg.tags

  unfoldable pub whoami_encode : Whoami V → List ℕ → Result (List ℕ)
  unfolding whoami_size
  whoami_encode msg out = do
    w ← put_byte (length msg.name % 256) (fixbuffer out (whoami_size msg))
    w ← emit (copy_in msg.name) w
    scratchout ← ops.encode msg.version (replicate 256 0)
    w ← emit (copy_in scratchout) w
    w ← emit (counted (put_uint64 msg.buffersize) 8) w
    w ← emit (counted (put_uint16 (length msg.tags % 2 ^ 16)) 2) w
    (out, n) ← emit (copy_in msg.tags) w
    slice_to out n

  unfoldable pub whoami_decode : List ℕ → Result (Whoami V × ℤ)
  whoami_decode data_in = do
    ln ← index data_in 0
    name ← slice data_in (pos 1) (pos ln)
    let n = pos (1 + ln)
    rest ← slice_from data_in n
    (version, k) ← ops.decode rest
    let n = n +ℤ k
    rest ← slice_from data_in n
    buffersize ← get_uint64 rest
    let n = n +ℤ pos 8
    rest ← slice_from data_in n
    ln ← get_uint16 rest
    let n = n +ℤ pos 2
    tags ← slice data_in n (pos ln)
    ok (
      record { name = name; version = version; buffersize = buffersize; tags = tags },
      n +ℤ pos ln,
    )
